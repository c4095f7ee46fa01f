-- ===== src/Transports/Capnproto/Sessions/Isolation.antt =====
-- What the objects of the server have to do with each other.
use rpc_transport_tests.Prelude.{
  ℕ, ◌≤◌, ◌==◌, ==_iff, ◌≡◌, refl, sym, inl, inr, Bool-cases, some, List, [], map, length, take,
  arith,
}
use mathlib.Core.Option.{some-injective}
use rpc_transport_tests.Memory.{Bytes, World, Run, Cmd, ok}
use rpc_transport_tests.Memory.Yields
use rpc_transport_tests.Memory.Yields.{Yields, yields}
use rpc_transport_tests.Transport.{ServerClass, no_buffers, call_rcv_fn}
use rpc_transport_tests.Transport.Contracts.{Service, Offers}
use rpc_transport_tests.Transport.Views.{
  Holds, Keeps, Keeps-refl, Keeps-stored, Holds-Keeps, pushed-Holds, push_string-eq-pushed,
}
use rpc_transport_tests.Transports.Streams.{no_buffers-Holds}
use rpc_transport_tests.Transports.Capnproto.{send_chunk, req_send_chunk}
use rpc_transport_tests.Transports.Capnproto.Delivery.{chunks}
use rpc_transport_tests.Transports.Capnproto.Sessions.{
  Phase, collecting, replied, replying, Session, opened, serve_chunk, serve_done, serve_reply,
  Sessions, put, Due, chunk, finish, reply, Turn, fresh, serve, Reach, started, next,
}
use rpc_transport_tests.Transports.Capnproto.Sessions.Replies.{
  all_sent, sent_next, serve_reply_last, serve_reply_turn,
}

-- What is true of an object in a phase: it has stored just its chunks, and made no call; or the
-- service answers its chunks, and it has sent the strings of the answer up to an index; or all.
abbrev pub Fits : Service → World → Session → Phase → Type 0
Fits s w x collecting = Holds w x.svc.rcv x.request × (x.svc.snd ≡ no_buffers) × (x.reply ≡ [])
Fits s w x (replying i) =
    (v : World) × (rs : List Bytes) × s.Answer v x.request rs
    × Holds w x.svc.snd rs
    × (i ≤ length rs)
    × (x.reply ≡ map send_chunk (take i rs))
Fits s w x replied =
    (v : World) × (rs : List Bytes) × s.Answer v x.request rs × (x.reply ≡ chunks rs)

Fits-Keeps :
    (s : Service) {w w' : World} (x : Session) (p : Phase)
    → Keeps w w'
    → Fits s w x p
    → Fits s w' x p
Fits-Keeps s x collecting k (h, e, r) = (Holds-Keeps k h, e, r)
Fits-Keeps s x (replying i) k (v, rs, a, h, le, r) = (v, rs, a, Holds-Keeps k h, le, r)
Fits-Keeps s x replied k f = f

-- A turn of an object ends with the object as it should be, and keeps the memory.
abbrev pub Serves : Service → World → Run Session → Type 0
Serves s w = Yields λ x' w'. Keeps w w' × Fits s w' x' x'.phase

-- Every object fits its phase.
abbrev pub IsIsolated : Service → Sessions → Type 0
IsIsolated s t = (i : ℕ) (x : Session) → t.at i ≡ some x → Fits s t.memory x x.phase

serve_chunk-Serves :
    (s : Service) (b : Bytes) (x : Session) (w : World)
    → x.phase ≡ collecting
    → Fits s w x collecting
    → Serves s w (serve_chunk b x w)
unfolding serve_chunk req_send_chunk
serve_chunk-Serves s b x w p (h, e, r) =
    rw push_string-eq-pushed
      (yields (Keeps-stored b w, rw p (pushed-Holds b x.svc.rcv x.request w h, e, r)))

serve_done-Serves :
    (s : Service) (c : ServerClass) (x : Session) (rs : List Bytes) (w : World)
    → Offers c s
    → s.Answer w x.request rs
    → Fits s w x collecting
    → Serves s w (serve_done c x w)
unfolding serve_done call_rcv_fn
serve_done-Serves s c x rs w offers answer (h, e, r) =
    rw (offers, e)
      (Yields.then_do (Yields.uncaught (s.answers w x.request rs x.svc.rcv.msg.bufs answer h.shows))
        λ snd u (holds, makes). yields (makes.keeps, (w, rs, answer, holds, omega arith, r)))

serve_reply-Serves :
    (s : Service) (i : ℕ) (x : Session) (w : World)
    → Fits s w x (replying i)
    → Serves s w (serve_reply i x w)
serve_reply-Serves s i x w (v, rs, answer, h, le, r) = elim (Bool-cases (i == length rs)) [
  | inl e ↦
      let whole : i ≡ length rs = (==_iff i (length rs)).0 e in
      rw (serve_reply_last i x rs w h whole)
        (yields (Keeps-refl w, (v, rs, answer, all_sent rs x.reply i whole r)))
  | inr e ↦
      let (c, at_c, ran) = serve_reply_turn i x rs w h (ground (arith, le, e)) in
      rw ran (
        yields (
          Keeps-refl w,
          (v, rs, answer, h, ground (arith, le, e), sent_next rs x.reply c i at_c r),
        ))
]

Due-Serves :
    (s : Service) (c : ServerClass) {w : World} {x : Session} {run : Cmd Session}
    → Offers c s
    → Due s c w x run
    → Fits s w x x.phase
    → Serves s w (run w)
Due-Serves s c {w} {x} offers (chunk b p) fits = serve_chunk-Serves s b x w p (rw p at fits)
Due-Serves s c {w} {x} offers (finish rs p answer) fits =
    serve_done-Serves s c x rs w offers answer (rw p at fits)
Due-Serves s c {w} {x} offers (reply k p) fits = serve_reply-Serves s k x w (rw p at fits)

-- The object with a new state fits, and so do the others in the new memory.
put-IsIsolated :
    (s : Service) (t : Sessions) (i : ℕ) {r : Run Session} {x : Session} {w : World}
    → Serves s t.memory r
    → r ≡ ok x w
    → IsIsolated s t
    → IsIsolated s (put i x w t)
put-IsIsolated s t i {r} {x} {w} served ran all j y there = elim (Bool-cases (i == j)) [
  | inl e ↦
      let (keeps, fits) = Yields.at_end served ran in
      let same : x ≡ y = some-injective x y (rw e at there) in rw same at fits
  | inr e ↦
      let (keeps, fits) = Yields.at_end served ran in
      Fits-Keeps s y y.phase keeps (all j y (rw e at there))
]

Turn-IsIsolated :
    (s : Service) (c : ServerClass) {t t' : Sessions}
    → Offers c s
    → Turn s c t t'
    → IsIsolated s t
    → IsIsolated s t'
Turn-IsIsolated s c {t} offers fresh all = λ j y there. elim (Bool-cases (t.count == j)) [
  | inl e ↦
      let same : opened ≡ y = some-injective opened y (rw e at there) in
      rw (sym same) (no_buffers-Holds t.memory, refl, refl)
  | inr e ↦ all j y (rw e at there)
]
Turn-IsIsolated s c {t} offers (serve i {x} {run = run} there due ran) all =
    put-IsIsolated s t i (Due-Serves s c offers due (all i x there)) ran all

Reach-IsIsolated :
    (s : Service) (c : ServerClass) (w : World) (t : Sessions)
    → Offers c s
    → Reach s c w t
    → IsIsolated s t
Reach-IsIsolated s c w t offers started = λ j y there. absurd (cc there)
Reach-IsIsolated s c w t offers (next {t = u} r turn) =
    Turn-IsIsolated s c offers turn (Reach-IsIsolated s c w u offers r)

-- Where requests come interleaved at the Cap'n Proto server, in every state of its event loop each
-- request's object fits its phase: while it collects, it has stored just the chunks that came for
-- it and sent nothing; while it replies, the service answers those chunks, in some memory, and it
-- has sent the strings of the answer up to its index; afterwards it has sent all of them and done.
pub Reach-Fits :
    (s : Service) (c : ServerClass) (w : World) (t : Sessions) (i : ℕ) (x : Session)
    → Offers c s
    → Reach s c w t
    → t.at i ≡ some x
    → Fits s t.memory x x.phase
Reach-Fits s c w t i x offers r there = Reach-IsIsolated s c w t offers r i x there

-- In every state of the Cap'n Proto server's event loop, what is due at an object ends with a
-- value, keeps every string in memory as it was, and leaves the object as its phase wants it: a
-- chunk that comes, done for a request that the service answers, or the next step of the reply.
pub Reach-Due :
    (s : Service) (c : ServerClass) (w : World) (t : Sessions) (i : ℕ) (x : Session)
    (run : Cmd Session)
    → Offers c s
    → Reach s c w t
    → t.at i ≡ some x
    → Due s c t.memory x run
    → Yields (λ x' w'. Keeps t.memory w' × Fits s w' x' x'.phase) (run t.memory)
Reach-Due s c w t i x run offers r there due =
    Due-Serves s c offers due (Reach-IsIsolated s c w t offers r i x there)
