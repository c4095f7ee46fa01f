-- ===== src/Transports/Capnproto/Sessions/Progress.antt =====
-- A reply of the server comes to its end.
use rpc_transport_tests.Prelude.{
  set, ==_refl, ℕ, zero, suc, ◌+◌, ◌==◌, ◌≡◌, refl, ap, ◌∙◌, inl, inr, Bool-cases, Option, some,
  List, map, length, take, arith,
}
use mathlib.Core.Path.{fun_ext}
use rpc_transport_tests.Memory.{Bytes, World}
use rpc_transport_tests.Memory.Yields
use rpc_transport_tests.Memory.Yields.{Yields, yields}
use rpc_transport_tests.Transport.{ServerClass, no_buffers, call_rcv_fn}
use rpc_transport_tests.Transport.Contracts.{Service, Offers}
use rpc_transport_tests.Transport.Views.{Holds}
use rpc_transport_tests.Transports.Capnproto.{send_chunk}
use rpc_transport_tests.Transports.Capnproto.Delivery.{chunks}
use rpc_transport_tests.Transports.Capnproto.Sessions.{
  collecting, replied, replying, Session, serve_done, Sessions, put, finish, reply, Reach, Alone,
  nothing, one_more,
}
use rpc_transport_tests.Transports.Capnproto.Sessions.Isolation.{Reach-Fits}
use rpc_transport_tests.Transports.Capnproto.Sessions.Replies.{
  last_turn, turn_of, serve_reply_last, serve_reply_turn, sent_next, all_sent,
}

-- A place that is set twice.
set-set : {A : Type 0} (f : ℕ → Option A) (i : ℕ) (a b : Option A) → set (set f i a) i b ≡ set f i b
set-set f i a b = fun_ext λ j. elim (Bool-cases (i == j)) [ inl e ↦ rw e refl | inr e ↦ rw e refl ]

put-put :
    (i : ℕ) (x y : Session) (w u : World) (t : Sessions) → put i y u (put i x w t) ≡ put i y u t
put-put i x y w u t = ap (λ f. record t { at = f; memory = u }) (set-set t.at i (some x) (some y))

put_there : (i : ℕ) (x : Session) (w : World) (t : Sessions) → (put i x w t).at i ≡ some x
put_there i x w t = rw (==_refl i) refl

-- The turns that are left of a reply.
replies :
    (s : Service) (c : ServerClass) (left k : ℕ) (t t' : Sessions) (i : ℕ) (x : Session)
    (rs : List Bytes)
    → Alone s c i t t'
    → t'.at i ≡ some x
    → x.phase ≡ replying k
    → Holds t'.memory x.svc.snd rs
    → x.reply ≡ map send_chunk (take k rs)
    → left + k ≡ length rs
    → (x' : Session) × (u : World) × Alone s c i t (put i x' u t')
      × (x'.phase ≡ replied)
      × (x'.reply ≡ chunks rs)
replies s c zero k t t' i x rs r there phase h sent e =
    let whole : k ≡ length rs = omega (arith, e) in
    (
      last_turn x,
      t'.memory,
      one_more r there (reply k phase) (serve_reply_last k x rs t'.memory h whole),
      refl,
      all_sent rs x.reply k whole sent,
    )
replies s c (suc left) k t t' i x rs r there phase h sent e =
    let (b, at_b, ran) = serve_reply_turn k x rs t'.memory h (omega (arith, e)) in
    let (x', u, r', done, all) =
      replies s c left (suc k) t (put i (turn_of k b x) t'.memory t') i (turn_of k b x) rs
        (one_more r there (reply k phase) ran) (put_there i (turn_of k b x) t'.memory t') refl h
        (sent_next rs x.reply b k at_b sent) (omega (arith, e)) in
    (x', u, rw (put-put i (turn_of k b x) x' t'.memory u t') at r', done, all)

-- `done` for an answer, with what the object is then about to send.
serve_done-sends :
    (s : Service) (c : ServerClass) (x : Session) (rs : List Bytes) (w : World)
    → Offers c s
    → s.Answer w x.request rs
    → Holds w x.svc.rcv x.request
    → x.svc.snd ≡ no_buffers
    → Yields
        (λ x' w'. (x'.phase ≡ replying 0) × Holds w' x'.svc.snd rs × (x'.reply ≡ x.reply))
        (serve_done c x w)
unfolding serve_done call_rcv_fn
serve_done-sends s c x rs w offers answer h e =
    rw (offers, e)
      (Yields.then_do (Yields.uncaught (s.answers w x.request rs x.svc.rcv.msg.bufs answer h.shows))
        λ snd u (holds, makes). yields (refl, holds, refl))

-- From a state of the Cap'n Proto server's event loop where an object has collected a request that
-- the service answers, turns of that object alone lead to a state where it has sent every string of
-- that answer and done, and each other object is as it was.
pub Reach-replied :
    (s : Service) (c : ServerClass) (w : World) (t : Sessions) (i : ℕ) (x : Session)
    (rs : List Bytes)
    → Offers c s
    → Reach s c w t
    → t.at i ≡ some x
    → x.phase ≡ collecting
    → s.Answer t.memory x.request rs
    → (x' : Session) × (u : World) × Alone s c i t (put i x' u t)
      × (x'.phase ≡ replied)
      × (x'.reply ≡ chunks rs)
Reach-replied s c w t i x rs offers r there phase answer =
    let (h, empty, none_sent) = rw phase at (Reach-Fits s c w t i x offers r there) in
    let (x', v, ran, (begins, holds, same)) =
      Yields.ended (serve_done-sends s c x rs t.memory offers answer h empty) in
    let (x'', u, r', done, all) =
      replies s c (length rs) 0 t (put i x' v t) i x' rs
        (one_more nothing there (finish rs phase answer) ran) (put_there i x' v t) begins holds
        (same ∙ none_sent) (omega arith) in
    (x'', u, rw (put-put i x' x'' v u t) at r', done, all)
