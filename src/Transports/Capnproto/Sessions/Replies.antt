-- ===== src/Transports/Capnproto/Sessions/Replies.antt =====
-- The single turns of a reply of the server.
use rpc_transport_tests.Prelude.{
  ==_false, ℕ, zero, suc, ◌+◌, ◌<◌, ◌==◌, ==_iff, ◌≡◌, refl, false, some, List, [], ◌∷◌, ◌++◌, map,
  length, take, get_elem?, arith,
}
use rpc_transport_tests.Memory.{Bytes, World, ok}
use rpc_transport_tests.Transport.Views.{Holds, length-Shows}
use rpc_transport_tests.Transports.Streams.{take_all, Shows-get_elem?}
use rpc_transport_tests.Transports.Capnproto.{StreamCall, send_chunk, done, elem_at}
use rpc_transport_tests.Transports.Capnproto.Delivery.{chunks}
use rpc_transport_tests.Transports.Capnproto.Sessions.{
  Session, replied, replying, reply_step, serve_reply,
}

chunks-append : (cs : List Bytes) → map send_chunk cs ++ (done ∷ []) ≡ chunks cs
chunks-append [] = refl
chunks-append (c ∷ cs) = rw (chunks-append cs)

send_chunk_next :
    (cs : List Bytes) (c : Bytes) (i : ℕ)
    → get_elem? cs i ≡ some c
    → map send_chunk (take i cs) ++ (send_chunk c ∷ []) ≡ map send_chunk (take (suc i) cs)
send_chunk_next [] c i h = absurd (cc h)
send_chunk_next (d ∷ cs) c zero h = cc
send_chunk_next (d ∷ cs) c (suc i) h = rw (send_chunk_next cs c i h)

add_one : (i : ℕ) → i + 1 ≡ suc i
add_one i = omega arith

pub sent_next :
    (rs : List Bytes) (sent : List StreamCall) (c : Bytes) (i : ℕ)
    → get_elem? rs i ≡ some c
    → sent ≡ map send_chunk (take i rs)
    → sent ++ (send_chunk c ∷ []) ≡ map send_chunk (take (suc i) rs)
sent_next rs sent c i at r = rw r (send_chunk_next rs c i at)

pub all_sent :
    (rs : List Bytes) (sent : List StreamCall) (i : ℕ)
    → i ≡ length rs
    → sent ≡ map send_chunk (take i rs)
    → sent ++ (done ∷ []) ≡ chunks rs
all_sent rs sent i whole r = rw (r, whole, take_all rs) (chunks-append rs)

-- The last turn of a reply, and one before it.
abbrev pub last_turn : Session → Session
last_turn x = record x { phase = replied; reply = x.reply ++ (done ∷ []) }

abbrev pub turn_of : ℕ → Bytes → Session → Session
turn_of i c x = record x { phase = replying (suc i); reply = x.reply ++ (send_chunk c ∷ []) }

pub serve_reply_last :
    (i : ℕ) (x : Session) (rs : List Bytes) (w : World)
    → Holds w x.svc.snd rs
    → i ≡ length rs
    → serve_reply i x w ≡ ok (last_turn x) w
unfolding serve_reply reply_step
serve_reply_last i x rs w h e =
    rw (length-Shows w x.svc.snd.msg.bufs rs h.shows, (==_iff i (length rs)).1 e) refl

pub serve_reply_turn :
    (i : ℕ) (x : Session) (rs : List Bytes) (w : World)
    → Holds w x.svc.snd rs
    → i < length rs
    → (c : Bytes) × (get_elem? rs i ≡ some c) × (serve_reply i x w ≡ ok (turn_of i c x) w)
unfolding serve_reply reply_step elem_at
serve_reply_turn i x rs w h lt =
    let (b, c, at_b, at_c, read) = Shows-get_elem? w x.svc.snd.msg.bufs rs i h.shows lt in
    let more : (i == length rs) ≡ false = ==_false i (length rs) (λ e. omega (arith, e, lt)) in
    (c, at_c, rw (length-Shows w x.svc.snd.msg.bufs rs h.shows, more, at_b, read, add_one i) refl)
