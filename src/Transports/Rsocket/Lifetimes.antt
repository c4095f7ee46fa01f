-- ===== src/Transports/Rsocket/Lifetimes.antt =====
-- The lives of two objects of rsocket_transport.cc.
use rpc_transport_tests.Prelude.{ℕ, suc, ◌≡◌, refl, List, [], ◌∷◌, none, arith}
use rpc_transport_tests.Memory.{
  Ptr, Bytes, Msg, World, ok, fault, alloc, free, load_message, load_string,
}
use rpc_transport_tests.Memory.Yields
use rpc_transport_tests.Memory.Yields.{Yields, yields}
use rpc_transport_tests.Transport.{Buffers, ServerClass, MsgDataContainer, no_buffers, call_rcv_fn}
use rpc_transport_tests.Transport.Contracts.{Service, Offers}
use rpc_transport_tests.Transports.Streams.{receive-Holds, release, copy_bufs, no_buffers-Holds}
use rpc_transport_tests.Transports.Rsocket.{
  FlowablePayload, Channel, payload_at, handle_request_channel, on_next, send_req, on_all, transmit,
}

-- A release makes no object, so an address without one stays so.
release-none :
    (p : Ptr) (ps : MsgDataContainer) (w : World)
    → w.cell p ≡ none
    → Yields (λ _ w'. w'.cell p ≡ none) (release ps w)
unfolding release free
release-none p [] w e = yields e
release-none p (q ∷ ps) w e = release-none p ps _ (ground arith)

load_message-none : (p : Ptr) (w : World) → w.cell p ≡ none → load_message p w ≡ fault
unfolding load_message
load_message-none p w e = rw e

payload_at-none :
    (flow : FlowablePayload) (i : ℕ) (w : World)
    → w.cell flow.snd_msg ≡ none
    → payload_at flow i w ≡ fault
unfolding payload_at
payload_at-none flow i w e = rw (load_message-none flow.snd_msg w e)

-- Whenever the service answers, the RSocket handler returns a flow, and making any payload of the
-- flow afterwards is undefined behaviour.
pub handle_request_channel_dangles :
    (s : Service) (c : ServerClass) (v : World) (cs rs : List Bytes)
    → Offers c s
    → s.Answer v cs rs
    → Yields (λ flow v'. (i : ℕ) → payload_at flow i v' ≡ fault) (handle_request_channel c cs v)
unfolding handle_request_channel call_rcv_fn alloc free
handle_request_channel_dangles s c v cs rs offers answer =
    Yields.then_do (receive-Holds cs no_buffers [] v (no_buffers-Holds v)) λ req w (holds, quiet).
      rw offers (
        Yields.then_do
          (Yields.uncaught
            (s.answers w cs rs req.msg.bufs (s.quiet v w cs rs quiet answer) holds.shows))
          λ rsp u _.
            Yields.then_do (release-none (suc u.count) rsp.container _ (ground arith)) λ _ x gone.
              Yields.then_do (release-none (suc u.count) req.container x gone) λ _ y gone'.
                yields λ i. payload_at-none (record { snd_msg = suc u.count; size = _ }) i y gone')

-- The client's subscriber has undefined behaviour at every payload.
on_next-fault : (str : Bytes) (reply : Buffers) (w : World) → on_next str reply w ≡ fault
unfolding on_next alloc load_string
on_next-fault str reply w = refl

on_all_mute :
    (ss : List Bytes) (reply reply' : Buffers) (w w' : World)
    → on_all ss reply w ≡ ok reply' w'
    → reply' ≡ reply
unfolding on_all
on_all_mute [] reply reply' w w' ran = cc
on_all_mute (s ∷ ss) reply reply' w w' ran =
    let (a, u, first, rest) = Yields.resume-ok (on_next s reply w) (on_all ss) reply' w' ran in
    let clash : ok a u ≡ fault = cc (first, on_next-fault s reply w) in cc clash

-- A send that ends has brought nothing.
pub send_req_mute :
    (call : Channel) (request : Msg) (reply reply' : Buffers) (w w' : World)
    → send_req call request reply w ≡ ok reply' w'
    → reply' ≡ reply
unfolding send_req transmit
send_req_mute call request reply reply' w w' ran =
    let (written, u, copied, sent) = Yields.resume-ok (copy_bufs request.bufs w) _ reply' w' ran in
    on_all_mute (call u written) reply reply' u w' sent
