-- ===== src/Transports/Flatbuffers/Delivery.antt =====
-- A client and a server of flatbuffers_transport.cc, joined by the runtime.
use rpc_transport_tests.Prelude.{List, [], ◌∷◌, ◌≡◌, ◌++◌, refl, some, none, map}
use rpc_transport_tests.Memory.{Bytes, World, ok, fault}
use rpc_transport_tests.Memory.Yields
use rpc_transport_tests.Memory.Yields.{Yields, yields}
use rpc_transport_tests.Transport.{Buffers, ServerClass, no_buffers, call_rcv_fn}
use rpc_transport_tests.Transports.Restores.{Restores, release_both-Restores}
use rpc_transport_tests.Transport.Contracts.{Service, Offers, Delivers, IsReached}
use rpc_transport_tests.Transport.Views.{push_string-eq-pushed}
use rpc_transport_tests.Transports.Streams.{
  receive, receive-Holds, receive-Appends, copy_bufs-Shows, no_buffers-Holds,
}
use rpc_transport_tests.Transports.Grpc.{Status, status_ok}
use rpc_transport_tests.Transports.Flatbuffers.{FbsMsg, Channel, receive_fbs, req_reply, send_req}

-- With the field in every message the loop is gRPC's.
pub receive_fbs-receive :
    (ss : List Bytes) (out : Buffers) (w : World)
    → receive_fbs (map some ss) out w ≡ receive ss out w
unfolding receive_fbs receive
receive_fbs-receive [] out w = refl
receive_fbs-receive (s ∷ ss) out w = rw push_string-eq-pushed (receive_fbs-receive ss _ _)

-- What the runtime does for a client in memory `w` and a server in memory `v`.
abbrev pub IsConnected : Channel → World → ServerClass → World → Type 0
IsConnected call w c v =
    (ms rs : List FbsMsg) (status : Status) (v' : World)
    → req_reply c ms v ≡ ok (rs, status) v'
    → call w ms ≡ (rs, status)

pub req_reply-Answer :
    (s : Service) (c : ServerClass) (v : World) (cs rs : List Bytes)
    → Offers c s
    → s.Answer v cs rs
    → Yields (λ r v'. (r ≡ (map some rs, status_ok)) × Restores v v') (req_reply c (map some cs) v)
unfolding req_reply call_rcv_fn
req_reply-Answer s c v cs rs offers answer =
    let (req, w, came, (holds, quiet)) =
      Yields.ended (receive-Holds cs no_buffers [] v (no_buffers-Holds v)) in
    let (_, took) = Yields.at_end (receive-Appends cs no_buffers [] v (no_buffers-Holds v)) came in
    rw (receive_fbs-receive, came, offers)
      (Yields.then_do
        (Yields.uncaught
          (s.answers w cs rs req.msg.bufs (s.quiet v w cs rs quiet answer) holds.shows))
        λ rsp u (replied, wrote). rw (copy_bufs-Shows rsp.msg.bufs rs u replied.shows) (
          release_both-Restores (map some rs, status_ok) v w u req rsp cs rs took wrote.keeps
            wrote.count wrote.owned))

send_req-Delivers :
    (call : Channel) (w : World) (cs rs : List Bytes)
    → call w (map some cs) ≡ (map some rs, status_ok)
    → Delivers (send_req call) w cs rs
unfolding send_req
send_req-Delivers call w cs rs answered bs reply before s h =
    rw (copy_bufs-Shows bs cs w s, answered, receive_fbs-receive)
      (Yields.then_do (receive-Appends rs reply before w h) λ reply' w' kept. yields kept)

-- Where the runtime carries the messages both ways in order, sending through the FlatBuffers client
-- brings the answer of the service that the server's class offers, for every request that it
-- answers.
pub flatbuffers-IsReached :
    (s : Service) (c : ServerClass) (call : Channel)
    → Offers c s
    → ((w : World) → (v : World) × IsConnected call w c v)
    → IsReached s (send_req call)
flatbuffers-IsReached s c call offers connected w =
    let (v, link) = connected w in
    (
      v,
      λ cs rs answer.
          let (r, v', ran, (e, _)) = Yields.ended (req_reply-Answer s c v cs rs offers answer) in
          send_req-Delivers call w cs rs
            (link (map some cs) (map some rs) status_ok v' (rw e at ran)),
    )

receive_fbs_no_data :
    (ss : List Bytes) (ms : List FbsMsg) (out : Buffers) (w : World)
    → receive_fbs (map some ss ++ (none ∷ ms)) out w ≡ fault
unfolding receive_fbs
receive_fbs_no_data [] ms out w = refl
receive_fbs_no_data (s ∷ ss) ms out w = rw push_string-eq-pushed (receive_fbs_no_data ss ms _ _)

-- A FlatBuffers message without its data field, behind any number of good ones, is undefined
-- behaviour in the server.
pub req_reply_no_data :
    (c : ServerClass) (ss : List Bytes) (ms : List FbsMsg) (v : World)
    → req_reply c (map some ss ++ (none ∷ ms)) v ≡ fault
unfolding req_reply
req_reply_no_data c ss ms v = rw (receive_fbs_no_data ss ms no_buffers v)
