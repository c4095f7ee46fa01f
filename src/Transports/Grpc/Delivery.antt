-- ===== src/Transports/Grpc/Delivery.antt =====
-- A client and a server of grpc_transport.cc, joined by the runtime.
use rpc_transport_tests.Prelude.{List, [], ◌++◌, ◌≡◌, codes}
use rpc_transport_tests.Prelude.Decimal.{to_string}
use rpc_transport_tests.Memory.{Bytes, World, Run, ok, throw, runtime_error, DataBuf}
use rpc_transport_tests.Memory.Yields
use rpc_transport_tests.Memory.Yields.{Yields, yields}
use rpc_transport_tests.Machine.{Machine}
use rpc_transport_tests.Transports.Grpc.Unlogged.{read_requests-receive, write_requests-copy_bufs}
use rpc_transport_tests.Transport.{Buffers, ServerClass, no_buffers, call_rcv_fn}
use rpc_transport_tests.Transports.Restores.{Restores, release_both-Restores}
use rpc_transport_tests.Transport.Contracts.{Service, Offers, Delivers, IsReached}
use rpc_transport_tests.Transport.Views.{Shows, Holds, Makes}
use rpc_transport_tests.Transports.Streams.{
  receive-Holds, receive-Appends, copy_bufs-Shows, no_buffers-Holds,
}
use rpc_transport_tests.Transports.Grpc.{
  Status, status_ok, status_error, Channel, req_reply, send_req,
}

-- What the runtime does for a client in memory `w` and a server in memory `v`: the handler reads
-- what the client wrote, and the client reads what the handler wrote, in order.
abbrev pub IsConnected : Machine → Channel → World → ServerClass → World → Type 0
IsConnected server call w c v =
    (cs rs : List Bytes) (status : Status) (v' : World)
    → req_reply server c cs v ≡ ok (rs, status) v'
    → call w cs ≡ (rs, status)

-- The handler writes the answer of the service.
pub req_reply-Answer :
    (server : Machine) (s : Service) (c : ServerClass) (v : World) (cs rs : List Bytes)
    → Offers c s
    → s.Answer v cs rs
    → Yields (λ r v'. (r ≡ (rs, status_ok)) × Restores v v') (req_reply server c cs v)
unfolding req_reply call_rcv_fn
req_reply-Answer server s c v cs rs offers answer =
    let (req, w, came, (holds, quiet)) =
      Yields.ended (receive-Holds cs no_buffers [] v (no_buffers-Holds v)) in
    let (_, took) = Yields.at_end (receive-Appends cs no_buffers [] v (no_buffers-Holds v)) came in
    rw (read_requests-receive, came, offers)
      (Yields.then_do
        (Yields.uncaught
          (s.answers w cs rs req.msg.bufs (s.quiet v w cs rs quiet answer) holds.shows))
        λ rsp u (replied, wrote). rw (copy_bufs-Shows rsp.msg.bufs rs u replied.shows) (
          release_both-Restores (rs, status_ok) v w u req rsp cs rs took wrote.keeps wrote.count
            wrote.owned))

-- The client adds what the call brings to the reply.
send_req-Delivers :
    (client : Machine) (call : Channel) (w : World) (cs rs : List Bytes)
    → call w cs ≡ (rs, status_ok)
    → Delivers (send_req client call) w cs rs
unfolding send_req
send_req-Delivers client call w cs rs answered bs reply before s h =
    rw (write_requests-copy_bufs, copy_bufs-Shows bs cs w s, answered)
      (Yields.then_do (receive-Appends rs reply before w h) λ reply' w' kept. yields kept)

-- Where the gRPC runtime carries the strings both ways in order, sending through the client brings
-- the answer of the service that the server's class offers, for every request that it answers.
pub grpc-IsReached :
    (client server : Machine) (s : Service) (c : ServerClass) (call : Channel)
    → Offers c s
    → ((w : World) → (v : World) × IsConnected server call w c v)
    → IsReached s (send_req client call)
grpc-IsReached client server s c call offers connected w =
    let (v, link) = connected w in
    (
      v,
      λ cs rs answer.
          let (r, v', ran, (e, _)) =
            Yields.ended (req_reply-Answer server s c v cs rs offers answer) in
          send_req-Delivers client call w cs rs (link cs rs status_ok v' (rw e at ran)),
    )

-- The end of the call: the reply, or an exception with the code in decimal and the message.
abbrev pub Ended : Status → Buffers → World → Run Buffers
Ended status_ok out w = ok out w
Ended (status_error code message) out w =
    throw (runtime_error (codes "send failed: (" ++ (to_string code ++ (codes ") " ++ message)))) w

-- Whatever the call's status, the gRPC client stores what came behind what the reply had, in order
-- and owned by the container, and keeps what was in memory; then it returns that reply if the
-- status is OK, and else throws, with the status code in decimal and the status message, in the
-- memory that holds them.
pub send_req-Ended :
    (client : Machine) (call : Channel) (bs : List DataBuf) (reply : Buffers)
    (cs rs before : List Bytes) (w : World) (status : Status)
    → call w cs ≡ (rs, status)
    → Shows w bs cs
    → Holds w reply before
    → (out : Buffers) × (w' : World) × Holds w' out (before ++ rs)
      × Makes w reply rs w' out
      × (send_req client call (record { bufs = bs }) reply w ≡ Ended status out w')
unfolding send_req
send_req-Ended client call bs reply cs rs before w status_ok answered s h =
    let (out, w', ran, (holds, makes)) = Yields.ended (receive-Appends rs reply before w h) in
    (out, w', holds, makes, rw (write_requests-copy_bufs, copy_bufs-Shows bs cs w s, answered, ran))
send_req-Ended client call bs reply cs rs before w (status_error code message) answered s h =
    let (out, w', ran, (holds, makes)) = Yields.ended (receive-Appends rs reply before w h) in
    (out, w', holds, makes, rw (write_requests-copy_bufs, copy_bufs-Shows bs cs w s, answered, ran))
