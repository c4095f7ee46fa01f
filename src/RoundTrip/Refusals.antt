-- ===== src/RoundTrip/Refusals.antt =====
-- Requests that rt_server.cc refuses, in the handlers of the transports.
use rpc_transport_tests.Prelude.{refl, ℕ, ◌<◌, ◌^◌, List, [], ◌≡◌, map, some}
use rpc_transport_tests.Prelude.Int.{ℤ, negsuc}
use rpc_transport_tests.Memory.{Bytes, World, ok, abort, or_abort}
use rpc_transport_tests.Memory.Yields
use rpc_transport_tests.Proto.{Codec}
use rpc_transport_tests.Machine.{Machine}
use rpc_transport_tests.Transport.{ServerClass, no_buffers, call_rcv_fn, Buffers}
use rpc_transport_tests.Transport.Contracts.{Offers}
use rpc_transport_tests.Transport.Views.{Holds}
use rpc_transport_tests.Transports.Streams.{copy_bufs, receive-Holds, no_buffers-Holds}
use rpc_transport_tests.Transports.Grpc
use rpc_transport_tests.Transports.Flatbuffers
use rpc_transport_tests.Transports.Flatbuffers.Delivery.{receive_fbs-receive}
use rpc_transport_tests.Transports.Capnproto
use rpc_transport_tests.Transports.Capnproto.Delivery.{chunks, serve_calls-receive}
use rpc_transport_tests.Transports.Rsocket
use rpc_transport_tests.Server.Answers.{Refused, empty, server_rcv_fn-Refused}
use rpc_transport_tests.Client.Requests.{ReqCreator, req_fill}
use rpc_transport_tests.Client.Requests.Contents.{SendsBlocks, req_fill_negative_count}
use rpc_transport_tests.Transports.Grpc.Unlogged.{read_requests-receive}
use rpc_transport_tests.RoundTrip.{rt_service}

module _ (codec : Codec) (env : Machine) where
  call_rcv_fn-Refused :
      (c : ServerClass) (req : Buffers) (cs : List Bytes) (why : Bytes) (w : World)
      → Offers c (rt_service codec env)
      → Refused codec env cs why
      → Holds w req cs
      → or_abort (call_rcv_fn c req.msg no_buffers w) ≡ abort
  unfolding call_rcv_fn
  call_rcv_fn-Refused c req cs why w offers refused holds =
      rw (offers, server_rcv_fn-Refused codec env w req.msg.bufs no_buffers refused holds.shows)

  -- A request that the receive function refuses makes the server's process abort, over each of the
  -- four transports that carry one.
  pub Refused-abort :
      (c : ServerClass) (v : World) (cs : List Bytes) (why : Bytes)
      → Offers c (rt_service codec env)
      → Refused codec env cs why
      → (Grpc.req_reply env c cs v ≡ abort)
        × (Flatbuffers.req_reply c (map some cs) v ≡ abort)
        × (Capnproto.serve_calls c Capnproto.req_reply (chunks cs) v ≡ abort)
        × (Rsocket.handle_request_channel c cs v ≡ abort)
  unfolding Grpc.req_reply Flatbuffers.req_reply Capnproto.serve_calls Capnproto.req_done
      Rsocket.handle_request_channel
  Refused-abort c v cs why offers refused =
      let (req, w, came, (holds, _)) =
        Yields.ended (receive-Holds cs no_buffers [] v (no_buffers-Holds v)) in
      let down = call_rcv_fn-Refused c req cs why w offers refused holds in
      (
        rw (read_requests-receive, came, down),
        rw (receive_fbs-receive cs no_buffers v, came, down),
        rw (serve_calls-receive c cs Capnproto.req_reply v, came, down),
        rw (came, down),
      )

  -- A creator that sends blocks, at a negative count, appends nothing to the request; the
  -- transports then send no string, or only done; and such a call aborts the server over gRPC,
  -- FlatBuffers and Cap'n Proto.
  pub negative_count-abort :
      (client : Machine) (creator : ReqCreator) (size : ℤ) (n : ℕ) (w : World) (c : ServerClass)
      (v : World)
      → SendsBlocks codec client creator
      → n < 2 ^ 31
      → Offers c (rt_service codec env)
      → (req_fill codec client creator no_buffers size (negsuc n) w ≡ ok no_buffers w)
        × (copy_bufs no_buffers.msg.bufs w ≡ ok [] w)
        × (Capnproto.send_request_stream no_buffers.msg w ≡ ok (chunks []) w)
        × (Grpc.req_reply env c [] v ≡ abort)
        × (Flatbuffers.req_reply c [] v ≡ abort)
        × (Capnproto.serve_calls c Capnproto.req_reply (chunks []) v ≡ abort)
  unfolding copy_bufs Capnproto.send_request_stream
  negative_count-abort client creator size n w c v sends small offers =
      let (grpc, fbs, capnp, _) = Refused-abort c v [] _ offers empty in
      (
        req_fill_negative_count codec client creator size n no_buffers w sends small,
        refl,
        refl,
        grpc,
        fbs,
        capnp,
      )
