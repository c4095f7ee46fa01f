-- ===== src/Tests/Pieces.antt =====
-- The client's and the server's own parts at concrete messages.
use rpc_transport_tests.Prelude.{
  false, ◌-◌, ◌^◌, ◌≡◌, ◌↔◌, refl, true, List, [], ◌∷◌, length, codes, arith,
}
use rpc_transport_tests.Prelude.Int.{pos, negsuc}
use rpc_transport_tests.Memory.{Bytes, World, ok, throw, fault, runtime_error, bad_alloc}
use rpc_transport_tests.Memory.Yields.{Yields}
use rpc_transport_tests.Proto.{of_hdr, w_req_hdr, w_rsp_hdr}
use rpc_transport_tests.Transport.{no_buffers, push_string}
use rpc_transport_tests.Transports.Restores.{Restores}
use rpc_transport_tests.Transport.Contracts.{SendReq}
use rpc_transport_tests.Transport.Views.{Appends, stored, push_string-Appends}
use rpc_transport_tests.Transports.Null
use rpc_transport_tests.Transports.Rsocket
use rpc_transport_tests.Transports.Streams.{no_buffers-Holds}
use rpc_transport_tests.Server.{server_rcv_fn}
use rpc_transport_tests.Server.Answers.{
  acknowledged, unparsed, server_rcv_fn-Answers, server_rcv_fn-Refused,
}
use rpc_transport_tests.Server.Replies.Contents.{write_answer}
use rpc_transport_tests.Client.Requests.{write_req, read_req, echo_req, req_fill}
use rpc_transport_tests.Client.Requests.Contents.{
  request, req_fill-request, req_fill_limits, req_header,
}
use rpc_transport_tests.Client.Validator.{is_valid, any_reply, echo_reply}
use rpc_transport_tests.Client.Validator.Covered.{AreCovered, blocks, is_valid-AreCovered}
use rpc_transport_tests.Client.Run.{run_op, Sizes, Sample, process_time}
use rpc_transport_tests.Client.Run.Success.{IsReplied, IsSample, run_op-IsSample}
use rpc_transport_tests.Client.Run.Failures.{run_op_no_reply, run_op_overflow}
use rpc_transport_tests.Client.Main.{select_transport, select_workload}
use rpc_transport_tests.Client.Main.Choice.{FirstOf, transports, workloads, select-FirstOf}
use rpc_transport_tests.Tests.Fixtures.{
  codec, machine, empty_world, three_strings, buf, small_sizes,
}

-- A memory that holds a serialized write request at 1.
abbrev ack_request : Bytes
ack_request = codec.serialize (of_hdr (w_req_hdr (record { buf_count = pos 0; buf_size = pos 2 })))

abbrev asked : World
asked = stored ack_request empty_world

server_rcv_fn-Answers_example :
    Appends asked no_buffers []
      (write_answer codec machine)
      (server_rcv_fn codec machine (record { bufs = buf 1 6 ∷ [] }) no_buffers asked)
server_rcv_fn-Answers_example =
    server_rcv_fn-Answers codec machine asked (buf 1 6 ∷ []) no_buffers []
      (acknowledged {cs = []} (record { buf_count = pos 0; buf_size = pos 2 }) refl)
      (refl, refl, omega arith, omega arith, tt) (no_buffers-Holds asked) λ on. refl

abbrev nothing : World
nothing = stored [] empty_world

server_rcv_fn-Refused_example :
    server_rcv_fn codec machine (record { bufs = buf 1 0 ∷ [] }) no_buffers nothing
    ≡ throw (runtime_error (codes "no header")) nothing
server_rcv_fn-Refused_example =
    server_rcv_fn-Refused codec machine nothing (buf 1 0 ∷ []) no_buffers
      (unparsed {c = []} {cs = []} refl) (refl, refl, omega arith, omega arith, tt)

req_fill-request_example :
    Appends empty_world no_buffers []
      (request codec machine echo_req 0 3 2)
      (req_fill codec machine echo_req no_buffers (pos 3) (pos 2) empty_world)
req_fill-request_example =
    req_fill-request codec machine echo_req 3 2 no_buffers [] empty_world (omega arith)
      (no_buffers-Holds empty_world)

req_fill_limits_example :
    (req_fill codec machine write_req no_buffers (pos 3) (pos (2 ^ 31 - 1)) empty_world ≡ fault)
    × (req_fill codec machine write_req no_buffers (pos 3) (negsuc 4) empty_world
        ≡ ok no_buffers empty_world)
    × (req_fill codec machine write_req no_buffers (negsuc 4) (pos 2) empty_world
        ≡ throw bad_alloc (
            stored
              (codec.serialize (of_hdr (req_header codec machine write_req (negsuc 4) (pos 2))))
              empty_world))
req_fill_limits_example =
    req_fill_limits codec machine write_req (pos 3) 4 1 no_buffers empty_world tt (omega arith)
      (omega arith)

is_valid-AreCovered_example :
    (is_valid machine echo_reply
        (record { bufs = buf 1 3 ∷ buf 2 3 ∷ [] })
        (record { bufs = buf 1 3 ∷ buf 3 4 ∷ [] })
        three_strings
      ≡ ok true three_strings)
    ↔ ((length (codes "abc" ∷ codes "abc" ∷ []) ≡ length (codes "abc" ∷ codes "abcd" ∷ []))
        × AreCovered
            (blocks (codes "abc" ∷ codes "abc" ∷ []))
            (blocks (codes "abc" ∷ codes "abcd" ∷ [])))
is_valid-AreCovered_example =
    is_valid-AreCovered machine (buf 1 3 ∷ buf 2 3 ∷ []) (buf 1 3 ∷ buf 3 4 ∷ [])
      (codes "abc" ∷ codes "abc" ∷ []) (codes "abc" ∷ codes "abcd" ∷ []) three_strings
      (refl, refl, omega arith, omega arith, (refl, refl, omega arith, omega arith, tt))
      (refl, refl, omega arith, omega arith, (refl, refl, omega arith, omega arith, tt))

-- A transport that acknowledges everything.
abbrev acknowledge : SendReq
acknowledge request reply =
    push_string (codec.serialize (of_hdr (w_rsp_hdr (record { msg_process_time_us = 5 })))) reply

acknowledge-IsReplied :
    (cs : List Bytes) (u : World) → IsReplied codec machine acknowledge any_reply cs u
unfolding process_time
acknowledge-IsReplied cs u = record {
  head = _;
  rest = [];
  hdr = w_rsp_hdr (record { msg_process_time_us = 5 });
  us = 5;
  delivers = λ bs reply before s h. push_string-Appends _ reply before u h;
  parsed = refl;
  timed = refl;
  accepts = tt;
}

run_op-IsSample_example :
    Yields
      (λ sample w'. Restores empty_world w' × ((u : World) × IsSample machine 3 2 5 sample))
      (run_op codec machine acknowledge read_req any_reply small_sizes empty_world)
unfolding acknowledge-IsReplied
run_op-IsSample_example =
    run_op-IsSample codec machine acknowledge read_req any_reply 3 2 (pos 2) empty_world
      (omega arith) (omega arith) (acknowledge-IsReplied _)

abbrev large_sizes : Sizes
large_sizes = record { block_size = pos (2 ^ 28); block_count = pos 1; op_count = pos 1 }

run_op_overflow_example :
    run_op codec machine acknowledge read_req any_reply large_sizes empty_world ≡ fault
run_op_overflow_example =
    run_op_overflow codec machine acknowledge read_req any_reply (2 ^ 28) 1 (pos 1) empty_world
      (omega arith) (omega arith) (omega arith) (acknowledge-IsReplied _)

abbrev one_reply : Rsocket.Channel
one_reply w written = codes "abc" ∷ []

abbrev some_sample : Sample
some_sample = record { interval_ns = 1; remote_us = pos 0; bits = pos 48 }

run_op_no_reply_example :
    ((u : World) × (run_op codec machine Null.send_req echo_req echo_reply small_sizes empty_world
        ≡ throw (runtime_error (codes "empty reply")) u))
    × (¬ (
        run_op codec machine
          (Rsocket.send_req one_reply)
          echo_req
          echo_reply
          small_sizes
          empty_world
        ≡ ok some_sample empty_world))
run_op_no_reply_example =
    run_op_no_reply codec machine one_reply echo_req echo_reply 3 2 (pos 2) small_sizes some_sample
      empty_world empty_world (omega arith) (omega arith)

select-FirstOf_example :
    FirstOf
      (codes "grpc, not null")
      (transports false)
      (select_transport false (codes "grpc, not null"))
    × FirstOf (codes "copy") workloads (select_workload (codes "copy"))
select-FirstOf_example = select-FirstOf false (codes "grpc, not null") (codes "copy")
