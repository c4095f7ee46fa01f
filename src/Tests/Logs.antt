-- ===== src/Tests/Logs.antt =====
-- The log lines at concrete requests.
use rpc_transport_tests.Prelude.{◌≡◌, refl, ◌∷◌, [], codes, arith}
use rpc_transport_tests.Prelude.Int.{pos, negsuc}
use rpc_transport_tests.Memory.{Bytes, World, fault}
use rpc_transport_tests.Proto.{of_hdr, of_data, e_req_hdr, EchoReqHeader}
use rpc_transport_tests.Machine.{unlogged}
use rpc_transport_tests.Transport.{no_buffers}
use rpc_transport_tests.Transport.Views.{stored}
use rpc_transport_tests.Transports.Null
use rpc_transport_tests.Client.Requests.{write_req, echo_req}
use rpc_transport_tests.Client.Validator.{any_reply, echo_reply}
use rpc_transport_tests.Client.Run.{run_op}
use rpc_transport_tests.Server.{server_rcv_fn}
use rpc_transport_tests.Logging.{logging_unseen, log_overruns}
use rpc_transport_tests.Transports.Grpc
use rpc_transport_tests.Tests.Peers.{server_class, grpc_channel}
use rpc_transport_tests.Tests.Fixtures.{codec, machine, empty_world, buf}

abbrev echo_header : EchoReqHeader
echo_header = record { buf_count = pos 1; buf_size = pos 3 }

abbrev head : Bytes
head = codec.serialize (of_hdr (e_req_hdr echo_header))

abbrev block : Bytes
block = codec.serialize (of_data (codes "abc"))

-- No payload is serialized to this.
abbrev garbage : Bytes
garbage = codes "no payload"

-- A memory with a header at 1 and a string at 2.
abbrev asked : Bytes → World
asked s = stored s (stored head empty_world)

logging_unseen_example :
    (run_op codec machine Null.send_req write_req any_reply
        (record { block_size = pos 3; block_count = pos 2; op_count = pos 1 })
        empty_world
      ≡ run_op codec
          (unlogged machine)
          Null.send_req
          write_req
          any_reply
          (record { block_size = pos 3; block_count = pos 2; op_count = pos 1 })
          empty_world)
    × (server_rcv_fn codec machine
          (record { bufs = buf 1 6 ∷ buf 2 4 ∷ [] })
          no_buffers
          (asked block)
        ≡ server_rcv_fn codec
            (unlogged machine)
            (record { bufs = buf 1 6 ∷ buf 2 4 ∷ [] })
            no_buffers
            (asked block))
    × (Grpc.req_reply machine server_class (head ∷ block ∷ []) empty_world
        ≡ Grpc.req_reply (unlogged machine) server_class (head ∷ block ∷ []) empty_world)
    × (Grpc.send_req machine grpc_channel ≡ Grpc.send_req (unlogged machine) grpc_channel)
logging_unseen_example =
    logging_unseen codec machine Null.send_req write_req any_reply 3 2 (pos 1)
      (buf 1 6 ∷ buf 2 4 ∷ []) head (block ∷ []) empty_world (asked block) empty_world server_class
      (head ∷ block ∷ []) grpc_channel (omega arith)
      (refl, refl, omega arith, omega arith, (refl, refl, omega arith, omega arith, tt))
      λ on. omega arith

log_overruns_example :
    (run_op codec machine Null.send_req echo_req echo_reply
        (record { block_size = pos 3; block_count = negsuc 4; op_count = pos 1 })
        empty_world
      ≡ fault)
    × (server_rcv_fn codec machine
          (record { bufs = buf 1 6 ∷ buf 2 10 ∷ [] })
          no_buffers
          (asked garbage)
        ≡ fault)
log_overruns_example =
    log_overruns codec machine Null.send_req echo_req echo_reply (pos 3) (pos 1) 4
      (buf 1 6 ∷ buf 2 10 ∷ []) echo_header head garbage [] empty_world (asked garbage) refl tt
      (omega arith)
      (refl, refl, omega arith, omega arith, (refl, refl, omega arith, omega arith, tt)) refl
      (omega arith)
