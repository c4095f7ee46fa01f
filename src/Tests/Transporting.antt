-- ===== src/Tests/Transporting.antt =====
-- The transports at concrete peers and messages.
use rpc_transport_tests.Prelude.{ℕ, ◌≡◌, refl, List, [], ◌∷◌, ◌++◌, map, some, none, codes, arith}
use rpc_transport_tests.Prelude.Int.{pos}
use rpc_transport_tests.Prelude.Decimal.{to_string}
use rpc_transport_tests.Memory.{Bytes, World, throw, runtime_error, fault, abort}
use rpc_transport_tests.Memory.Yields.{Yields}
use rpc_transport_tests.Proto.{of_hdr, w_req_hdr}
use rpc_transport_tests.Transport.{Buffers, no_buffers}
use rpc_transport_tests.Transport.Views.{Holds, Makes}
use rpc_transport_tests.Transport.Contracts.{IsReached}
use rpc_transport_tests.Transports.Restores.{Restores}
use rpc_transport_tests.Transports.Handlers.{req_reply-Restores}
use rpc_transport_tests.Transports.Grpc
use rpc_transport_tests.Transports.Grpc.{status_error, status_ok}
use rpc_transport_tests.Transports.Grpc.Delivery.{grpc-IsReached, send_req-Ended}
use rpc_transport_tests.Transports.Flatbuffers
use rpc_transport_tests.Transports.Flatbuffers.Delivery.{flatbuffers-IsReached, req_reply_no_data}
use rpc_transport_tests.Transports.Capnproto
use rpc_transport_tests.Transports.Capnproto.Delivery.{chunks, capnproto-IsReached}
use rpc_transport_tests.Transports.Rsocket
use rpc_transport_tests.Transports.Rsocket.Lifetimes.{handle_request_channel_dangles}
use rpc_transport_tests.Transports.Streams.{no_buffers-Holds}
use rpc_transport_tests.Server.Answers.{acknowledged, empty}
use rpc_transport_tests.Server.Replies.Contents.{write_answer}
use rpc_transport_tests.RoundTrip.Refusals.{Refused-abort}
use rpc_transport_tests.Tests.Fixtures.{codec, machine, empty_world, three_strings, buf}
use rpc_transport_tests.Tests.Peers.{
  service, server_class, grpc_channel, flatbuffers_channel, capnproto_channel,
}

grpc-IsReached_example : IsReached service (Grpc.send_req machine grpc_channel)
grpc-IsReached_example =
    grpc-IsReached machine machine service server_class grpc_channel refl
      λ w. (empty_world, λ cs rs status v' ran. rw ran)

flatbuffers-IsReached_example : IsReached service (Flatbuffers.send_req flatbuffers_channel)
flatbuffers-IsReached_example =
    flatbuffers-IsReached service server_class flatbuffers_channel refl
      λ w. (empty_world, λ ms rs status v' ran. rw ran)

capnproto-IsReached_example : IsReached service (Capnproto.send_req capnproto_channel)
capnproto-IsReached_example =
    capnproto-IsReached service server_class capnproto_channel refl
      λ w. (empty_world, λ calls back v' ran. rw ran)

-- A write request of one block, its acknowledgement, and a channel that is down.
abbrev write_strings : List Bytes
write_strings =
    codec.serialize (of_hdr (w_req_hdr (record { buf_count = pos 1; buf_size = pos 2 })))
    ∷ (0 ∷ 7 ∷ 7 ∷ [])
    ∷ []

write_strings-Answer : service.Answer empty_world write_strings (write_answer codec machine)
write_strings-Answer = acknowledged (record { buf_count = pos 1; buf_size = pos 2 }) refl

abbrev down_channel : Grpc.Channel
down_channel w cs = (codes "ab" ∷ [], status_error 14 (codes "down"))

send_req-Ended_example :
    (out : Buffers) × (w' : World) × Holds w' out (codes "ab" ∷ [])
    × Makes three_strings no_buffers (codes "ab" ∷ []) w' out
    × (Grpc.send_req machine down_channel (record { bufs = buf 1 3 ∷ [] }) no_buffers three_strings
        ≡ throw (runtime_error (codes "send failed: (14) down")) w')
unfolding to_string
send_req-Ended_example =
    send_req-Ended machine down_channel (buf 1 3 ∷ []) no_buffers (codes "abc" ∷ [])
      (codes "ab" ∷ []) [] three_strings (status_error 14 (codes "down")) refl
      (refl, refl, omega arith, omega arith, tt) (no_buffers-Holds three_strings)

req_reply-Restores_example :
    Yields
      (λ r v'. (r ≡ (write_answer codec machine, status_ok)) × Restores empty_world v')
      (Grpc.req_reply machine server_class write_strings empty_world)
    × Yields
        (λ r v'. (r ≡ (map some (write_answer codec machine), status_ok)) × Restores empty_world v')
        (Flatbuffers.req_reply server_class (map some write_strings) empty_world)
req_reply-Restores_example =
    req_reply-Restores machine service server_class empty_world write_strings
      (write_answer codec machine) refl write_strings-Answer

req_reply_no_data_example :
    Flatbuffers.req_reply server_class
      (map some (codes "abc" ∷ []) ++ (none ∷ some (codes "abcd") ∷ []))
      empty_world
    ≡ fault
req_reply_no_data_example =
    req_reply_no_data server_class (codes "abc" ∷ []) (some (codes "abcd") ∷ []) empty_world

handle_request_channel_dangles_example :
    Yields
      (λ flow v'. (i : ℕ) → Rsocket.payload_at flow i v' ≡ fault)
      (Rsocket.handle_request_channel server_class write_strings empty_world)
handle_request_channel_dangles_example =
    handle_request_channel_dangles service server_class empty_world write_strings
      (write_answer codec machine) refl write_strings-Answer

refused-abort_example :
    (Grpc.req_reply machine server_class [] empty_world ≡ abort)
    × (Flatbuffers.req_reply server_class (map some []) empty_world ≡ abort)
    × (Capnproto.serve_calls server_class Capnproto.req_reply (chunks []) empty_world ≡ abort)
    × (Rsocket.handle_request_channel server_class [] empty_world ≡ abort)
refused-abort_example =
    Refused-abort codec machine server_class empty_world [] (codes "empty request") refl empty
