-- ===== src/Tests/Peers.antt =====
-- Servers that run in a fixed memory, and clients that are connected to them.
use rpc_transport_tests.Prelude.{refl, List, [], none, some, Option}
use rpc_transport_tests.Memory.{Run, ok}
use rpc_transport_tests.Transport.{ServerClass}
use rpc_transport_tests.Transport.Contracts.{Service, IsReached}
use rpc_transport_tests.Transports.Grpc
use rpc_transport_tests.Transports.Grpc.{Status, status_error}
use rpc_transport_tests.Transports.Grpc.Delivery
use rpc_transport_tests.Transports.Flatbuffers
use rpc_transport_tests.Transports.Capnproto
use rpc_transport_tests.RoundTrip.{rt_service}
use rpc_transport_tests.Tests.Fixtures.{codec, machine, empty_world}

abbrev pub service : Service
service = rt_service codec machine

abbrev pub server_class : ServerClass
server_class = record { rcv_fn = some service.fn }

-- What a peer sees of a handler: where it ends badly, an error.
abbrev seen : {A : Type 0} → Run (List A × Status) → List A × Status
seen (ok r w) = r
seen _ = ([], status_error 13 [])

abbrev pub grpc_channel : Grpc.Channel
grpc_channel w cs = seen (Grpc.req_reply machine server_class cs empty_world)

abbrev pub flatbuffers_channel : Flatbuffers.Channel
flatbuffers_channel w ms = seen (Flatbuffers.req_reply server_class ms empty_world)

abbrev seen_calls : {A : Type 0} → Run (List A) → Option (List A)
seen_calls (ok r w) = some r
seen_calls _ = none

abbrev pub capnproto_channel : Capnproto.Channel
capnproto_channel w calls =
    seen_calls (Capnproto.serve_calls server_class Capnproto.req_reply calls empty_world)

pub grpc_channel-IsReached : IsReached service (Grpc.send_req machine grpc_channel)
grpc_channel-IsReached =
    Delivery.grpc-IsReached machine machine service server_class grpc_channel refl
      λ w. (empty_world, λ cs rs status v' ran. rw ran)
