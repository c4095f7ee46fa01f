-- ===== src/Transports/Handlers.antt =====
-- The handlers of ReqReply in grpc_transport.cc and flatbuffers_transport.cc, and the memory of the
-- server.
use rpc_transport_tests.Prelude.{◌≡◌, List, map, some}
use rpc_transport_tests.Memory.{Bytes, World}
use rpc_transport_tests.Memory.Yields.{Yields}
use rpc_transport_tests.Machine.{Machine}
use rpc_transport_tests.Transport.{ServerClass}
use rpc_transport_tests.Transport.Contracts.{Service, Offers}
use rpc_transport_tests.Transports.Grpc
use rpc_transport_tests.Transports.Grpc.{status_ok}
use rpc_transport_tests.Transports.Grpc.Delivery as GrpcDelivery
use rpc_transport_tests.Transports.Flatbuffers
use rpc_transport_tests.Transports.Flatbuffers.Delivery as FlatbuffersDelivery
use rpc_transport_tests.Transports.Restores.{Restores}

-- For every request that the service answers, the handlers of gRPC and FlatBuffers write the answer
-- and return OK, and leave the server's memory as they found it: every object that was there is
-- unchanged, and no string that was made is left.
pub req_reply-Restores :
    (server : Machine) (s : Service) (c : ServerClass) (v : World) (cs rs : List Bytes)
    → Offers c s
    → s.Answer v cs rs
    → Yields (λ r v'. (r ≡ (rs, status_ok)) × Restores v v') (Grpc.req_reply server c cs v)
      × Yields
          (λ r v'. (r ≡ (map some rs, status_ok)) × Restores v v')
          (Flatbuffers.req_reply c (map some cs) v)
req_reply-Restores server s c v cs rs offers answer = (
  GrpcDelivery.req_reply-Answer server s c v cs rs offers answer,
  FlatbuffersDelivery.req_reply-Answer s c v cs rs offers answer,
)
