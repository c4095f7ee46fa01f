-- ===== src/Transports/Address.antt =====
-- The addresses that the transports listen on and connect to.
use rpc_transport_tests.Prelude.{ℕ, if◌then◌else◌, ◌++◌, codes}
use rpc_transport_tests.Prelude.Decimal.{to_string}
use rpc_transport_tests.Memory.{Bytes}
use rpc_transport_tests.Client.Validator.{bytes_eq}

-- `GrpcServer::impl::impl`: gRPC's format for the wildcard listener.
unfoldable pub grpc_server_address : Bytes → ℕ → Bytes
grpc_server_address address port =
    (if bytes_eq address (codes "::") then codes "[::]" else address)
    ++ (codes ":" ++ to_string port)

-- `FlatbuffersServer::impl::impl` uses the same.
unfoldable pub flatbuffers_server_address : Bytes → ℕ → Bytes
flatbuffers_server_address address port =
    (if bytes_eq address (codes "::") then codes "[::]" else address)
    ++ (codes ":" ++ to_string port)

-- `CapnprotoServer::impl::impl`: Cap'n Proto's format.
unfoldable pub capnproto_server_address : Bytes → ℕ → Bytes
capnproto_server_address address port =
    (if bytes_eq address (codes "::") then codes "*" else address) ++ (codes ":" ++ to_string port)

-- The `serverUri` of the three clients.
unfoldable pub server_uri : Bytes → ℕ → Bytes
server_uri address port = address ++ (codes ":" ++ to_string port)
