-- ===== src/Transports/Grpc/Connect.antt =====
-- The constructors of grpc_transport.cc. gRPC is a parameter: whether a server starts at an address,
-- and what a client is given for one.
use rpc_transport_tests.Prelude.{ℕ, Bool, if◌then◌else◌, codes}
use rpc_transport_tests.Memory.{Bytes, Cmd, pure, raise, runtime_error, ◌>>=◌, ◌>>◌}
use rpc_transport_tests.Transport.{ServerBase, ClientBase, make_server_base, make_client_base}
use rpc_transport_tests.Transports.Address.{grpc_server_address, server_uri}
use rpc_transport_tests.Transports.Dialing.{Dialed, require_stub}
use rpc_transport_tests.Transports.Grpc.{Channel}

pub record GrpcClient : Type 0 where
  pub base : ClientBase
  pub stub : Channel

-- `GrpcServer::impl::impl`, where `BuildAndStart` may give `nullptr`.
unfoldable pub grpc_server_impl : (Bytes → Bool) → Bytes → ℕ → Cmd (Unit {0})
grpc_server_impl starts address port =
    if starts (grpc_server_address address port)
    then pure tt
    else raise (runtime_error (codes "server was not created"))

-- `GrpcServer::GrpcServer`
unfoldable pub make_grpc_server : (Bytes → Bool) → Bytes → ℕ → Cmd ServerBase
unfolding grpc_server_impl make_server_base
make_grpc_server starts address port = do
  grpc_server_impl starts address port
  pure (make_server_base address port)

-- `GrpcClient::impl::impl`
unfoldable pub grpc_client_impl : (Bytes → Dialed Channel) → Bytes → ℕ → Cmd Channel
grpc_client_impl dial address port = require_stub (dial (server_uri address port))

-- `GrpcClient::GrpcClient`
unfoldable pub make_grpc_client : (Bytes → Dialed Channel) → Bytes → ℕ → Cmd GrpcClient
unfolding grpc_client_impl make_client_base
make_grpc_client dial address port = do
  s ← grpc_client_impl dial address port
  pure (record { base = make_client_base address port; stub = s })
