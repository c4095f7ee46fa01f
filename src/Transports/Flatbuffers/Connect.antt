-- ===== src/Transports/Flatbuffers/Connect.antt =====
-- The constructors of flatbuffers_transport.cc. gRPC is a parameter: whether a server starts at an
-- address, and what a client is given for one.
use rpc_transport_tests.Prelude.{ℕ, Bool, if◌then◌else◌, codes}
use rpc_transport_tests.Memory.{Bytes, Cmd, pure, raise, runtime_error, ◌>>=◌, ◌>>◌}
use rpc_transport_tests.Transport.{ServerBase, ClientBase, make_server_base, make_client_base}
use rpc_transport_tests.Transports.Address.{flatbuffers_server_address, server_uri}
use rpc_transport_tests.Transports.Dialing.{Dialed, require_stub}
use rpc_transport_tests.Transports.Flatbuffers.{Channel}

pub record FlatbuffersClient : Type 0 where
  pub base : ClientBase
  pub stub : Channel

-- `FlatbuffersServer::impl::impl`, where `BuildAndStart` may give `nullptr`.
unfoldable pub flatbuffers_server_impl : (Bytes → Bool) → Bytes → ℕ → Cmd (Unit {0})
flatbuffers_server_impl starts address port =
    if starts (flatbuffers_server_address address port)
    then pure tt
    else raise (runtime_error (codes "server was not created"))

-- `FlatbuffersServer::FlatbuffersServer`
unfoldable pub make_flatbuffers_server : (Bytes → Bool) → Bytes → ℕ → Cmd ServerBase
unfolding flatbuffers_server_impl make_server_base
make_flatbuffers_server starts address port = do
  flatbuffers_server_impl starts address port
  pure (make_server_base address port)

-- `FlatbuffersClient::impl::impl`
unfoldable pub flatbuffers_client_impl : (Bytes → Dialed Channel) → Bytes → ℕ → Cmd Channel
flatbuffers_client_impl dial address port = require_stub (dial (server_uri address port))

-- `FlatbuffersClient::FlatbuffersClient`
unfoldable pub make_flatbuffers_client :
    (Bytes → Dialed Channel) → Bytes → ℕ → Cmd FlatbuffersClient
unfolding flatbuffers_client_impl make_client_base
make_flatbuffers_client dial address port = do
  s ← flatbuffers_client_impl dial address port
  pure (record { base = make_client_base address port; stub = s })
