-- ===== src/Transports/Rsocket/Connect.antt =====
-- The constructors of rsocket_transport.cc. RSocket and folly are parameters: whether a server is
-- made, and what a client is given for an address.
use rpc_transport_tests.Prelude.{ℕ, Bool, if◌then◌else◌, codes}
use rpc_transport_tests.Memory.{Bytes, Exception, Cmd, pure, raise, runtime_error, ◌>>=◌}
use rpc_transport_tests.Transport.{ServerBase, ClientBase, make_server_base, make_client_base}
use rpc_transport_tests.Transports.Rsocket.{Channel}

-- What `createConnectedClient(...).get()` gives: an exception, `nullptr`, or a client.
pub data Connected : Type 0 where
  refused : Exception → Connected
  no_client : Connected
  connected : Channel → Connected

pub record RsocketClient : Type 0 where
  pub base : ClientBase
  pub client : Channel

-- `RsocketServer::RsocketServer`
unfoldable pub make_rsocket_server : (Bytes → ℕ → Bool) → Bytes → ℕ → Cmd ServerBase
unfolding make_server_base
make_rsocket_server creates address port =
    if creates address port
    then pure (make_server_base address port)
    else raise (runtime_error (codes "server was not created"))

require_client : Connected → Cmd Channel
require_client (refused e) = raise e
require_client no_client = raise (runtime_error (codes "client was not created"))
require_client (connected c) = pure c

-- `RsocketClient::RsocketClient`
unfoldable pub make_rsocket_client : (Bytes → ℕ → Connected) → Bytes → ℕ → Cmd RsocketClient
unfolding require_client make_client_base
make_rsocket_client dial address port = do
  c ← require_client (dial address port)
  pure (record { base = make_client_base address port; client = c })
