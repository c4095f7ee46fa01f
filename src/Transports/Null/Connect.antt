-- ===== src/Transports/Null/Connect.antt =====
-- The constructors of null_transport.cc.
use rpc_transport_tests.Prelude.{ℕ}
use rpc_transport_tests.Memory.{Bytes, Cmd, pure}
use rpc_transport_tests.Transport.{ServerBase, ClientBase, make_server_base, make_client_base}

-- `NullServer::NullServer`
unfoldable pub make_null_server : Bytes → ℕ → Cmd ServerBase
unfolding make_server_base
make_null_server address port = pure (make_server_base address port)

-- `NullClient::NullClient`
unfoldable pub make_null_client : Bytes → ℕ → Cmd ClientBase
unfolding make_client_base
make_null_client address port = pure (make_client_base address port)
