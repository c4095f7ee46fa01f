-- ===== src/Transports/Capnproto/Connect.antt =====
-- The constructors of capnproto_transport.cc. Cap'n Proto is a parameter: what a client is given
-- for an address. What `std::make_unique` returns is never `nullptr`, so the tests for that cannot
-- fail.
use rpc_transport_tests.Prelude.{ℕ}
use rpc_transport_tests.Memory.{Bytes, Cmd, pure}
use rpc_transport_tests.Transport.{ServerBase, ClientBase, make_server_base, make_client_base}
use rpc_transport_tests.Transports.Address.{capnproto_server_address, server_uri}
use rpc_transport_tests.Transports.Capnproto.{Channel}

pub record CapnprotoServer : Type 0 where
  pub base : ServerBase
  pub listening : Bytes

pub record CapnprotoClient : Type 0 where
  pub base : ClientBase
  pub svc : Channel

-- `CapnprotoServer::CapnprotoServer`, with the address that the EzRpcServer listens on.
unfoldable pub make_capnproto_server : Bytes → ℕ → Cmd CapnprotoServer
unfolding make_server_base
make_capnproto_server address port = pure (record {
  base = make_server_base address port;
  listening = capnproto_server_address address port;
})

-- `CapnprotoClient::CapnprotoClient`
unfoldable pub make_capnproto_client : (Bytes → Channel) → Bytes → ℕ → Cmd CapnprotoClient
unfolding make_client_base
make_capnproto_client dial address port =
    pure (record { base = make_client_base address port; svc = dial (server_uri address port) })
