-- ===== src/Server/Connect.antt =====
-- How `main` of rt_server.cc makes the transport's server and waits, and the program with its
-- flags. The libraries under the transports are parameters.
use rpc_transport_tests.Prelude.{ℕ, Bool}
use rpc_transport_tests.Prelude.Int.{ℤ}
use rpc_transport_tests.Memory.{Bytes, Cmd, ◌>>◌}
use rpc_transport_tests.Proto.{Codec}
use rpc_transport_tests.Machine.{Machine}
use rpc_transport_tests.Transport.{ServerClass}
use rpc_transport_tests.Transports.Null
use rpc_transport_tests.Transports.Null.Connect.{make_null_server}
use rpc_transport_tests.Transports.Grpc.Connect.{make_grpc_server}
use rpc_transport_tests.Transports.Flatbuffers.Connect.{make_flatbuffers_server}
use rpc_transport_tests.Transports.Capnproto.Connect.{make_capnproto_server}
use rpc_transport_tests.Transports.Rsocket.Connect.{make_rsocket_server}
use rpc_transport_tests.Client.Main.{TransportKind, null, flatbuffers, grpc, rsocket, capnproto}
use rpc_transport_tests.Client.Connect.{to_uint16}
use rpc_transport_tests.Server.Main.{server_main}

-- Which servers the libraries start, and what they do while a server waits.
pub record Host : Type 0 where
  pub starts_grpc : Bytes → Bool
  pub starts_flatbuffers : Bytes → Bool
  pub creates_rsocket : Bytes → ℕ → Bool
  pub waits : TransportKind → ServerClass → Cmd (Unit {0})

-- `std::make_unique<rt::GrpcServer>(addr, FLAGS_port)` and the like, and `transport->wait()`.
unfoldable pub serve_transport : Host → ℕ → TransportKind → ServerClass → Bytes → Cmd (Unit {0})
serve_transport host port null c address = do make_null_server address port; Null.wait
serve_transport host port grpc c address = do
  make_grpc_server host.starts_grpc address port
  host.waits grpc c
serve_transport host port flatbuffers c address = do
  make_flatbuffers_server host.starts_flatbuffers address port
  host.waits flatbuffers c
serve_transport host port capnproto c address = do
  make_capnproto_server address port
  host.waits capnproto c
serve_transport host port rsocket c address = do
  make_rsocket_server host.creates_rsocket address port
  host.waits rsocket c

-- rt_server with its command line.
unfoldable pub rt_server : Codec → Machine → Host → Bool → Bool → ℤ → Bytes → Cmd ℕ
rt_server codec env host enable_flatbuffers sodium_fails port transport =
    server_main codec env (serve_transport host (to_uint16 port)) enable_flatbuffers sodium_fails
      transport
