-- ===== src/Client/Connect.antt =====
-- How `main` of rt_client.cc makes the transport's client, and the program with its flags. The
-- libraries under the transports are parameters.
use rpc_transport_tests.Prelude.{ℕ, ◌-◌, ◌%◌, ◌^◌, Bool}
use rpc_transport_tests.Prelude.Int.{ℤ, pos, negsuc}
use rpc_transport_tests.Memory.{Bytes, Cmd, pure, ◌>>=◌, ◌>>◌}
use rpc_transport_tests.Proto.{Codec}
use rpc_transport_tests.Machine.{Machine}
use rpc_transport_tests.Transport.Contracts.{SendReq}
use rpc_transport_tests.Transports.Dialing.{Dialed}
use rpc_transport_tests.Transports.Null
use rpc_transport_tests.Transports.Null.Connect.{make_null_client}
use rpc_transport_tests.Transports.Grpc
use rpc_transport_tests.Transports.Grpc.Connect.{make_grpc_client}
use rpc_transport_tests.Transports.Flatbuffers
use rpc_transport_tests.Transports.Flatbuffers.Connect.{make_flatbuffers_client}
use rpc_transport_tests.Transports.Capnproto
use rpc_transport_tests.Transports.Capnproto.Connect.{make_capnproto_client}
use rpc_transport_tests.Transports.Rsocket
use rpc_transport_tests.Transports.Rsocket.Connect.{Connected, make_rsocket_client}
use rpc_transport_tests.Client.Main.{
  TransportKind, null, flatbuffers, grpc, rsocket, capnproto, Flags, Outcome, client_main,
}

-- What the libraries give the clients for an address.
pub record Network : Type 0 where
  pub dial_grpc : Bytes → Dialed Grpc.Channel
  pub dial_flatbuffers : Bytes → Dialed Flatbuffers.Channel
  pub dial_capnproto : Bytes → Capnproto.Channel
  pub dial_rsocket : Bytes → ℕ → Connected

-- `FLAGS_port`, an `int32`, where a `uint16_t` is wanted.
abbrev pub to_uint16 : ℤ → ℕ
to_uint16 (pos n) = n % 2 ^ 16
to_uint16 (negsuc n) = 2 ^ 16 - 1 - n % 2 ^ 16

-- `std::make_unique<rt::GrpcClient>(FLAGS_address, FLAGS_port)` and the like, with its `sendReq`.
unfoldable pub make_transport : Machine → Network → Bytes → ℕ → TransportKind → Cmd SendReq
make_transport env net address port null = do make_null_client address port; pure Null.send_req
make_transport env net address port grpc = do
  c ← make_grpc_client net.dial_grpc address port
  pure (Grpc.send_req env c.stub)
make_transport env net address port flatbuffers = do
  c ← make_flatbuffers_client net.dial_flatbuffers address port
  pure (Flatbuffers.send_req c.stub)
make_transport env net address port capnproto = do
  c ← make_capnproto_client net.dial_capnproto address port
  pure (Capnproto.send_req c.svc)
make_transport env net address port rsocket = do
  c ← make_rsocket_client net.dial_rsocket address port
  pure (Rsocket.send_req c.client)

-- rt_client with its command line.
unfoldable pub rt_client : Codec → Machine → Network → Bool → Bytes → ℤ → Flags → Cmd Outcome
rt_client codec env net enable_flatbuffers address port f =
    client_main codec env (make_transport env net address (to_uint16 port)) enable_flatbuffers f
