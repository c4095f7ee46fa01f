-- ===== src/RoundTrip/Startup.antt =====
-- Starts that fail: clients that the libraries do not connect, and servers that they do not start.
use rpc_transport_tests.Prelude.{ℕ, ◌≡◌, Bool, false, some, codes, ◌++◌}
use rpc_transport_tests.Prelude.Int.{ℤ}
use rpc_transport_tests.Prelude.Decimal.{to_string}
use rpc_transport_tests.Memory.{Bytes, Exception, runtime_error, World, throw}
use rpc_transport_tests.Proto.{Codec}
use rpc_transport_tests.Machine.{Machine}
use rpc_transport_tests.Transport.{ServerClass}
use rpc_transport_tests.Transports.Address.{
  server_uri, grpc_server_address, flatbuffers_server_address,
}
use rpc_transport_tests.Transports.Dialing.{no_channel, no_stub}
use rpc_transport_tests.Transports.Grpc.Connect.{make_grpc_client, make_grpc_server}
use rpc_transport_tests.Transports.Flatbuffers.Connect.{
  make_flatbuffers_client, make_flatbuffers_server,
}
use rpc_transport_tests.Transports.Rsocket.Connect.{
  refused, no_client, make_rsocket_client, make_rsocket_server,
}
use rpc_transport_tests.Client.Main.{
  TransportKind, flatbuffers, grpc, rsocket, Flags, client_main, select_transport,
}
use rpc_transport_tests.Client.Connect.{Network, to_uint16, make_transport, rt_client}
use rpc_transport_tests.Server.Main.{server_main}
use rpc_transport_tests.Server.Connect.{Host, serve_transport, rt_server}

-- The ways in which a client is not made, with what it throws.
pub data Unreachable (net : Network) (address : Bytes) (port : ℕ)
    : TransportKind → Exception → Type 0 where
  grpc_channel :
      net.dial_grpc (address ++ (codes ":" ++ to_string port)) ≡ no_channel
      → Unreachable net address port grpc (runtime_error (codes "channel was not created"))
  grpc_stub :
      net.dial_grpc (address ++ (codes ":" ++ to_string port)) ≡ no_stub
      → Unreachable net address port grpc (runtime_error (codes "stub was not created"))
  flatbuffers_channel :
      net.dial_flatbuffers (address ++ (codes ":" ++ to_string port)) ≡ no_channel
      → Unreachable net address port flatbuffers (runtime_error (codes "channel was not created"))
  flatbuffers_stub :
      net.dial_flatbuffers (address ++ (codes ":" ++ to_string port)) ≡ no_stub
      → Unreachable net address port flatbuffers (runtime_error (codes "stub was not created"))
  rsocket_client :
      net.dial_rsocket address port ≡ no_client
      → Unreachable net address port rsocket (runtime_error (codes "client was not created"))
  rsocket_refused :
      (e : Exception)
      → net.dial_rsocket address port ≡ refused e
      → Unreachable net address port rsocket e

make_transport-Unreachable :
    (env : Machine) (net : Network) (address : Bytes) (port : ℕ) {kind : TransportKind}
    {e : Exception} (w : World)
    → Unreachable net address port kind e
    → make_transport env net address port kind w ≡ throw e w
unfolding make_transport make_grpc_client make_flatbuffers_client make_rsocket_client server_uri
make_transport-Unreachable env net address port w (grpc_channel h) = rw h
make_transport-Unreachable env net address port w (grpc_stub h) = rw h
make_transport-Unreachable env net address port w (flatbuffers_channel h) = rw h
make_transport-Unreachable env net address port w (flatbuffers_stub h) = rw h
make_transport-Unreachable env net address port w (rsocket_client h) = rw h
make_transport-Unreachable env net address port w (rsocket_refused e h) = rw h

rt_client-Unreachable :
    (codec : Codec) (env : Machine) (net : Network) (enable_flatbuffers : Bool) (address : Bytes)
    (port : ℤ) (f : Flags) (kind : TransportKind) (e : Exception) (w : World)
    → f.sodium_fails ≡ false
    → select_transport enable_flatbuffers f.transport ≡ some kind
    → Unreachable net address (to_uint16 port) kind e
    → rt_client codec env net enable_flatbuffers address port f w ≡ throw e w
unfolding rt_client client_main
rt_client-Unreachable codec env net enable address port f kind e w sodium transport down =
    rw (sodium, transport, make_transport-Unreachable env net address (to_uint16 port) w down)

-- The transports whose server is not started, at the wildcard address in their own format.
abbrev pub NotStarted : Host → ℕ → TransportKind → Type 0
NotStarted host port grpc = host.starts_grpc (codes "[::]:" ++ to_string port) ≡ false
NotStarted host port flatbuffers = host.starts_flatbuffers (codes "[::]:" ++ to_string port) ≡ false
NotStarted host port rsocket = host.creates_rsocket (codes "::") port ≡ false
NotStarted host port _ = ⊥

serve_transport-NotStarted :
    (host : Host) (port : ℕ) (kind : TransportKind) (c : ServerClass) (w : World)
    → NotStarted host port kind
    → serve_transport host port kind c (codes "::") w
      ≡ throw (runtime_error (codes "server was not created")) w
unfolding serve_transport make_grpc_server make_flatbuffers_server make_rsocket_server
    grpc_server_address flatbuffers_server_address
serve_transport-NotStarted host port grpc c w h = rw h
serve_transport-NotStarted host port flatbuffers c w h = rw h
serve_transport-NotStarted host port rsocket c w h = rw h
serve_transport-NotStarted host port TransportKind.null c w h = absurd h
serve_transport-NotStarted host port TransportKind.capnproto c w h = absurd h

rt_server-NotStarted :
    (codec : Codec) (env : Machine) (host : Host) (enable_flatbuffers : Bool) (port : ℤ)
    (transport : Bytes) (kind : TransportKind) (w : World)
    → select_transport enable_flatbuffers transport ≡ some kind
    → NotStarted host (to_uint16 port) kind
    → rt_server codec env host enable_flatbuffers false port transport w
      ≡ throw (runtime_error (codes "server was not created")) w
unfolding rt_server server_main
rt_server-NotStarted codec env host enable port transport kind w known down =
    rw (known, serve_transport-NotStarted host (to_uint16 port) kind _ w down)

-- Where libsodium starts and the transport is known: if its library gives no channel, no stub or no
-- client for the address and the port, or refuses the connection, rt_client ends with the exception
-- that says so and has changed nothing in memory; and if its library does not start a server at the
-- wildcard address of its own format and the port, rt_server ends with the exception `server was
-- not created`.
pub starts_fail :
    (codec : Codec) (client server : Machine) (net : Network) (host : Host)
    (enable_flatbuffers : Bool) (address : Bytes) (port : ℤ) (f : Flags)
    (kind served : TransportKind) (transport : Bytes) (e : Exception) (w v : World)
    → f.sodium_fails ≡ false
    → select_transport enable_flatbuffers f.transport ≡ some kind
    → Unreachable net address (to_uint16 port) kind e
    → select_transport enable_flatbuffers transport ≡ some served
    → NotStarted host (to_uint16 port) served
    → (rt_client codec client net enable_flatbuffers address port f w ≡ throw e w)
      × (rt_server codec server host enable_flatbuffers false port transport v
          ≡ throw (runtime_error (codes "server was not created")) v)
starts_fail codec client server net host enable address port f kind served transport e w v sodium
      known unreachable chosen down =
    (
      rt_client-Unreachable codec client net enable address port f kind e w sodium known
          unreachable,
      rt_server-NotStarted codec server host enable port transport served v chosen down,
    )
