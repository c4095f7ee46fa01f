-- ===== src/RoundTrip/Programs.antt =====
-- rt_client against rt_server, each with its command line, over the transports between them.
use rpc_transport_tests.Prelude.{ℕ, ◌≡◌, refl, Bool, false, some, length, All}
use rpc_transport_tests.Prelude.Int.{ℤ, pos}
use rpc_transport_tests.Memory.{Bytes, World}
use rpc_transport_tests.Memory.Yields
use rpc_transport_tests.Memory.Yields.{Yields, yields}
use rpc_transport_tests.Proto.{Codec, IsCodec}
use rpc_transport_tests.Machine.{Machine, IsMachine}
use rpc_transport_tests.Transport.{ServerClass, initial_class, set_rcv_fn}
use rpc_transport_tests.Transport.Contracts.{Service, Offers, IsReached}
use rpc_transport_tests.Transports.Restores.{Restores}
use rpc_transport_tests.Transports.Address.{server_uri}
use rpc_transport_tests.Transports.Dialing.{stub}
use rpc_transport_tests.Transports.Grpc
use rpc_transport_tests.Transports.Grpc.Connect.{make_grpc_client}
use rpc_transport_tests.Transports.Grpc.Delivery as GrpcDelivery
use rpc_transport_tests.Transports.Flatbuffers
use rpc_transport_tests.Transports.Flatbuffers.Connect.{make_flatbuffers_client}
use rpc_transport_tests.Transports.Flatbuffers.Delivery as FlatbuffersDelivery
use rpc_transport_tests.Transports.Capnproto.Connect.{make_capnproto_client}
use rpc_transport_tests.Transports.Capnproto.Delivery as CapnprotoDelivery
use rpc_transport_tests.Server.{server_rcv_fn}
use rpc_transport_tests.Client.Requests.{ReqCreator}
use rpc_transport_tests.Client.Main.{
  TransportKind, null, flatbuffers, grpc, rsocket, capnproto, Flags, select_transport,
  select_workload,
}
use rpc_transport_tests.Client.Connect.{Network, to_uint16, make_transport, rt_client}
use rpc_transport_tests.RoundTrip.{rt_service, IsGood, IsSmall, validator_of}
use rpc_transport_tests.RoundTrip.Runs.{client_main-IsGood}

-- The network joins the clients for an address to a server of the class.
abbrev pub IsServed : Machine → Network → Bytes → ℕ → ServerClass → TransportKind → Type 0
IsServed server net address port c grpc =
    (call : Grpc.Channel) × (net.dial_grpc (server_uri address port) ≡ stub call)
    × ((w : World) → (v : World) × GrpcDelivery.IsConnected server call w c v)
IsServed server net address port c flatbuffers =
    (call : Flatbuffers.Channel) × (net.dial_flatbuffers (server_uri address port) ≡ stub call)
    × ((w : World) → (v : World) × FlatbuffersDelivery.IsConnected call w c v)
IsServed server net address port c capnproto =
    (w : World)
    → (v : World) × CapnprotoDelivery.IsConnected (net.dial_capnproto (server_uri address port)) w c
        v
IsServed server net address port c null = ⊥
IsServed server net address port c rsocket = ⊥

make_transport-IsReached :
    (client server : Machine) (s : Service) (net : Network) (address : Bytes) (port : ℕ)
    (c : ServerClass) (kind : TransportKind) (w : World)
    → Offers c s
    → IsServed server net address port c kind
    → Yields (λ send u. IsReached s send × (u ≡ w)) (make_transport client net address port kind w)
unfolding make_transport make_grpc_client make_flatbuffers_client make_capnproto_client
make_transport-IsReached client server s net address port c grpc w offers (call, dialed, linked) =
    rw dialed (yields (GrpcDelivery.grpc-IsReached client server s c call offers linked, refl))
make_transport-IsReached client server s net address port c flatbuffers w offers
      (call, dialed, linked) =
    rw dialed (yields (FlatbuffersDelivery.flatbuffers-IsReached s c call offers linked, refl))
make_transport-IsReached client server s net address port c capnproto w offers linked =
    yields (CapnprotoDelivery.capnproto-IsReached s c _ offers linked, refl)
make_transport-IsReached client server s net address port c null w offers linked = absurd linked
make_transport-IsReached client server s net address port c rsocket w offers linked = absurd linked

-- The class that `main` of rt_server.cc serves.
abbrev pub rt_class : Codec → Machine → ServerClass
rt_class codec server = set_rcv_fn (server_rcv_fn codec server) initial_class

module _ (codec : Codec) (lawful : IsCodec codec) (client server : Machine)
    (draws : IsMachine client) where
  -- For lawful codecs and machines and small sizes, where libsodium starts and the flags name a
  -- transport and a workload: if dialing the address and the port gives that transport's client a
  -- connection to rt_server's class, which is so for gRPC, FlatBuffers and Cap'n Proto only, the
  -- whole of rt_client ends with status 0 and has as many samples as operations, each with the
  -- client's interval, the time that the server reported and the bits of the payload; and its
  -- memory is then as it was, with no string left that was made.
  pub rt_client-IsGood :
      (net : Network) (enable_flatbuffers : Bool) (address : Bytes) (port : ℤ) (f : Flags)
      (kind : TransportKind) (creator : ReqCreator) (size count k : ℕ) (w : World)
      → IsMachine server
      → IsSmall size count
      → f.sodium_fails ≡ false
      → f.sizes ≡ record { block_size = pos size; block_count = pos count; op_count = pos k }
      → select_transport enable_flatbuffers f.transport ≡ some kind
      → select_workload f.workload ≡ some (creator, validator_of creator)
      → IsServed server net address (to_uint16 port) (rt_class codec server) kind
      → Yields
          (λ out w'.
            (out.0 ≡ 0)
            × (length out.1 ≡ k)
            × All (IsGood client server creator size count) out.1
            × Restores w w')
          (rt_client codec client net enable_flatbuffers address port f w)
  unfolding rt_client set_rcv_fn
  rt_client-IsGood net enable address port f kind creator size count k w m small sodium sizes
        transport workload served =
      let reached =
        make_transport-IsReached client server (rt_service codec server) net address
          (to_uint16 port) (rt_class codec server) kind w refl served in
      Yields.weaken
        (client_main-IsGood codec lawful client server draws enable
          (make_transport client net address (to_uint16 port)) f kind creator size count k w m small
          sodium sizes transport workload (Yields.weaken reached λ send u (r, _). r))
        λ out w' (status, enough, all, (send, u, joined, restored)).
          let (_, same) = Yields.at_end reached joined in (status, enough, all, rw same at restored)
