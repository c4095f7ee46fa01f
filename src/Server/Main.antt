-- ===== src/Server/Main.antt =====
-- `main` of rt_server.cc: the receive function is set, and the chosen transport serves it. gflags,
-- glog, signals and libsodium's start are parameters.
use rpc_transport_tests.Prelude.{ℕ, Bool, if◌then◌else◌, Option, none, some, codes}
use rpc_transport_tests.Memory.{Bytes, Cmd, pure, ◌>>◌}
use rpc_transport_tests.Proto.{Codec}
use rpc_transport_tests.Machine.{Machine}
use rpc_transport_tests.Transport.{ServerClass, initial_class, set_rcv_fn}
use rpc_transport_tests.Server.{server_rcv_fn}
use rpc_transport_tests.Client.Main.{TransportKind, select_transport}

module _ (codec : Codec) (env : Machine)
    (serve : TransportKind → ServerClass → Bytes → Cmd (Unit {0})) where
  -- The transport is made for the address and waits.
  run_server : ServerClass → Option TransportKind → Cmd ℕ
  run_server c none = pure 1
  run_server c (some kind) = do serve kind c (codes "::"); pure 0

  unfoldable pub server_main : Bool → Bool → Bytes → Cmd ℕ
  unfolding run_server
  server_main enable_flatbuffers sodium_fails transport =
      if sodium_fails
      then pure 1
      else (let c = set_rcv_fn (server_rcv_fn codec env) initial_class in
          run_server c (select_transport enable_flatbuffers transport))
