-- ===== src/RoundTrip/Runs.antt =====
-- Whole runs of rt_client against rt_server.
use rpc_transport_tests.Prelude.{ℕ, zero, suc, ◌≡◌, refl, ap, Bool, false, some, length, All}
use rpc_transport_tests.Prelude.Int.{ℤ, pos}
use rpc_transport_tests.Memory.{World, Cmd, ok}
use rpc_transport_tests.Memory.Yields
use rpc_transport_tests.Memory.Yields.{Yields, yields}
use rpc_transport_tests.Proto.{Codec, IsCodec}
use rpc_transport_tests.Machine.{Machine, IsMachine}
use rpc_transport_tests.Transports.Restores.{Restores, Restores-refl, Restores-trans}
use rpc_transport_tests.Transport.Contracts.{SendReq, IsReached}
use rpc_transport_tests.Client.Requests.{ReqCreator}
use rpc_transport_tests.Client.Run.{run_ops, run_rounds}
use rpc_transport_tests.Client.Main.{
  TransportKind, Flags, select_transport, select_workload, client_main,
}
use rpc_transport_tests.RoundTrip.{rt_service, IsSmall, IsGood, validator_of, run_op-IsGood}

module _ (codec : Codec) (lawful : IsCodec codec) (client server : Machine)
    (draws : IsMachine client) where
  run_rounds-IsGood :
      (creator : ReqCreator) (send : SendReq) (size count k : ℕ) (ops : ℤ) (w : World)
      → IsMachine server
      → IsSmall size count
      → IsReached (rt_service codec server) send
      → Yields
          (λ samples w'.
            Restores w w'
            × (length samples ≡ k)
            × All (IsGood client server creator size count) samples)
          (run_rounds codec client send creator
            (validator_of creator)
            (record { block_size = pos size; block_count = pos count; op_count = ops })
            k
            w)
  unfolding run_rounds
  run_rounds-IsGood creator send size count zero ops w m small reached =
      yields (Restores-refl w, refl, tt)
  run_rounds-IsGood creator send size count (suc k) ops w m small reached =
      Yields.then_do
        (run_op-IsGood codec lawful client server draws creator send size count ops w m small
          reached)
        λ sample u (restored, good).
          Yields.then_do (run_rounds-IsGood creator send size count k ops u m small reached)
            λ samples x (later, enough, all).
              yields (Restores-trans restored later, ap suc enough, (good, all))

  -- For lawful codecs and machines and small sizes, where libsodium starts, the flags name a
  -- transport and a workload, and the transport's client reaches the server of rt_server.cc, the
  -- client's main ends with status 0 and has as many samples as operations, each with the client's
  -- interval, the time that the server reported and the bits of the payload; and its memory is then
  -- as it was when it had connected, with no string left that was made.
  pub client_main-IsGood :
      (enable_flatbuffers : Bool) (connect : TransportKind → Cmd SendReq) (f : Flags)
      (kind : TransportKind) (creator : ReqCreator) (size count k : ℕ) (w : World)
      → IsMachine server
      → IsSmall size count
      → f.sodium_fails ≡ false
      → f.sizes ≡ record { block_size = pos size; block_count = pos count; op_count = pos k }
      → select_transport enable_flatbuffers f.transport ≡ some kind
      → select_workload f.workload ≡ some (creator, validator_of creator)
      → Yields (λ send _. IsReached (rt_service codec server) send) (connect kind w)
      → Yields
          (λ out w'.
            (out.0 ≡ 0)
            × (length out.1 ≡ k)
            × All (IsGood client server creator size count) out.1
            × ((send : SendReq) × (u : World) × (connect kind w ≡ ok send u) × Restores u w'))
          (client_main codec client connect enable_flatbuffers f w)
  unfolding client_main run_ops
  client_main-IsGood enable connect f kind creator size count k w m small sodium sizes transport
        workload connected =
      rw (sodium, transport)
        (let (send, u, joined, reached) = Yields.ended connected in
          rw (joined, workload, sizes)
            (Yields.then_do (run_rounds-IsGood creator send size count k (pos k) u m small reached)
              λ samples x (restored, enough, all).
                yields (refl, enough, all, (send, u, refl, restored))))
