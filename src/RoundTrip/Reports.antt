-- ===== src/RoundTrip/Reports.antt =====
-- The lines that rt_client writes behind a run against rt_server.
use rpc_transport_tests.Prelude.{
  ℕ, ◌+◌, ◌*◌, ◌^◌, ◌≡◌, refl, ap, ◌∙◌, Bool, false, some, List, [], ◌∷◌, ◌++◌, length, map, All,
  codes, arith,
}
use rpc_transport_tests.Prelude.Int.{ℤ, pos}
use rpc_transport_tests.Prelude.Decimal.{to_string}
use rpc_transport_tests.Memory.{Bytes, World}
use rpc_transport_tests.Memory.Yields
use rpc_transport_tests.Memory.Yields.{Yields}
use rpc_transport_tests.Proto.{Codec, IsCodec}
use rpc_transport_tests.Machine.{Machine, IsMachine}
use rpc_transport_tests.Client.Requests.{ReqCreator}
use rpc_transport_tests.Client.Run.{Sample}
use rpc_transport_tests.Client.Main.{
  TransportKind, Flags, Outcome, select_transport, select_workload,
}
use rpc_transport_tests.Client.Connect.{Network, to_uint16, rt_client}
use rpc_transport_tests.Client.Report.{
  Reals, Accumulators, accumulate, throughput, latency_ms, client_lines,
}
use rpc_transport_tests.RoundTrip.{IsSmall, IsGood, validator_of}
use rpc_transport_tests.RoundTrip.Programs.{IsServed, rt_class, rt_client-IsGood}

-- Accumulators that count what they are given.
pub record IsCounting {Num : Type 0} (acc : Accumulators Num) : Type 0 where
  pub none_yet : acc.count acc.empty ≡ 0
  pub one_more :
      (x : Num) (stats : acc.StatSet) → acc.count (acc.push x stats) ≡ acc.count stats + 1

-- What an accumulator holds that gets the numbers of a list, the first one first.
abbrev pub pushed : {Num : Type 0} (acc : Accumulators Num) → List Num → acc.StatSet → acc.StatSet
pushed acc [] stats = stats
pushed acc (x ∷ xs) stats = pushed acc xs (acc.push x stats)

-- What a run is about to do.
abbrev pub sending_line : Bytes → ℕ → ℕ → ℕ → Bytes
sending_line workload size count k =
    codes "Sending "
    ++ (to_string k
        ++ (codes " "
            ++ (workload
                ++ (codes " op(s), each for "
                    ++ (to_string count
                        ++ (codes " blocks of size " ++ (to_string size ++ codes " bytes")))))))

module _ {Num : Type 0} (reals : Reals Num) where
  open reals use {root, written, of_int, minus, over, s_of_ns, ms_of_ns, s_of_us, ms_of_us}

  -- Megabits in a second: the bits of `count` blocks of `size` bytes, over the interval less the time
  -- that the server reported, in seconds.
  abbrev pub mbps : ℕ → ℕ → Sample → Num
  mbps size count s =
      over
        (over (of_int (pos (8 * (size * count))))
          (minus (s_of_ns s.interval_ns) (s_of_us s.remote_us)))
        (of_int (pos (2 ^ 20)))

  -- The same time in milliseconds.
  abbrev pub spent_ms : Sample → Num
  spent_ms s = minus (ms_of_ns s.interval_ns) (ms_of_us s.remote_us)

  -- The mean and the deviation of `k` numbers.
  abbrev pub stats_line : (acc : Accumulators Num) → Bytes → acc.StatSet → ℕ → Bytes
  stats_line acc label stats k =
      label
      ++ (codes ": avg="
          ++ (written (acc.mean stats)
              ++ (codes " dev="
                  ++ (written (root (acc.variance stats)) ++ (codes " count=" ++ to_string k)))))

  -- The lines of a run whose operations, as many as were asked for, are good.
  pub record Reported (acc : Accumulators Num) (client server : Machine) (creator : ReqCreator)
      (size count k : ℕ) (f : Flags) (samples : List Sample) (lines : List Bytes) : Type 0 where
    pub enough : length samples ≡ k
    pub good : All (IsGood client server creator size count) samples
    pub shown :
        lines
        ≡ (codes "Transport=" ++ f.transport)
          ∷ sending_line f.workload size count k
          ∷ stats_line acc
              (codes "Throughput (Mbps)")
              (pushed acc (map (mbps size count) samples) acc.empty)
              k
          ∷ stats_line acc (codes "Latency (ms)") (pushed acc (map spent_ms samples) acc.empty) k
          ∷ codes "Test passed"
          ∷ []

module _ {Num : Type 0} (reals : Reals Num) (acc : Accumulators Num)
    (counting : IsCounting acc) where
  count-pushed :
      (value : Sample → Num) (samples : List Sample) (stats : acc.StatSet)
      → acc.count (pushed acc (map value samples) stats) ≡ length samples + acc.count stats
  count-pushed value [] stats = omega arith
  count-pushed value (s ∷ samples) stats =
      let rest = count-pushed value samples (acc.push (value s) stats) in
      let one = counting.one_more (value s) stats in omega arith

  count-all :
      (value : Sample → Num) (samples : List Sample)
      → acc.count (pushed acc (map value samples) acc.empty) ≡ length samples
  count-all value samples =
      let all = count-pushed value samples acc.empty in let start = counting.none_yet in omega arith

  accumulate-pushed :
      (value number : Sample → Num) (samples : List Sample) (stats : acc.StatSet)
      → All (λ s. value s ≡ number s) samples
      → accumulate reals acc value samples stats ≡ pushed acc (map number samples) stats
  unfolding accumulate
  accumulate-pushed value number [] stats h = refl
  accumulate-pushed value number (s ∷ samples) stats (e, h) =
      rw e (accumulate-pushed value number samples (acc.push (number s) stats) h)

  throughput-mbps :
      (client server : Machine) (creator : ReqCreator) (size count : ℕ) (samples : List Sample)
      → All (IsGood client server creator size count) samples
      → All (λ s. throughput reals acc s ≡ mbps reals size count s) samples
  throughput-mbps client server creator size count [] good = tt
  throughput-mbps client server creator size count (s ∷ samples) ((us, _, taken), good) =
      (rw taken.bits refl, throughput-mbps client server creator size count samples good)

  latency-spent_ms :
      (samples : List Sample) → All (λ s. latency_ms reals acc s ≡ spent_ms reals s) samples
  latency-spent_ms [] = tt
  latency-spent_ms (s ∷ samples) = (refl, latency-spent_ms samples)

  client_lines-Reported :
      (client server : Machine) (enable : Bool) (f : Flags) {kind : TransportKind}
      (creator : ReqCreator) (size count k : ℕ) (out : Outcome)
      → f.sodium_fails ≡ false
      → f.sizes ≡ record { block_size = pos size; block_count = pos count; op_count = pos k }
      → select_transport enable f.transport ≡ some kind
      → select_workload f.workload ≡ some (creator, validator_of creator)
      → length out.1 ≡ k
      → All (IsGood client server creator size count) out.1
      → Reported reals acc client server creator size count k f out.1
          (client_lines reals acc enable f out)
  unfolding client_lines
  client_lines-Reported client server enable f creator size count k out sodium sizes transport
        workload enough good =
      let ops : f.sizes.op_count ≡ pos k = ap (λ x. x.op_count) sizes in
      let blocks : f.sizes.block_count ≡ pos count = ap (λ x. x.block_count) sizes in
      let block : f.sizes.block_size ≡ pos size = ap (λ x. x.block_size) sizes in
      record {
        enough = enough;
        good = good;
        shown = rw (
          sodium,
          transport,
          workload,
          accumulate-pushed (throughput reals acc) (mbps reals size count) out.1 acc.empty
              (throughput-mbps client server creator size count out.1 good),
          accumulate-pushed (latency_ms reals acc) (spent_ms reals) out.1 acc.empty
              (latency-spent_ms out.1),
          ops,
          blocks,
          block,
          count-all (mbps reals size count) out.1 ∙ enough,
          count-all (spent_ms reals) out.1 ∙ enough,
        );
      }

  -- For accumulators that count what they are given, and where rt_client ends with status 0 by the
  -- conditions on codecs, machines, sizes, flags and the network: it has as many samples as
  -- operations, each with the client's interval, the time that the server reported and the bits of
  -- the payload; and it writes the transport; the workload with the numbers of operations and of
  -- blocks and the size; the mean and the deviation of the throughputs, each the bits of the
  -- payload over the interval less the reported time in seconds, over 2^20; those of the latencies,
  -- each the interval less the reported time in milliseconds; both of the samples in order and with
  -- the number of operations as the count; and `Test passed`.
  pub rt_client-Reported :
      (codec : Codec) (lawful : IsCodec codec) (client server : Machine) (draws : IsMachine client)
      (net : Network) (enable_flatbuffers : Bool) (address : Bytes) (port : ℤ) (f : Flags)
      (kind : TransportKind) (creator : ReqCreator) (size count k : ℕ) (w : World)
      → IsMachine server
      → IsSmall size count
      → f.sodium_fails ≡ false
      → f.sizes ≡ record { block_size = pos size; block_count = pos count; op_count = pos k }
      → select_transport enable_flatbuffers f.transport ≡ some kind
      → select_workload f.workload ≡ some (creator, validator_of creator)
      → IsServed server net address (to_uint16 port) (rt_class codec server) kind
      → Yields
          (λ out w'.
            Reported reals acc client server creator size count k f out.1
              (client_lines reals acc enable_flatbuffers f out))
          (rt_client codec client net enable_flatbuffers address port f w)
  rt_client-Reported codec lawful client server draws net enable address port f kind creator size
        count k w m small sodium sizes transport workload served =
      Yields.weaken
        (rt_client-IsGood codec lawful client server draws net enable address port f kind creator
          size count k w m small sodium sizes transport workload served)
        λ out w' (_, enough, good, _).
          client_lines-Reported client server enable f creator size count k out sodium sizes
            transport workload enough good
