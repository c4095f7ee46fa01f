-- ===== src/Client/Report.antt =====
-- What `main` of rt_client.cc computes from its samples, and the lines that it writes. The numbers
-- of type `double` with chrono's conversions, and Boost's accumulators, are parameters.
use rpc_transport_tests.Prelude.{
  ℕ, ◌+◌, ◌^◌, Bool, if◌then◌else◌, none, some, List, [], ◌∷◌, ◌++◌, codes,
}
use rpc_transport_tests.Prelude.Int.{ℤ, pos, negsuc}
use rpc_transport_tests.Prelude.Decimal.{to_string}
use rpc_transport_tests.Memory.{Bytes}
use rpc_transport_tests.Client.Run.{Sample}
use rpc_transport_tests.Client.Main.{Flags, Outcome, select_transport, select_workload}

-- `double`, with the seconds and the milliseconds of a number of nanoseconds or of microseconds, and
-- what a stream writes for a number.
pub record Reals (Num : Type 0) : Type 0 where
  pub of_int : ℤ → Num
  pub minus : Num → Num → Num
  pub over : Num → Num → Num
  pub root : Num → Num
  pub s_of_ns : ℕ → Num
  pub ms_of_ns : ℕ → Num
  pub s_of_us : ℤ → Num
  pub ms_of_us : ℤ → Num
  pub written : Num → Bytes

-- boost::accumulators: `StatSet`
pub record Accumulators (Num : Type 0) : Type 1 where
  pub StatSet : Type 0
  pub empty : StatSet
  pub push : Num → StatSet → StatSet
  pub mean : StatSet → Num
  pub variance : StatSet → Num
  pub count : StatSet → ℕ

-- An `int` that is written.
abbrev pub int_text : ℤ → Bytes
int_text (pos n) = to_string n
int_text (negsuc n) = codes "-" ++ to_string (n + 1)

module _ {Num : Type 0} (reals : Reals Num) (acc : Accumulators Num) where
  open reals use {of_int, minus, over, root, s_of_ns, ms_of_ns, s_of_us, ms_of_us, written}
  open acc use {StatSet, empty, push, mean, variance, count}

  -- `deltaMs` behind the subtraction of `remoteTime`.
  abbrev pub latency_ms : Sample → Num
  latency_ms s = minus (ms_of_ns s.interval_ns) (ms_of_us s.remote_us)

  -- What is added to `tputAcc`.
  abbrev pub throughput : Sample → Num
  throughput s =
      over (over (of_int s.bits) (minus (s_of_ns s.interval_ns) (s_of_us s.remote_us)))
        (of_int (pos (2 ^ 20)))

  -- `latAcc` or `tputAcc`, with the samples that are left.
  unfoldable pub accumulate : (Sample → Num) → List Sample → StatSet → StatSet
  accumulate value [] stats = stats
  accumulate value (s ∷ ss) stats = accumulate value ss (push (value s) stats)

  -- `printStats`
  abbrev pub print_stats : Bytes → StatSet → Bytes
  print_stats label stats =
      label
      ++ (codes ": avg="
          ++ (written (mean stats)
              ++ (codes " dev="
                  ++ (written (root (variance stats))
                      ++ (codes " count=" ++ to_string (count stats))))))

  abbrev pub heading : Flags → List Bytes
  heading f =
      (codes "Transport=" ++ f.transport)
      ∷ (codes "Sending "
          ++ (int_text f.sizes.op_count
              ++ (codes " "
                  ++ (f.workload
                      ++ (codes " op(s), each for "
                          ++ (int_text f.sizes.block_count
                              ++ (codes " blocks of size "
                                  ++ (int_text f.sizes.block_size ++ codes " bytes"))))))))
      ∷ []

  abbrev pub report : List Sample → List Bytes
  report samples =
      print_stats (codes "Throughput (Mbps)") (accumulate throughput samples empty)
      ∷ print_stats (codes "Latency (ms)") (accumulate latency_ms samples empty)
      ∷ codes "Test passed"
      ∷ []

  -- The lines of a `main` that returns, on both streams.
  unfoldable pub client_lines : Bool → Flags → Outcome → List Bytes
  unfolding accumulate select_transport select_workload
  client_lines enable_flatbuffers f out =
      if f.sodium_fails then [] else elim (select_transport enable_flatbuffers f.transport) [
        | none ↦ (codes "Unknown transport: " ++ f.transport) ∷ []
        | some kind ↦ elim (select_workload f.workload) [
          | none ↦ (codes "Unknown workload: " ++ f.workload) ∷ []
          | some workload ↦ heading f ++ report out.1
        ]
      ]
