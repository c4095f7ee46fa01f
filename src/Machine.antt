-- ===== src/Machine.antt =====
-- What a process takes from its machine: libsodium's random bytes, the steady clock, and how much it
-- is asked to log.
use mathlib.Core.Path.{fun_ext}
use rpc_transport_tests.Prelude.{
  ℕ, zero, suc, ◌<◌, ◌^◌, ◌≡◌, refl, Bool, true, false, Bool-cases, inl, inr, if◌then◌else◌, List,
  [], ◌∷◌, length, All, arith,
}
use rpc_transport_tests.Prelude.Int.{ℤ, pos, negsuc}
use rpc_transport_tests.Memory.{Bytes, World, Cmd, ok, pure, raise, bad_alloc}

-- The bytes of the i-th call of `randombytes_buf`, by its length, and the length of the i-th
-- measured interval in nanoseconds: the steady clock does not go back. `verbose` is
-- `VLOG_IS_ON(rt::ll::STRING_MEM)`.
pub record Machine : Type 0 where
  pub random : ℕ → ℕ → Bytes
  pub elapsed : ℕ → ℕ
  pub verbose : Bool

pub record IsMachine (env : Machine) : Type 0 where
  pub length-random : (i n : ℕ) → length (env.random i n) ≡ n
  pub random_bytes : (i n : ℕ) → All (λ b. b < 256) (env.random i n)
  pub elapsed_bound : (i : ℕ) → env.elapsed i < 2 ^ 63

-- The same machine with no log lines.
abbrev pub unlogged : Machine → Machine
unlogged env = record env { verbose = false }

module _ (env : Machine) where
  -- `make_unique<uint8_t[]>(len)` and `randombytes_buf(buf.get(), len)`. A negative length
  -- becomes a huge `size_t`, which the allocation refuses.
  unfoldable pub random_block : ℤ → Cmd Bytes
  random_block (pos n) w = ok (env.random w.draws n) (record w { draws = suc w.draws })
  random_block (negsuc n) w = raise bad_alloc w

  -- `end - start` in nanoseconds, for the interval that ends now.
  unfoldable pub stop_clock : Cmd ℕ
  stop_clock w = ok (env.elapsed w.intervals) (record w { intervals = suc w.intervals })

  -- What `VLOG(rt::ll::STRING_MEM)` evaluates where it is on. What it writes is left out.
  abbrev pub when_verbose : Cmd (Unit {0}) → Cmd (Unit {0})
  when_verbose trace = if env.verbose then trace else pure tt

  -- A log line whose reads are defined changes nothing.
  pub when_verbose-ok :
      (trace : Cmd (Unit {0})) (w : World)
      → (env.verbose ≡ true → trace w ≡ ok tt w)
      → when_verbose trace w ≡ ok tt w
  when_verbose-ok trace w fine = elim (Bool-cases env.verbose) [
    | inl on ↦ rw on (fine on)
    | inr off ↦ rw off
  ]

  -- The blocks that the next calls of `randombytes_buf` give.
  abbrev pub drawn : ℕ → ℕ → ℕ → List Bytes
  drawn i n zero = []
  drawn i n (suc k) = env.random i n ∷ drawn (suc i) n k

  pub length-drawn : (i n k : ℕ) → length (drawn i n k) ≡ k
  length-drawn i n zero = refl
  length-drawn i n (suc k) = omega (arith, length-drawn (suc i) n k)

-- Randomness does not depend on the log lines.
pub random_block-unlogged : (env : Machine) → random_block env ≡ random_block (unlogged env)
unfolding random_block
random_block-unlogged env = fun_ext same
  where
    same : (n : ℤ) → random_block env n ≡ random_block (unlogged env) n
    same (pos n) = refl
    same (negsuc n) = refl
