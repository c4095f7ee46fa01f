-- ===== src/Memory/Ints.antt =====
-- The rounds of the loops `for (auto i = 0; i < (blockCount + 1); ++i)`.
use rpc_transport_tests.Prelude.{ℕ, suc, ◌+◌, ◌*◌, ◌≤◌, ◌<◌, ◌^◌, ◌≡◌, arith}
use rpc_transport_tests.Prelude.Int.{pos, ◌+ℤ◌, *ℤ-pos}
use rpc_transport_tests.Memory.{World, ok, add_int, mul_int, fault}

pub count_rounds :
    (count : ℕ)
    → count + 1 < 2 ^ 31
    → (w : World) → add_int (pos count) (pos 1) w ≡ ok (pos (suc count)) w
unfolding add_int ◌+ℤ◌
count_rounds count h w = ground arith

-- A product of sizes that fits an `int`, and one that overflows.
pub mul_int-ok :
    (a b : ℕ) (w : World) → a * b < 2 ^ 31 → mul_int (pos a) (pos b) w ≡ ok (pos (a * b)) w
unfolding mul_int
mul_int-ok a b w h = rw (*ℤ-pos a b) (ground arith)

pub mul_int-fault : (a b : ℕ) (w : World) → 2 ^ 31 ≤ a * b → mul_int (pos a) (pos b) w ≡ fault
unfolding mul_int
mul_int-fault a b w h = rw (*ℤ-pos a b) (ground arith)
