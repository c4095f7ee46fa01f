-- ===== src/Prelude/Decimal.antt =====
-- `std::to_string` of an unsigned number.
use rpc_transport_tests.Prelude.Tests.{ltb, if◌then◌else◌, Bool-cases}
use rpc_transport_tests.Prelude.Lists.{All}
use Prim.Native.Nat.{ℕ, zero, suc, ◌+◌, ◌-◌, ◌*◌, ◌/◌, ◌%◌, ◌<◌, ◌≤◌}
use mathlib.Core.Path.{◌≡◌, ap, ◌∙◌}
use mathlib.Core.Bool.{false}
use mathlib.Core.Logic.{inl, inr}
use mathlib.Core.List.{List, [], ◌∷◌}
use native.Mathlib.Omega.{arith}

-- The digits in front of `acc`, with fuel: a number below the fuel has fewer digits.
digits : ℕ → ℕ → List ℕ → List ℕ
digits zero n acc = acc
digits (suc f) n acc =
    let rest = digits f (n / 10) ((b'0' + n % 10) ∷ acc) in
    if ltb n 10 then (b'0' + n) ∷ acc else rest

unfoldable pub to_string : ℕ → List ℕ
unfolding digits
to_string n = digits (suc n) n []

-- The number behind `v` that decimal digits go on with.
abbrev pub of_decimal : ℕ → List ℕ → ℕ
of_decimal v [] = v
of_decimal v (c ∷ cs) = of_decimal (v * 10 + (c - b'0')) cs

not_small : (n : ℕ) → ltb n 10 ≡ false → 10 ≤ n
not_small n h = ground arith

smaller : (n f : ℕ) → n < suc f → 10 ≤ n → n / 10 < f
smaller n f h large = omega (arith, h, large)

of_decimal-digits :
    (f n : ℕ) (acc : List ℕ) → n < f → of_decimal 0 (digits f n acc) ≡ of_decimal n acc
unfolding digits
of_decimal-digits zero n acc h = absurd (omega (arith, h))
of_decimal-digits (suc f) n acc h = elim (Bool-cases (ltb n 10)) [
  | inl small ↦ rw small (ap (λ v. of_decimal v acc) (omega arith))
  | inr large ↦ rw large (
      of_decimal-digits f (n / 10) _ (smaller n f h (not_small n large))
      ∙ ap (λ v. of_decimal v acc) (omega arith))
]

-- The decimals of a number, as they stand in addresses and error messages, read as the number.
pub of_decimal-to_string : (n : ℕ) → of_decimal 0 (to_string n) ≡ n
unfolding to_string
of_decimal-to_string n = of_decimal-digits (suc n) n [] (omega arith)

digits-All : (f n : ℕ) (acc : List ℕ) → All (λ c. 0 < c) acc → All (λ c. 0 < c) (digits f n acc)
unfolding digits
digits-All zero n acc h = h
digits-All (suc f) n acc h = elim (Bool-cases (ltb n 10)) [
  | inl small ↦ rw small (omega arith, h)
  | inr large ↦ rw large (digits-All f (n / 10) _ (omega arith, h))
]

-- No digit of a number is NUL.
pub to_string-All : (n : ℕ) → All (λ c. 0 < c) (to_string n)
unfolding to_string
to_string-All n = digits-All (suc n) n [] tt
