-- ===== src/Prelude/Maps.antt =====
-- Maps from native numbers, as functions.
use Prim.Native.Nat.{ℕ}
use mathlib.Core.Path.{◌≡◌, refl}
use mathlib.Core.Logic.{◌≢◌, inl, inr}
use mathlib.Core.Bool.{true, false}
use mathlib.Core.Option.{Option}
use rpc_transport_tests.Prelude.Tests.{◌==◌, if◌then◌else◌, ==_iff, Bool-cases}

abbrev pub set {ℓ} : {A : Type ℓ} → (ℕ → Option A) → ℕ → Option A → ℕ → Option A
set f i v j = if i == j then v else f j

pub ==_refl : (i : ℕ) → (i == i) ≡ true
==_refl i = (==_iff i i).1 refl

pub ==_false : (i j : ℕ) → i ≢ j → (i == j) ≡ false
==_false i j h = elim (Bool-cases (i == j)) [ inl e ↦ absurd (h ((==_iff i j).0 e)) | inr e ↦ e ]
