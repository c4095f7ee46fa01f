-- ===== src/Memory/Yields.antt =====
-- Total correctness of a command: it ends with a value, and the value and the memory are as stated.
use mathlib.Core.Path.{◌≡◌, refl}
use rpc_transport_tests.Memory.{World, Run, ok, throw, abort, fault, Cmd, resume, or_abort}

pub data Yields {A : Type 0} (P : A → World → Type 0) : Run A → Type 0 where
  yields : {a : A} {w : World} → P a w → Yields P (ok a w)

module _ {A : Type 0} {P : A → World → Type 0} where
  pub then_do :
      {B : Type 0} {Q : B → World → Type 0} {r : Run A} {k : A → Cmd B}
      → Yields P r
      → ((a : A) (w : World) → P a w → Yields Q (k a w))
      → Yields Q (resume r k)
  then_do (yields p) rest = rest _ _ p

  pub weaken :
      {Q : A → World → Type 0} {r : Run A}
      → Yields P r
      → ((a : A) (w : World) → P a w → Q a w)
      → Yields Q r
  weaken (yields p) more = yields (more _ _ p)

  -- The value and the memory at the end.
  pub ended : {r : Run A} → Yields P r → (a : A) × (w : World) × (r ≡ ok a w) × P a w
  ended (yields p) = (_, _, refl, p)

  pub at_end : {r : Run A} {a : A} {w : World} → Yields P r → r ≡ ok a w → P a w
  at_end {a = a} {w = w} y e =
      let (b, u, ran, p) = ended y in
      let value : b ≡ a = cc (ran, e) in let memory : u ≡ w = cc (ran, e) in rw (value, memory) at p

  -- A handler that aborts on exceptions meets none.
  pub uncaught : {r : Run A} → Yields P r → Yields P (or_abort r)
  uncaught (yields p) = yields p

-- A sequence that ends with a value is two commands that do.
pub resume-ok :
    {A B : Type 0} (r : Run A) (k : A → Cmd B) (b : B) (w : World)
    → resume r k ≡ ok b w
    → (a : A) × (u : World) × (r ≡ ok a u) × (k a u ≡ ok b w)
resume-ok (ok a u) k b w h = (a, u, refl, h)
resume-ok (throw e u) k b w h = cc
resume-ok abort k b w h = cc
resume-ok fault k b w h = cc
