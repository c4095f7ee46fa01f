-- ===== src/Transports/Grpc/Sessions/Isolation.antt =====
-- What the calls of ReqReply that run at a time have to do with each other.
use rpc_transport_tests.Prelude.{
  ℕ, ◌==◌, ==_iff, ◌≡◌, ◌≢◌, refl, sym, inl, inr, Bool-cases, some, arith,
}
use mathlib.Core.Option.{some-injective}
use mathlib.Core.Path.{subst}
use rpc_transport_tests.Memory.{World, Run, Cmd, ok}
use rpc_transport_tests.Memory.Yields
use rpc_transport_tests.Memory.Yields.{Yields, yields}
use rpc_transport_tests.Machine.{Machine}
use rpc_transport_tests.Transport.{ServerClass}
use rpc_transport_tests.Transport.Contracts.{Service, Offers}
use rpc_transport_tests.Transport.Views.{Holds}
use rpc_transport_tests.Transports.Grpc.Sessions.{
  Handler, entered, Handlers, put, Due, Turn, enter, go, Reach, started, next,
}
use rpc_transport_tests.Transports.Grpc.Sessions.Ownership.{
  Owner, extend, Held, Held-other, no_buffers-Held,
}
use rpc_transport_tests.Transports.Grpc.Sessions.Turns.{Fits, Fits-map, Fits-Holds, Goes, Due-Goes}

-- Every call fits its phase, and there is an owner for each string.
abbrev pub IsIsolated : Service → Handlers → Type 0
IsIsolated s t =
    (o : Owner) × ((i : ℕ) (x : Handler) → t.at i ≡ some x → Fits s (Held o i t.memory) x x.phase)

-- The call with a new state fits, and so do the others in the new memory.
put-IsIsolated :
    (s : Service) (t : Handlers) (i : ℕ) (o : Owner) {r : Run Handler} {x : Handler} {w : World}
    → Goes s o i t.memory r
    → r ≡ ok x w
    → ((j : ℕ) (y : Handler) → t.at j ≡ some y → Fits s (Held o j t.memory) y y.phase)
    → IsIsolated s (put i x w t)
put-IsIsolated s t i o {r} {x} {w} goes ran all =
    let (spares, fits) = Yields.at_end goes ran in
    (
      extend o t.memory.count i,
      λ j y there. elim (Bool-cases (i == j)) [
        | inl e ↦
            let same : x ≡ y = some-injective x y (rw e at there) in
            let owned : Fits s (Held (extend o t.memory.count i) i w) y y.phase = rw same at fits in
            subst (λ k. Fits s (Held (extend o t.memory.count i) k w) y y.phase) ((==_iff i j).0 e)
              owned
        | inr e ↦
            Fits-map s y y.phase (Held-other (ground (arith, e)) spares) (all j y (rw e at there))
      ],
    )

Turn-IsIsolated :
    (env : Machine) (s : Service) (c : ServerClass) {t t' : Handlers}
    → Offers c s
    → Turn env s c t t'
    → IsIsolated s t
    → IsIsolated s t'
Turn-IsIsolated env s c {t} offers enter (o, all) = (
  o,
  λ j y there. elim (Bool-cases (t.count == j)) [
    | inl e ↦
        let same : entered ≡ y = some-injective entered y (rw e at there) in
        rw (sym same) (no_buffers-Held o j t.memory, refl, refl)
    | inr e ↦ all j y (rw e at there)
  ],
)
Turn-IsIsolated env s c {t} offers (go i {x} {run = run} there due ran) (o, all) =
    put-IsIsolated s t i o (Due-Goes env s c o i x t.memory offers due (all i x there)) ran all

pub Reach-IsIsolated :
    (env : Machine) (s : Service) (c : ServerClass) (w : World) (t : Handlers)
    → Offers c s
    → Reach env s c w t
    → IsIsolated s t
Reach-IsIsolated env s c w t offers started = (λ p. 0, λ j y there. absurd (cc there))
Reach-IsIsolated env s c w t offers (next {t = u} r turn) =
    Turn-IsIsolated env s c offers turn (Reach-IsIsolated env s c w u offers r)

-- Where calls of ReqReply run at a time, in every state of the gRPC server each call fits its
-- phase: while it reads, it holds just the strings that came for it and has written nothing; while
-- it writes, the service answers those strings, in some memory, and it holds the answer and has
-- written it up to its index; afterwards it has written all of it. What is due at a call of a
-- request that the service answers ends with a value, and then the call fits its phase again, and
-- so does every other one, though the strings of a call that returns are gone.
pub Turn-Fits :
    (env : Machine) (s : Service) (c : ServerClass) (w : World) (t : Handlers) (i j : ℕ)
    (x y : Handler) (run : Cmd Handler)
    → Offers c s
    → Reach env s c w t
    → t.at i ≡ some x
    → t.at j ≡ some y
    → i ≢ j
    → Due env s c t.memory x run
    → Fits s (Holds t.memory) x x.phase
      × Yields (λ x' w'. Fits s (Holds w') x' x'.phase × Fits s (Holds w') y y.phase) (run t.memory)
Turn-Fits env s c w t i j x y run offers r here there other due =
    let (o, all) = Reach-IsIsolated env s c w t offers r in
    (
      Fits-Holds s o i t.memory x x.phase (all i x here),
      Yields.weaken (Due-Goes env s c o i x t.memory offers due (all i x here))
          λ x' w' (spares, fits). (
            Fits-Holds s (extend o t.memory.count i) i w' x' x'.phase fits,
            Fits-Holds s (extend o t.memory.count i) j w' y y.phase
                (Fits-map s y y.phase (Held-other other spares) (all j y there)),
          ),
    )
