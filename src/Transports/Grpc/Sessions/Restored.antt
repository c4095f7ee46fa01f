-- ===== src/Transports/Grpc/Sessions/Restored.antt =====
-- The memory of a gRPC server whose calls have returned.
use mathlib.Core.Option.{some-injective}
use mathlib.Core.Path.{subst}
use rpc_transport_tests.Prelude.{
  set, ℕ, suc, ◌≤◌, ◌<◌, ◌==◌, ==_iff, ==_refl, ◌≡◌, ◌∙◌, refl, sym, ◌⊎◌, inl, inr, Bool-cases,
  true, none, some, All, arith,
}
use rpc_transport_tests.Memory.{Ptr, World}
use rpc_transport_tests.Memory.Yields
use rpc_transport_tests.Memory.Yields.{Yields}
use rpc_transport_tests.Machine.{Machine}
use rpc_transport_tests.Transport.{ServerClass}
use rpc_transport_tests.Transport.Contracts.{Service, Offers}
use rpc_transport_tests.Transports.Restores.{Restores}
use rpc_transport_tests.Transports.Grpc.Sessions.{
  returned, Handler, entered, Handlers, put, enter, go, Reach, started, next,
}
use rpc_transport_tests.Transports.Grpc.Sessions.Turns.{Fits-Holds}
use rpc_transport_tests.Transports.Grpc.Sessions.Isolation.{Reach-IsIsolated}
use rpc_transport_tests.Transports.Grpc.Sessions.Leaks.{has, strings, Tidy, Due-Tidy}

-- Since `v` nothing that was there has changed, and what is live behind it belongs to some call.
record IsClean (v : World) (t : Handlers) : Type 0 where
  fresh : (j : ℕ) → t.count ≤ j → t.at j ≡ none
  grows : v.count ≤ t.memory.count
  old : (p : Ptr) → p ≤ v.count → t.memory.cell p ≡ v.cell p
  young : (i : ℕ) (x : Handler) → t.at i ≡ some x → All (λ p. v.count < p) (strings x)
  live :
      (p : Ptr)
      → v.count < p
      → p ≤ t.memory.count
      → (t.memory.cell p ≡ none)
        ⊎ ((i : ℕ) × (x : Handler) × (t.at i ≡ some x) × (has p (strings x) ≡ true))

enter-IsClean :
    (v : World) (t : Handlers)
    → IsClean v t
    → IsClean v (record t { at = set t.at t.count (some entered); count = suc t.count })
enter-IsClean v t c = record {
  fresh = λ j le. elim (Bool-cases (t.count == j)) [
    | inl e ↦ absurd (ground (arith, le, e))
    | inr e ↦ rw e (c.fresh j (omega (arith, le)))
  ];
  grows = c.grows;
  old = c.old;
  young = λ j y there. elim (Bool-cases (t.count == j)) [
    | inl e ↦ let same : entered ≡ y = some-injective entered y (rw e at there) in rw (sym same) tt
    | inr e ↦ c.young j y (rw e at there)
  ];
  live = λ p lt le. elim (c.live p lt le) [
    | inl gone ↦ inl gone
    | inr (j, y, there, h) ↦ elim (Bool-cases (t.count == j)) [
      | inl e ↦ absurd (cc (c.fresh j (ground (arith, e)), there))
      | inr e ↦ inr (j, y, rw e there, h)
    ]
  ];
}

put-IsClean :
    (v : World) (t : Handlers) (i : ℕ) (x x' : Handler) (w : World)
    → t.at i ≡ some x
    → Tidy v.count x t.memory x' w
    → IsClean v t
    → IsClean v (put i x' w t)
put-IsClean v t i x x' w here tidy c = record {
  fresh = λ j le. elim (Bool-cases (i == j)) [
    | inl e ↦ absurd (cc (c.fresh i (ground (arith, le, e)), here))
    | inr e ↦ rw e (c.fresh j le)
  ];
  grows = omega (arith, c.grows, tidy.grows);
  old = λ p le. tidy.old p le ∙ c.old p le;
  young = λ j y there. elim (Bool-cases (i == j)) [
    | inl e ↦ let same : x' ≡ y = some-injective x' y (rw e at there) in rw same at tidy.young
    | inr e ↦ c.young j y (rw e at there)
  ];
  live = λ p lt le. elim (tidy.live p le) [
    | inl gone ↦ inl gone
    | inr (inl h) ↦ inr (i, x', rw (==_refl i) refl, h)
    | inr (inr (le', same, keep)) ↦ elim (c.live p lt le') [
      | inl gone ↦ inl (same ∙ gone)
      | inr (j, y, there, h) ↦ elim (Bool-cases (i == j)) [
        | inl e ↦
            let same : x ≡ y = some-injective x y (cc (here, there, (==_iff i j).0 e)) in
            inr (
              i,
              x',
              rw (==_refl i) refl,
              keep (subst (λ z. has p (strings z) ≡ true) (sym same) h),
            )
        | inr e ↦ inr (j, y, rw e there, h)
      ]
    ]
  ];
}

Reach-IsClean :
    (env : Machine) (s : Service) (c : ServerClass) (v : World) (t : Handlers)
    → Offers c s
    → Reach env s c v t
    → IsClean v t
Reach-IsClean env s c v t offers started = record {
  fresh = λ j le. refl;
  grows = omega arith;
  old = λ p le. refl;
  young = λ i x there. absurd (cc there);
  live = λ p lt le. absurd (omega (arith, lt, le));
}
Reach-IsClean env s c v t offers (next {t = u} r enter) =
    enter-IsClean v u (Reach-IsClean env s c v u offers r)
Reach-IsClean env s c v t offers (next {t = u} r (go i {x} {x'} {w} here due ran)) =
    let (o, all) = Reach-IsIsolated env s c v u offers r in
    let clean = Reach-IsClean env s c v u offers r in
    let fits = Fits-Holds s o i u.memory x x.phase (all i x here) in
    put-IsClean v u i x x' w here
      (Yields.at_end
        (Due-Tidy env s c x v.count u.memory clean.grows (clean.young i x here) offers due fits)
        ran)
      clean

-- Once every call of ReqReply that came in has returned, in whatever order their turns were taken,
-- the gRPC server's memory is as it was in front of the first: every object that was there is
-- unchanged, and no string that was made is left.
pub Reach-Restores :
    (env : Machine) (s : Service) (c : ServerClass) (v : World) (t : Handlers)
    → Offers c s
    → Reach env s c v t
    → ((i : ℕ) (x : Handler) → t.at i ≡ some x → x.phase ≡ returned)
    → Restores v t.memory
Reach-Restores env s c v t offers r over =
    let (o, all) = Reach-IsIsolated env s c v t offers r in
    let clean = Reach-IsClean env s c v t offers r in
    record {
      grows = clean.grows;
      same = clean.old;
      released = λ p lt le. elim (clean.live p lt le) [
        | inl gone ↦ gone
        | inr (i, x, here, h) ↦
            let (_, _, _, _, came, sent) = rw (over i x here) at (all i x here) in
            absurd (cc (rw (came, sent) at h))
      ];
    }
