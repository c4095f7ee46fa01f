-- ===== src/Greeter/Liveness.antt =====
-- The progress of the asynchronous server's calls.
use rpc_transport_tests.Prelude.{
  set, ℕ, zero, suc, Bool-cases, ◌≡◌, ◌≢◌, ◌⊎◌, ◌<◌, inl, inr, refl, sym, none, some, [], leb,
  leb→le, arith,
}
use mathlib.Core.Path.{subst}
use rpc_transport_tests.Greeter.{
  process, CallData, awaiting, ServerImpl, proceed, proceed_status, Step, arrive, sent, handle,
  Reach,
}
use rpc_transport_tests.Greeter.Stages.{
  stepper, Stage, Stage-Same, Step-Stage, Step_grows, Step-Same,
}
use rpc_transport_tests.Greeter.Safety.{IsSound, Reach-IsSound}

-- Steps of the server, `n` of which are about the tag.
pub data Runs (tag : ℕ) : ℕ → ServerImpl → ServerImpl → Type 0 where
  rest : {s : ServerImpl} → Runs tag 0 s s
  own :
      {n : ℕ} {s s' s'' : ServerImpl} (st : Step s' s'')
      → stepper st ≡ tag
      → Runs tag n s s'
      → Runs tag (suc n) s s''
  other :
      {n : ℕ} {s s' s'' : ServerImpl} (st : Step s' s'')
      → stepper st ≢ tag
      → Runs tag n s s'
      → Runs tag n s s''

Runs-Stage :
    (tag : ℕ) {n : ℕ} {s s' : ServerImpl}
    → Runs tag n s s'
    → tag < s.count
    → Stage tag s 0
    → (tag < s'.count) × Stage tag s' n
Runs-Stage tag rest old stage = (old, stage)
Runs-Stage tag (own {n} {s} {s'} {s''} st e run) old stage =
    let (old', stage') = Runs-Stage tag run old stage in
    (
      omega (arith, old', Step_grows st),
      subst (λ t. Stage t s'' (suc n)) e
          (Step-Stage st n (rw (sym e) at old') (subst (λ t. Stage t s' n) (sym e) stage')),
    )
Runs-Stage tag (other {n} {s} {s'} {s''} st ne run) old stage =
    let (old', stage') = Runs-Stage tag run old stage in
    let same = Step-Same st tag ne old' in (same.2, Stage-Same s' s'' tag n same stage')

-- A call that is not deleted can take a step.
Stage-step :
    (s : ServerImpl) (tag k : ℕ)
    → Stage tag s k
    → (k ≡ 4) ⊎ ((s' : ServerImpl) × (st : Step s s') × (stepper st ≡ tag))
unfolding proceed
Stage-step s tag zero (c, here, status, waits) = inr (_, arrive tag c [] here waits, refl)
Stage-step s tag (suc zero) (c, here, status, waits) =
    let live : proceed tag (record s { pending = set s.pending tag none })
        ≡ some (proceed_status c.status tag c (record s { pending = set s.pending tag none })) =
      rw here refl in
    inr (_, handle tag waits live, refl)
Stage-step s tag (suc (suc zero)) (c, here, status, m, waits) = inr (_, sent tag waits, refl)
Stage-step s tag (suc (suc (suc zero))) (c, here, status, m, waits) =
    let live : proceed tag (record s { pending = set s.pending tag none })
        ≡ some (proceed_status c.status tag c (record s { pending = set s.pending tag none })) =
      rw here refl in
    inr (_, handle tag waits live, refl)
Stage-step s tag (suc (suc (suc (suc zero)))) h = inl refl
Stage-step s tag (suc (suc (suc (suc (suc n))))) h = absurd h

live_tag :
    (s : ServerImpl) (tag : ℕ) (c : CallData) → IsSound s → s.calls tag ≡ some c → tag < s.count
live_tag s tag c sound here = elim (Bool-cases (leb s.count tag)) [
  | inl e ↦ absurd (cc (here, sound.fresh tag (leb→le s.count tag e)))
  | inr e ↦ ground (arith, e)
]

-- From a state that the asynchronous server reaches, with a call that waits for a request: after
-- any steps of the server of which n are about that call, the call is at stage n of waiting, having
-- its request, sending the reply `Hello` and the name, having sent it, and being deleted; and until
-- it is deleted some step about it can be taken.
pub Reach-Runs :
    (s s' : ServerImpl) (tag n : ℕ) (c : CallData)
    → Reach s
    → s.calls tag ≡ some c
    → s.pending tag ≡ some awaiting
    → Runs tag n s s'
    → Stage tag s' n × ((n ≡ 4) ⊎ ((s'' : ServerImpl) × (st : Step s' s'') × (stepper st ≡ tag)))
Reach-Runs s s' tag n c r here waits run =
    let sound = Reach-IsSound r in
    let status : c.status ≡ process = rw (here, waits) at (sound.agree tag) in
    let old : tag < s.count = live_tag s tag c sound here in
    let (_, stage) = Runs-Stage tag run old (c, here, status, waits) in
    (stage, Stage-step s' tag n stage)
