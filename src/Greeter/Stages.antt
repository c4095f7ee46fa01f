-- ===== src/Greeter/Stages.antt =====
-- The stages of the asynchronous server's calls, and what the steps do to them.
use rpc_transport_tests.Prelude.{
  set, ==_refl, ==_false, ℕ, zero, suc, Option-cases, ◌≡◌, ◌≢◌, ◌<◌, ◌≤◌, inl, inr, refl, sym, none,
  some, arith, codes, ◌++◌,
}
use rpc_transport_tests.Memory.{Bytes}
use rpc_transport_tests.Greeter.{
  create, process, finish, CallStatus, CallData, awaiting, event, finishing, ServerImpl, proceed,
  proceed_status, proceed_create, start_call, Step, arrive, sent, handle,
}

-- The tag that a step is about.
abbrev pub stepper : {s s' : ServerImpl} → Step s s' → ℕ
stepper (arrive tag c name here waits) = tag
stepper (sent tag waits) = tag
stepper (handle tag waits ran) = tag

-- What is found at a tag: the call waits, has its request, sends its reply, has sent it, is deleted.
abbrev pub Stage : ℕ → ServerImpl → ℕ → Type 0
Stage tag s zero =
    (c : CallData) × (s.calls tag ≡ some c) × (c.status ≡ process) × (s.pending tag ≡ some awaiting)
Stage tag s (suc zero) =
    (c : CallData) × (s.calls tag ≡ some c) × (c.status ≡ process) × (s.pending tag ≡ some event)
Stage tag s (suc (suc zero)) =
    (c : CallData) × (s.calls tag ≡ some c)
    × (c.status ≡ finish)
    × (c.message ≡ codes "Hello " ++ c.name)
    × (s.pending tag ≡ some finishing)
Stage tag s (suc (suc (suc zero))) =
    (c : CallData) × (s.calls tag ≡ some c)
    × (c.status ≡ finish)
    × (c.message ≡ codes "Hello " ++ c.name)
    × (s.pending tag ≡ some event)
Stage tag s (suc (suc (suc (suc zero)))) = (s.calls tag ≡ none) × (s.pending tag ≡ none)
Stage tag s (suc (suc (suc (suc (suc n))))) = ⊥

arrive-Stage :
    (s : ServerImpl) (tag : ℕ) (c : CallData) (name : Bytes) (k : ℕ)
    → s.calls tag ≡ some c
    → s.pending tag ≡ some awaiting
    → Stage tag s k
    → Stage tag
        (record s {
          calls = set s.calls tag (some (record c { name = name }));
          pending = set s.pending tag (some event);
        })
        (suc k)
arrive-Stage s tag c name zero here waits (d, at, status, _) =
    (record c { name = name }, rw (==_refl tag) refl, cc, rw (==_refl tag) refl)
arrive-Stage s tag c name (suc zero) here waits (d, at, status, w) = absurd (cc (w, waits))
arrive-Stage s tag c name (suc (suc zero)) here waits (d, at, status, m, w) = absurd (cc (w, waits))
arrive-Stage s tag c name (suc (suc (suc zero))) here waits (d, at, status, m, w) =
    absurd (cc (w, waits))
arrive-Stage s tag c name (suc (suc (suc (suc zero)))) here waits (gone, w) = absurd (cc (w, waits))
arrive-Stage s tag c name (suc (suc (suc (suc (suc n))))) here waits h = absurd h

sent-Stage :
    (s : ServerImpl) (tag k : ℕ)
    → s.pending tag ≡ some finishing
    → Stage tag s k
    → Stage tag (record s { pending = set s.pending tag (some event) }) (suc k)
sent-Stage s tag zero waits (d, at, status, w) = absurd (cc (w, waits))
sent-Stage s tag (suc zero) waits (d, at, status, w) = absurd (cc (w, waits))
sent-Stage s tag (suc (suc zero)) waits (d, at, status, m, w) =
    (d, at, status, m, rw (==_refl tag) refl)
sent-Stage s tag (suc (suc (suc zero))) waits (d, at, status, m, w) = absurd (cc (w, waits))
sent-Stage s tag (suc (suc (suc (suc zero)))) waits (gone, w) = absurd (cc (w, waits))
sent-Stage s tag (suc (suc (suc (suc (suc n))))) waits h = absurd h

-- What the loop does for a call that is there.
proceed_found :
    (s s' : ServerImpl) (tag : ℕ) (c : CallData) (status : CallStatus)
    → s.calls tag ≡ some c
    → c.status ≡ status
    → proceed tag s ≡ some s'
    → proceed_status status tag c s ≡ s'
unfolding proceed
proceed_found s s' tag c status here is ran =
    let found : some (proceed_status c.status tag c s) ≡ some s' = rw here at ran in
    rw (sym is) (cc found)

proceed_not_found : (s s' : ServerImpl) (tag : ℕ) → s.calls tag ≡ none → proceed tag s ≢ some s'
unfolding proceed
proceed_not_found s s' tag gone ran =
    let found : none ≡ some s' = rw gone at ran in absurd (cc found)

handle-Stage :
    (s s' : ServerImpl) (tag k : ℕ)
    → tag < s.count
    → s.pending tag ≡ some event
    → proceed tag (record s { pending = set s.pending tag none }) ≡ some s'
    → Stage tag s k
    → Stage tag s' (suc k)
unfolding proceed_status start_call proceed_create
handle-Stage s s' tag zero old waits ran (c, at, status, w) = absurd (cc (w, waits))
handle-Stage s s' tag (suc zero) old waits ran (c, at, status, w) =
    rw (sym (proceed_found _ s' tag c _ at status ran)) (
      record { status = finish; name = c.name; message = codes "Hello " ++ c.name },
      rw (==_refl tag) refl,
      refl,
      refl,
      rw (==_refl tag) refl,
    )
handle-Stage s s' tag (suc (suc zero)) old waits ran (c, at, status, m, w) = absurd (cc (w, waits))
handle-Stage s s' tag (suc (suc (suc zero))) old waits ran (c, at, status, m, w) =
    rw (sym (proceed_found _ s' tag c _ at status ran))
      (rw (==_refl tag) refl, rw (==_refl tag) refl)
handle-Stage s s' tag (suc (suc (suc (suc zero)))) old waits ran (gone, w) = absurd (cc (w, waits))
handle-Stage s s' tag (suc (suc (suc (suc (suc n))))) old waits ran h = absurd h

-- The same call, and the same of it at the runtime, in two states.
abbrev Same : ℕ → ServerImpl → ServerImpl → Type 0
Same tag s s' = (s'.calls tag ≡ s.calls tag) × (s'.pending tag ≡ s.pending tag) × (tag < s'.count)

proceed_status-Same :
    (s : ServerImpl) (status : CallStatus) (t tag : ℕ) (c : CallData)
    → t ≢ tag
    → tag < s.count
    → Same tag s (proceed_status status t c (record s { pending = set s.pending t none }))
unfolding proceed_status start_call proceed_create
proceed_status-Same s create t tag c ne old = rw (==_false t tag ne) (refl, refl, old)
proceed_status-Same s process t tag c ne old =
    rw (==_false t tag ne, ==_false s.count tag (omega (arith, old)))
      (refl, refl, omega (arith, old))
proceed_status-Same s finish t tag c ne old = rw (==_false t tag ne) (refl, refl, old)

pub Step-Same :
    {s s' : ServerImpl} (st : Step s s') (tag : ℕ)
    → stepper st ≢ tag
    → tag < s.count
    → Same tag s s'
Step-Same (arrive t c name here waits) tag ne old = rw (==_false t tag ne) (refl, refl, old)
Step-Same (sent t waits) tag ne old = rw (==_false t tag ne) (refl, refl, old)
Step-Same (handle {s} {s'} t waits ran) tag ne old = elim (Option-cases (s.calls t)) [
  | inl gone ↦ absurd (proceed_not_found _ s' t gone ran)
  | inr (c, here) ↦
      rw (proceed_found _ s' t c c.status here refl ran) at
        (proceed_status-Same s c.status t tag c ne old)
]

pub Stage-Same : (s s' : ServerImpl) (tag k : ℕ) → Same tag s s' → Stage tag s k → Stage tag s' k
Stage-Same s s' tag zero (c, p, n) stage = rw (c, p) stage
Stage-Same s s' tag (suc zero) (c, p, n) stage = rw (c, p) stage
Stage-Same s s' tag (suc (suc zero)) (c, p, n) stage = rw (c, p) stage
Stage-Same s s' tag (suc (suc (suc zero))) (c, p, n) stage = rw (c, p) stage
Stage-Same s s' tag (suc (suc (suc (suc zero)))) (c, p, n) stage = rw (c, p) stage
Stage-Same s s' tag (suc (suc (suc (suc (suc n))))) same stage = stage

-- A step takes the call that it is about to the next stage.
pub Step-Stage :
    {s s' : ServerImpl} (st : Step s s') (k : ℕ)
    → stepper st < s.count
    → Stage (stepper st) s k
    → Stage (stepper st) s' (suc k)
Step-Stage (arrive {s} t c name here waits) k old stage = arrive-Stage s t c name k here waits stage
Step-Stage (sent {s} t waits) k old stage = sent-Stage s t k waits stage
Step-Stage (handle {s} {s'} t waits ran) k old stage = handle-Stage s s' t k old waits ran stage

proceed_status_grows :
    (s : ServerImpl) (status : CallStatus) (t : ℕ) (c : CallData)
    → s.count ≤ (proceed_status status t c s).count
unfolding proceed_status start_call proceed_create
proceed_status_grows s create t c = omega arith
proceed_status_grows s process t c = omega arith
proceed_status_grows s finish t c = omega arith

pub Step_grows : {s s' : ServerImpl} → Step s s' → s.count ≤ s'.count
Step_grows (arrive t c name here waits) = omega arith
Step_grows (sent t waits) = omega arith
Step_grows (handle {s} {s'} t waits ran) = elim (Option-cases (s.calls t)) [
  | inl gone ↦ absurd (proceed_not_found _ s' t gone ran)
  | inr (c, here) ↦
      rw (proceed_found _ s' t c c.status here refl ran) at
        (proceed_status_grows (record s { pending = set s.pending t none }) c.status t c)
]
