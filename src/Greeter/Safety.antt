-- ===== src/Greeter/Safety.antt =====
-- The lives of the asynchronous server's calls.
use rpc_transport_tests.Prelude.{
  set, ==_refl, ==_false, ℕ, Option-cases, ◌≤◌, ◌==◌, ◌≡◌, ◌≢◌, ◌⊎◌, inl, inr, refl, sym, Option,
  none, some, arith, Bool-cases, ==_iff,
}
use rpc_transport_tests.Memory.{Bytes}
use rpc_transport_tests.Greeter.{
  process, finish, CallData, Pending, awaiting, event, finishing, ServerImpl, new_call, proceed,
  proceed_status, proceed_create, start_call, initial_server, Step, arrive, sent, handle, Reach,
  started, next,
}

-- What the runtime holds for a tag fits the call at that address.
abbrev pub Agree : Option CallData → Option Pending → Type 0
Agree none none = Unit {0}
Agree (some c) (some awaiting) = c.status ≡ process
Agree (some c) (some event) = (c.status ≡ process) ⊎ (c.status ≡ finish)
Agree (some c) (some finishing) = c.status ≡ finish
Agree _ _ = ⊥

-- A call that waits for a request, or has one that is not handled yet.
abbrev pub IsAccepting : ServerImpl → Type 0
IsAccepting s = (tag : ℕ) × (c : CallData) × (s.calls tag ≡ some c) × (c.status ≡ process)

pub record IsSound (s : ServerImpl) : Type 0 where
  pub agree : (tag : ℕ) → Agree (s.calls tag) (s.pending tag)
  pub fresh : (tag : ℕ) → s.count ≤ tag → s.calls tag ≡ none
  pub accepting : IsAccepting s

Agree-set :
    (calls : ℕ → Option CallData) (pending : ℕ → Option Pending) (tag : ℕ) (o : Option CallData)
    (p : Option Pending)
    → ((t : ℕ) → Agree (calls t) (pending t))
    → Agree o p
    → (t : ℕ) → Agree (set calls tag o t) (set pending tag p t)
Agree-set calls pending tag o p all h t = elim (Bool-cases (tag == t)) [
  | inl e ↦ rw e h
  | inr e ↦ rw e (all t)
]

Agree-set_pending :
    (calls : ℕ → Option CallData) (pending : ℕ → Option Pending) (tag : ℕ) (p : Option Pending)
    → ((t : ℕ) → Agree (calls t) (pending t))
    → Agree (calls tag) p
    → (t : ℕ) → Agree (calls t) (set pending tag p t)
Agree-set_pending calls pending tag p all h t = elim (Bool-cases (tag == t)) [
  | inl e ↦ rw (e, sym ((==_iff tag t).0 e)) h
  | inr e ↦ rw e (all t)
]

-- A call at an address that was handed out is not among the fresh ones.
live_tag :
    (s : ServerImpl) (tag t : ℕ) (c : CallData)
    → IsSound s
    → s.calls tag ≡ some c
    → s.count ≤ t
    → tag ≢ t
live_tag s tag t c sound here h same = cc (same, here, sound.fresh t h)

initial_server-IsSound : IsSound initial_server
unfolding initial_server start_call proceed_create
initial_server-IsSound = record {
  agree = λ t. elim (Bool-cases (0 == t)) [ inl e ↦ rw e refl | inr e ↦ rw e tt ];
  fresh = λ t h. rw (==_false 0 t (omega (arith, h)));
  accepting = (0, _, refl, refl);
}

arrive-IsSound :
    (s : ServerImpl) (tag : ℕ) (c : CallData) (name : Bytes)
    → IsSound s
    → s.calls tag ≡ some c
    → s.pending tag ≡ some awaiting
    → IsSound (record s {
      calls = set s.calls tag (some (record c { name = name }));
      pending = set s.pending tag (some event);
    })
arrive-IsSound s tag c name sound here waits =
    let status : c.status ≡ process = rw (here, waits) at (sound.agree tag) in
    record {
      agree = Agree-set s.calls s.pending tag _ _ sound.agree (inl status);
      fresh = λ t h. rw (==_false tag t (live_tag s tag t c sound here h)) (sound.fresh t h);
      accepting = (tag, record c { name = name }, rw (==_refl tag), status);
    }

event_of_finishing : (o : Option CallData) → Agree o (some finishing) → Agree o (some event)
event_of_finishing none h = h
event_of_finishing (some c) h = inr h

sent-IsSound :
    (s : ServerImpl) (tag : ℕ)
    → IsSound s
    → s.pending tag ≡ some finishing
    → IsSound (record s { pending = set s.pending tag (some event) })
sent-IsSound s tag sound waits = record {
  agree =
      Agree-set_pending s.calls s.pending tag (some event) sound.agree
        (event_of_finishing (s.calls tag) (rw waits at (sound.agree tag)));
  fresh = sound.fresh;
  accepting = sound.accepting;
}

process-IsSound :
    (s : ServerImpl) (tag : ℕ) (c : CallData)
    → IsSound s
    → s.calls tag ≡ some c
    → IsSound (proceed_status process tag c (record s { pending = set s.pending tag none }))
unfolding proceed_status start_call proceed_create
process-IsSound s tag c sound here = record {
  agree = λ t. elim (Bool-cases (tag == t)) [
    | inl e ↦ rw e refl
    | inr e ↦ elim (Bool-cases (s.count == t)) [
      | inl d ↦ rw (e, d) refl
      | inr d ↦ rw (e, d) (sound.agree t)
    ]
  ];
  fresh = λ t h.
      rw
        (
          ==_false tag t (live_tag s tag t c sound here (omega (arith, h))),
          ==_false s.count t (omega (arith, h)),
        )
        (sound.fresh t (omega (arith, h)));
  accepting = (
    s.count,
    record new_call { status = process },
    rw (==_false tag s.count (live_tag s tag s.count c sound here (omega arith)), ==_refl s.count),
    refl,
  );
}

statuses_differ : (c d : CallData) → some c ≡ some d → c.status ≡ finish → d.status ≡ process → ⊥
statuses_differ c d same fin proc = cc

other_status :
    (calls : ℕ → Option CallData) (a b : ℕ) (c d : CallData)
    → calls a ≡ some c
    → calls b ≡ some d
    → c.status ≡ finish
    → d.status ≡ process
    → a ≢ b
other_status calls a b c d at_a at_b fin proc same =
    absurd (statuses_differ c d (cc (same, at_a, at_b)) fin proc)

finish-IsSound :
    (s : ServerImpl) (tag : ℕ) (c : CallData)
    → IsSound s
    → s.calls tag ≡ some c
    → c.status ≡ finish
    → IsSound (proceed_status finish tag c (record s { pending = set s.pending tag none }))
unfolding proceed_status
finish-IsSound s tag c sound here done =
    let (a, d, at_a, accepts) = sound.accepting in
    record {
      agree = Agree-set s.calls s.pending tag none none sound.agree tt;
      fresh = λ t h. rw (==_false tag t (live_tag s tag t c sound here h)) (sound.fresh t h);
      accepting = (
        a,
        d,
        rw (==_false tag a (other_status s.calls tag a c d here at_a done accepts)) at_a,
        accepts,
      );
    }

-- The loop's call of `Proceed` for an event finds its object, and keeps the server sound.
handle-IsSound :
    (s : ServerImpl) (tag : ℕ)
    → IsSound s
    → s.pending tag ≡ some event
    → (s' : ServerImpl) × (proceed tag (record s { pending = set s.pending tag none }) ≡ some s')
      × IsSound s'
unfolding proceed
handle-IsSound s tag sound waits = elim (Option-cases (s.calls tag)) [
  | inl gone ↦ absurd (rw (gone, waits) at (sound.agree tag))
  | inr (c, here) ↦
      let ready : (c.status ≡ process) ⊎ (c.status ≡ finish) =
        rw (here, waits) at (sound.agree tag) in
      elim ready [
        | inl p ↦ (_, rw (here, p) refl, process-IsSound s tag c sound here)
        | inr p ↦ (_, rw (here, p) refl, finish-IsSound s tag c sound here p)
      ]
]

Step-IsSound : {s s' : ServerImpl} → Step s s' → IsSound s → IsSound s'
Step-IsSound (arrive {s} tag c name here waits) sound = arrive-IsSound s tag c name sound here waits
Step-IsSound (sent {s} tag waits) sound = sent-IsSound s tag sound waits
Step-IsSound (handle {s} {s'} tag waits ran) sound =
    let (x, found, good) = handle-IsSound s tag sound waits in
    let same : x ≡ s' = cc (ran, found) in rw same at good

-- Every state that the server reaches is sound.
pub Reach-IsSound : {s : ServerImpl} → Reach s → IsSound s
Reach-IsSound started = initial_server-IsSound
Reach-IsSound (next r step) = Step-IsSound step (Reach-IsSound r)

-- In every state that the asynchronous server reaches, whichever event its loop takes, Proceed
-- finds the object that the tag names, so no deleted call is used; and before and after it some
-- call waits for a request or has one that is not handled yet.
pub Reach-proceed :
    (s : ServerImpl) (tag : ℕ)
    → Reach s
    → s.pending tag ≡ some event
    → IsAccepting s
      × ((s' : ServerImpl) × (proceed tag (record s { pending = set s.pending tag none }) ≡ some s')
          × IsAccepting s')
Reach-proceed s tag r waits =
    let sound = Reach-IsSound r in
    let (s', found, good) = handle-IsSound s tag sound waits in
    (sound.accepting, (s', found, good.accepting))
