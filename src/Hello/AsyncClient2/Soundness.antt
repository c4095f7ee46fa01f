-- ===== src/Hello/AsyncClient2/Soundness.antt =====
-- The states that the client of greeter_async_client2.cc reaches.
use rpc_transport_tests.Prelude.{
  Bool, true, false, List, set, ==_refl, ==_false, ==_iff, ◌==◌, ℕ, ◌+◌, ◌≤◌, ◌<◌, ◌≡◌, ◌≢◌, refl,
  sym, ◌∙◌, inl, inr, All-weaken, All-not-Mem, leb, leb→le, Bool-cases, Option-cases, Option, none,
  some, [], ◌∷◌, ◌++◌, map, All, arith,
}
use mathlib.Core.List.{
  Mem, Nodup, Perm, Nodup-cons, Nodup-nil, mem-cons_self, mem-cons_of_mem, perm_append_singleton,
  perm_append_comm, perm_middle,
}
use mathlib.Core.List.Perm
use rpc_transport_tests.Memory.{Bytes}
use rpc_transport_tests.Transports.Grpc.{Status}
use rpc_transport_tests.Hello.AsyncClient2.{
  AsyncClientCall, Pending, under_way, event, GreeterClient, initial_client, say_hello, user_of,
  line_of, async_complete_rpc, Step, say, prompt, prompt_lines, arrive, complete, Reach, started,
  next,
}

-- The lines of `main` itself so far.
abbrev pub shown_prompt : Bool → List Bytes
shown_prompt true = prompt_lines
shown_prompt false = []

module _ (serve : Bytes → Status × Bytes) where
  -- The line for the i-th call.
  abbrev pub answer_line : ℕ → Bytes
  answer_line i = line_of (serve (user_of i)).0 (serve (user_of i)).1

  -- What the runtime holds for a tag fits the call at that address.
  abbrev pub Agree : ℕ → Option AsyncClientCall → Option Pending → Type 0
  Agree tag none none = Unit {0}
  Agree tag (some call) (some (under_way user)) = user ≡ user_of tag
  Agree tag (some call) (some event) =
      (call.status ≡ (serve (user_of tag)).0) × (call.message ≡ (serve (user_of tag)).1)
  Agree tag _ _ = ⊥

  pub record IsSound (g : GreeterClient) : Type 0 where
    pub counter : g.i ≡ g.count
    pub at_most : g.count ≤ 100
    pub agree : (t : ℕ) → Agree t (g.calls t) (g.pending t)
    pub unused : (t : ℕ) → g.count ≤ t → g.calls t ≡ none
    pub gone : All (λ t. (t < g.count) × (g.calls t ≡ none)) g.taken
    pub noted : (t : ℕ) → t < g.count → g.calls t ≡ none → Mem t g.taken
    pub distinct : Nodup g.taken
    pub lines : Perm g.written (shown_prompt g.prompted ++ map answer_line g.taken)

  initial_client-IsSound : IsSound initial_client
  initial_client-IsSound = record {
    counter = refl;
    at_most = omega arith;
    agree = λ t. tt;
    unused = λ t h. refl;
    gone = tt;
    noted = λ t h e. absurd (omega (arith, h));
    distinct = Nodup-nil;
    lines = Perm.refl [];
  }

  -- An address that is set, and those that are not.
  set_other :
      {A : Type 0} (f : ℕ → Option A) (tag t : ℕ) (o : Option A) → tag ≢ t → set f tag o t ≡ f t
  set_other f tag t o ne = rw (==_false tag t ne) refl

  set_here : {A : Type 0} (f : ℕ → Option A) (tag : ℕ) (o : Option A) → set f tag o tag ≡ o
  set_here f tag o = rw (==_refl tag) refl

  Agree-set :
      (calls : ℕ → Option AsyncClientCall) (pending : ℕ → Option Pending) (tag : ℕ)
      (o : Option AsyncClientCall) (p : Option Pending)
      → ((t : ℕ) → Agree t (calls t) (pending t))
      → Agree tag o p
      → (t : ℕ) → Agree t (set calls tag o t) (set pending tag p t)
  Agree-set calls pending tag o p all h t = elim (Bool-cases (tag == t)) [
    | inl e ↦ rw (e, sym ((==_iff tag t).0 e)) h
    | inr e ↦ rw e (all t)
  ]

  say-IsSound :
      (g : GreeterClient)
      → g.i < 100
      → IsSound g
      → IsSound (record (say_hello (user_of g.i) g) { i = g.i + 1 })
  unfolding say_hello
  say-IsSound g more sound = record {
    counter = omega (arith, sound.counter);
    at_most = omega (arith, sound.counter, more);
    agree = Agree-set g.calls g.pending g.count _ _ sound.agree (rw sound.counter refl);
    unused = λ t h.
        set_other g.calls g.count t _ (λ e. omega (arith, e, h))
        ∙ sound.unused t (omega (arith, h));
    gone =
        All-weaken g.taken
          (λ t (old, e). (
            omega (arith, old),
            set_other g.calls g.count t _ (λ same. omega (arith, same, old)) ∙ e,
          ))
          sound.gone;
    noted = λ t h e. elim (Bool-cases (g.count == t)) [
      | inl same ↦ absurd (cc (rw same at e))
      | inr other ↦ sound.noted t (ground (arith, h, other)) (rw other at e)
    ];
    distinct = sound.distinct;
    lines = sound.lines;
  }

  -- A call that is not deleted is none of those that are gone.
  differs :
      (g : GreeterClient) (tag t : ℕ) (call : AsyncClientCall)
      → g.calls tag ≡ some call
      → g.calls t ≡ none
      → tag ≢ t
  differs g tag t call here there same = cc (same, here, there)

  live_tag :
      (g : GreeterClient) (tag : ℕ) (call : AsyncClientCall)
      → IsSound g
      → g.calls tag ≡ some call
      → tag < g.count
  live_tag g tag call sound here = elim (Bool-cases (leb g.count tag)) [
    | inl e ↦ absurd (cc (here, sound.unused tag (leb→le g.count tag e)))
    | inr e ↦ ground (arith, e)
  ]

  arrive-IsSound :
      (g : GreeterClient) (tag : ℕ) (user : Bytes) (call : AsyncClientCall)
      → g.calls tag ≡ some call
      → g.pending tag ≡ some (under_way user)
      → IsSound g
      → IsSound (record g {
        calls =
            set g.calls tag (some (record { status = (serve user).0; message = (serve user).1 }));
        pending = set g.pending tag (some event);
      })
  arrive-IsSound g tag user call here waits sound =
      let name : user ≡ user_of tag = rw (here, waits) at (sound.agree tag) in
      record {
        counter = sound.counter;
        at_most = sound.at_most;
        agree = Agree-set g.calls g.pending tag _ _ sound.agree (rw name refl, rw name refl);
        unused = λ t h.
            set_other g.calls tag t _ (differs g tag t call here (sound.unused t h))
            ∙ sound.unused t h;
        gone =
            All-weaken g.taken
              (λ t (old, e). (old, set_other g.calls tag t _ (differs g tag t call here e) ∙ e))
              sound.gone;
        noted = λ t h e. elim (Bool-cases (tag == t)) [
          | inl same ↦ absurd (cc (rw same at e))
          | inr other ↦ sound.noted t h (rw other at e)
        ];
        distinct = sound.distinct;
        lines = sound.lines;
      }

  -- The client after the event of a call.
  abbrev pub completed : ℕ → AsyncClientCall → GreeterClient → GreeterClient
  completed tag call g = record g {
    calls = set g.calls tag none;
    pending = set g.pending tag none;
    written = g.written ++ (line_of call.status call.message ∷ []);
    taken = tag ∷ g.taken;
  }

  completed-IsSound :
      (g : GreeterClient) (tag : ℕ) (call : AsyncClientCall)
      → g.calls tag ≡ some call
      → g.pending tag ≡ some event
      → IsSound g
      → IsSound (completed tag call g)
  completed-IsSound g tag call here waits sound =
      let (status, message) : (call.status ≡ (serve (user_of tag)).0)
          × (call.message ≡ (serve (user_of tag)).1) =
        rw (here, waits) at (sound.agree tag) in
      record {
        counter = sound.counter;
        at_most = sound.at_most;
        agree = Agree-set g.calls g.pending tag none none sound.agree tt;
        unused = λ t h.
            set_other g.calls tag t _ (differs g tag t call here (sound.unused t h))
            ∙ sound.unused t h;
        gone = (
          (live_tag g tag call sound here, set_here g.calls tag none),
          All-weaken g.taken
              (λ t (old, e). (old, set_other g.calls tag t _ (differs g tag t call here e) ∙ e))
              sound.gone,
        );
        noted = λ t h e. elim (Bool-cases (tag == t)) [
          | inl same ↦ rw ((==_iff tag t).0 same) mem-cons_self
          | inr other ↦ mem-cons_of_mem tag (sound.noted t h (rw other at e))
        ];
        distinct = Nodup-cons.1 (
          All-not-Mem _ tag g.taken (λ (old, e). differs g tag tag call here e refl) sound.gone,
          sound.distinct,
        );
        lines =
            rw (status, message)
              (Perm.trans (perm_append_singleton _ g.written) (
                Perm.trans (Perm.cons _ sound.lines)
                  (Perm.symm (perm_middle (shown_prompt g.prompted) _))));
      }

  -- The call of an event, with the answer.
  pub event_call :
      (g : GreeterClient) (tag : ℕ)
      → IsSound g
      → g.pending tag ≡ some event
      → (call : AsyncClientCall) × (g.calls tag ≡ some call)
        × (call.status ≡ (serve (user_of tag)).0)
        × (call.message ≡ (serve (user_of tag)).1)
  event_call g tag sound waits = elim (Option-cases (g.calls tag)) [
    | inl gone ↦ absurd (rw (gone, waits) at (sound.agree tag))
    | inr (call, here) ↦
        let (status, message) : (call.status ≡ (serve (user_of tag)).0)
            × (call.message ≡ (serve (user_of tag)).1) =
          rw (here, waits) at (sound.agree tag) in
        (call, here, status, message)
  ]

  -- The body of the loop for an event finds its call.
  pub complete-IsSound :
      (g : GreeterClient) (tag : ℕ)
      → g.pending tag ≡ some event
      → IsSound g
      → (g' : GreeterClient) × (async_complete_rpc tag
            (record g { pending = set g.pending tag none })
          ≡ some g')
        × IsSound g'
  unfolding async_complete_rpc
  complete-IsSound g tag waits sound =
      let (call, here, _, _) = event_call g tag sound waits in
      (completed tag call g, rw here refl, completed-IsSound g tag call here waits sound)

  -- The lines of `main` behind the others.
  prompt-lines :
      (g : GreeterClient)
      → g.prompted ≡ false
      → Perm g.written (shown_prompt g.prompted ++ map answer_line g.taken)
      → Perm (g.written ++ prompt_lines) (prompt_lines ++ map answer_line g.taken)
  prompt-lines g e lines =
      Perm.trans (perm_append_comm g.written prompt_lines)
        (Perm.cons _ (Perm.cons _ (rw e at lines)))

  prompt-IsSound :
      (g : GreeterClient)
      → g.prompted ≡ false
      → IsSound g
      → IsSound (record g { prompted = true; written = g.written ++ prompt_lines })
  prompt-IsSound g e sound = record {
    counter = sound.counter;
    at_most = sound.at_most;
    agree = sound.agree;
    unused = sound.unused;
    gone = sound.gone;
    noted = sound.noted;
    distinct = sound.distinct;
    lines = prompt-lines g e sound.lines;
  }

  Step-IsSound : {g g' : GreeterClient} → Step serve g g' → IsSound g → IsSound g'
  Step-IsSound (say {g} more) sound = say-IsSound g more sound
  Step-IsSound (prompt {g} made e) sound = prompt-IsSound g e sound
  Step-IsSound (arrive {g} tag user call here waits) sound =
      arrive-IsSound g tag user call here waits sound
  Step-IsSound (complete {g} {g'} tag waits ran) sound =
      let (x, found, good) = complete-IsSound g tag waits sound in
      let same : x ≡ g' = cc (ran, found) in rw same at good

  pub Reach-IsSound : {g : GreeterClient} → Reach serve g → IsSound g
  Reach-IsSound started = initial_client-IsSound
  Reach-IsSound (next r step) = Step-IsSound step (Reach-IsSound r)
