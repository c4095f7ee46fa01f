-- ===== src/Client/Main/Choice.antt =====
-- How rt_client.cc and rt_server.cc read their flags.
use rpc_transport_tests.Prelude.{
  ℕ, ap, ◌==◌, ==_iff, ◌≡◌, refl, ◌↔◌, ◌⊎◌, inl, inr, Bool, true, false, ◌&&◌, ◌||◌, Bool-cases,
  if◌then◌else◌, Option, none, some, List, [], ◌∷◌, ◌++◌, codes,
}
use rpc_transport_tests.Memory.{Bytes}
use rpc_transport_tests.Client.Requests.{write_req, read_req, echo_req}
use rpc_transport_tests.Client.Validator.{any_reply, echo_reply}
use rpc_transport_tests.Client.Main.{
  starts_with, contains, TransportKind, null, flatbuffers, grpc, rsocket, capnproto, Workload,
  select_transport, select_workload,
}

and_left : (a b : Bool) → (a && b) ≡ true → a ≡ true
and_left true b h = refl
and_left false b h = cc h

and_right : (a b : Bool) → (a && b) ≡ true → b ≡ true
and_right true b h = h
and_right false b h = cc h

or-cases : (a b : Bool) → (a || b) ≡ true → (a ≡ true) ⊎ (b ≡ true)
or-cases true b h = inl refl
or-cases false b h = inr h

or_right : (a b : Bool) → b ≡ true → (a || b) ≡ true
or_right true b h = refl
or_right false b h = h

starts_with_iff : (s p : Bytes) → (starts_with s p ≡ true) ↔ ((rest : Bytes) × (s ≡ p ++ rest))
starts_with_iff s [] = (λ _. (s, refl), λ _. refl)
starts_with_iff [] (p ∷ ps) = (λ h. cc h, λ (rest, e). cc e)
starts_with_iff (c ∷ s) (p ∷ ps) = (
  λ h.
      let (rest, e) = (starts_with_iff s ps).0 (and_right (c == p) _ h) in
      (rest, cc ((==_iff c p).0 (and_left (c == p) _ h), e)),
  λ (rest, e). rw ((==_iff c p).1 (cc e)) ((starts_with_iff s ps).1 (rest, cc e)),
)

contains_nil :
    (p : Bytes)
    → ((before : Bytes) × (after : Bytes) × ([] ≡ before ++ (p ++ after)))
    → contains [] p ≡ true
unfolding contains
contains_nil p ([], after, e) = (starts_with_iff [] p).1 (after, e)
contains_nil p (b ∷ before, after, e) = cc e

contains_part :
    (c : ℕ) (s p : Bytes)
    → (((before : Bytes) × (after : Bytes) × (s ≡ before ++ (p ++ after))) → contains s p ≡ true)
    → ((before : Bytes) × (after : Bytes) × (c ∷ s ≡ before ++ (p ++ after)))
    → contains (c ∷ s) p ≡ true
unfolding contains
contains_part c s p later ([], after, e) = rw ((starts_with_iff (c ∷ s) p).1 (after, e))
contains_part c s p later (b ∷ before, after, e) =
    or_right (starts_with (c ∷ s) p) _ (later (before, after, cc e))

-- The word is a part of the text.
abbrev pub Has : Bytes → Bytes → Type 0
Has s p = (before : Bytes) × (after : Bytes) × (s ≡ before ++ (p ++ after))

contains_iff : (s p : Bytes) → (contains s p ≡ true) ↔ Has s p
unfolding contains
contains_iff [] p =
    (λ h. let (after, e) = (starts_with_iff [] p).0 h in ([], after, e), contains_nil p)
contains_iff (c ∷ s) p = (
  λ h. elim (or-cases (starts_with (c ∷ s) p) (contains s p) h) [
    | inl here ↦ let (after, e) = (starts_with_iff (c ∷ s) p).0 here in ([], after, e)
    | inr later ↦
        let (before, after, e) = (contains_iff s p).0 later in (c ∷ before, after, ap (◌∷◌ c) e)
  ],
  contains_part c s p (contains_iff s p).1,
)

-- What the first word of a table that is a part of the text stands for, or nothing where none is.
pub data FirstOf {ℓ} {A : Type ℓ} (flag : Bytes) : List (Bytes × A) → Option A → Type ℓ where
  no_word : FirstOf flag [] none
  this_word :
      {word : Bytes} {a : A} {table : List (Bytes × A)}
      → Has flag word
      → FirstOf flag ((word, a) ∷ table) (some a)
  later_word :
      {word : Bytes} {a : A} {table : List (Bytes × A)} {o : Option A}
      → ¬ Has flag word
      → FirstOf flag table o
      → FirstOf flag ((word, a) ∷ table) o

-- The transports of both builds, and the workloads, in the order in which they are looked for.
abbrev pub transports : Bool → List (Bytes × TransportKind)
transports true = (codes "null", null) ∷ (codes "flatbuffers", flatbuffers) ∷ []
transports false =
    (codes "null", null)
    ∷ (codes "grpc", grpc)
    ∷ (codes "rsocket", rsocket)
    ∷ (codes "capnproto", capnproto)
    ∷ []

abbrev pub workloads : List (Bytes × Workload)
workloads =
    (codes "write", (write_req, any_reply))
    ∷ (codes "read", (read_req, any_reply))
    ∷ (codes "echo", (echo_req, echo_reply))
    ∷ []

found_first {ℓ} :
    {A : Type ℓ} {flag word : Bytes} {a : A} {table : List (Bytes × A)} {o : Option A}
    → FirstOf flag table o
    → FirstOf flag ((word, a) ∷ table) (if contains flag word then some a else o)
found_first {A} {flag} {word} {a} {table} {o} later = elim (Bool-cases (contains flag word)) [
  | inl e ↦ rw e (this_word ((contains_iff flag word).0 e))
  | inr e ↦ rw e (later_word (λ has. cc ((contains_iff flag word).1 has, e)) later)
]

select_transport-FirstOf :
    (enable_flatbuffers : Bool) (flag : Bytes)
    → FirstOf flag (transports enable_flatbuffers) (select_transport enable_flatbuffers flag)
unfolding select_transport
select_transport-FirstOf true flag = found_first (found_first no_word)
select_transport-FirstOf false flag = found_first (found_first (found_first (found_first no_word)))

-- For every pair of flags and both builds: the transport is that of the first word of null, grpc,
-- rsocket and capnproto, or of null and flatbuffers with ENABLE_FLATBUFFERS, that is a part of the
-- flag anywhere; the workload, with its validator, is that of the first such word of write, read
-- and echo; and no transport or workload is chosen just where no word is.
pub select-FirstOf :
    (enable_flatbuffers : Bool) (transport workload : Bytes)
    → FirstOf transport
        (transports enable_flatbuffers)
        (select_transport enable_flatbuffers transport)
      × FirstOf workload workloads (select_workload workload)
unfolding select_workload
select-FirstOf enable transport workload =
    (select_transport-FirstOf enable transport, found_first (found_first (found_first no_word)))
