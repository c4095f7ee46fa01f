-- ===== src/Hello/Target.antt =====
-- The argument of greeter_client.cc.
use rpc_transport_tests.Prelude.{
  starts_with, ℕ, zero, suc, ◌+◌, ◌≤◌, ◌==◌, ==_iff, ◌≡◌, ◌↔◌, ◌∙◌, refl, sym, ap, inl, inr, true,
  Bool-cases, Option-cases, some, List, [], ◌∷◌, ◌++◌, length, take, drop, take-append-drop,
  length-append, codes, arith,
}
use mathlib.Core.List.{append_assoc}
use rpc_transport_tests.Memory.{Bytes}
use rpc_transport_tests.Hello.GreeterClient.{find, char_at, target, target_at, target_of}

starts_with-append : (s p : Bytes) → starts_with s p ≡ true → s ≡ p ++ drop (length p) s
starts_with-append s [] h = refl
starts_with-append [] (p ∷ ps) h = absurd (cc h)
starts_with-append (c ∷ s) (p ∷ ps) h = elim (Bool-cases (c == p)) [
  | inl e ↦ rw ((==_iff c p).0 e) (ap (λ x. p ∷ x) (starts_with-append s ps (rw e at h)))
  | inr e ↦ absurd (cc (rw e at h))
]

-- Where `find` finds something, it starts there.
find-starts_with :
    (s p : Bytes) (i : ℕ) → find s p ≡ some i → (i ≤ length s) × (starts_with (drop i s) p ≡ true)
unfolding find
find-starts_with [] p i h = elim (Bool-cases (starts_with [] p)) [
  | inl e ↦
      let at : some 0 ≡ some i = rw e at h in
      let same : 0 ≡ i = cc at in rw (sym same) (omega arith, e)
  | inr e ↦ absurd (cc (rw e at h))
]
find-starts_with (c ∷ s) p i h = elim (Bool-cases (starts_with (c ∷ s) p)) [
  | inl e ↦
      let at : some 0 ≡ some i = rw e at h in
      let same : 0 ≡ i = cc at in rw (sym same) (omega arith, e)
  | inr e ↦ elim (Option-cases (find s p)) [
    | inl gone ↦ absurd (cc (rw (e, gone) at h))
    | inr (j, there) ↦
        let at : some (suc j) ≡ some i = rw (e, there) at h in
        let same : suc j ≡ i = cc at in
        let (le, starts) = find-starts_with s p j there in rw (sym same) (omega (arith, le), starts)
  ]
]

length-take : {A : Type 0} (n : ℕ) (xs : List A) → n ≤ length xs → length (take n xs) ≡ n
length-take zero xs h = refl
length-take (suc n) [] h = absurd (omega (arith, h))
length-take (suc n) (x ∷ xs) h = ap suc (length-take n xs (omega (arith, h)))

-- Where `find` finds something, the string has two other parts.
find-split :
    (s p : Bytes) (i : ℕ)
    → find s p ≡ some i
    → (pre : Bytes) × (rest : Bytes) × (s ≡ (pre ++ p) ++ rest) × (length pre ≡ i)
find-split s p i h =
    let (le, starts) = find-starts_with s p i h in
    (
      take i s,
      drop (length p) (drop i s),
      sym (take-append-drop i s)
          ∙ ap (λ x. take i s ++ x) (starts_with-append (drop i s) p starts)
          ∙ sym (append_assoc (take i s) p _),
      length-take i s le,
    )

char_at-append : (xs ys : Bytes) (n : ℕ) → n ≡ length xs → char_at (xs ++ ys) n ≡ char_at ys 0
unfolding char_at
char_at-append [] [] n e = refl
char_at-append [] (y ∷ ys) n e = rw e refl
char_at-append (x ∷ xs) ys n e = rw e (char_at-append xs ys (length xs) refl)

drop-append :
    (xs : Bytes) (c : ℕ) (ys : Bytes) (n : ℕ) → n ≡ suc (length xs) → drop n (xs ++ (c ∷ ys)) ≡ ys
drop-append [] c ys n e = rw e refl
drop-append (x ∷ xs) c ys n e = rw e (drop-append xs c ys (suc (length xs)) refl)

-- The character behind the option says what becomes of the argument.
module _ (pre : Bytes) where
  behind : length pre + length (codes "--target") ≡ length (pre ++ codes "--target")
  behind = sym (length-append pre (codes "--target"))

  after : length pre + 8 + 1 ≡ suc (length (pre ++ codes "--target"))
  after = omega (arith, behind)

  target_at-equals :
      (t : Bytes)
      → target_at ((pre ++ codes "--target") ++ (b'=' ∷ t)) (some (length pre)) ≡ target t
  unfolding target_at char_at
  target_at-equals t =
      rw
        (
          char_at-append (pre ++ codes "--target") (b'=' ∷ t) _ behind,
          drop-append (pre ++ codes "--target") b'=' t (length pre + 8 + 1) after,
        )
        refl

  target_at-other :
      (rest t : Bytes)
      → target_at ((pre ++ codes "--target") ++ rest) (some (length pre)) ≡ target t
      → rest ≡ b'=' ∷ t
  unfolding target_at char_at
  target_at-other [] t h =
      absurd (cc (rw (char_at-append (pre ++ codes "--target") [] _ behind) at h))
  target_at-other (c ∷ rest) t h = elim (Bool-cases (c == b'=')) [
    | inl e ↦
        let found : target rest ≡ target t =
          rw
            (
              char_at-append (pre ++ codes "--target") (c ∷ rest) _ behind,
              e,
              drop-append (pre ++ codes "--target") c rest (length pre + 8 + 1) after,
            )
            at h in
        rw ((==_iff c b'=').0 e) (ap (λ x. b'=' ∷ x) (cc found))
    | inr e ↦
        absurd (cc (rw (char_at-append (pre ++ codes "--target") (c ∷ rest) _ behind, e) at h))
  ]

-- The synchronous client takes a target from its argument just if the first `--target` in it,
-- wherever it stands, is followed by an equals sign, and then the target is all that comes behind
-- that.
pub target_of-target :
    (arg t : Bytes) (args : List Bytes)
    → (target_of (arg ∷ args) ≡ target t) ↔ (
        (pre : Bytes) × (arg ≡ (pre ++ codes "--target") ++ (b'=' ∷ t))
        × (find arg (codes "--target") ≡ some (length pre)))
unfolding target_of
target_of-target arg t args = (
  λ h. elim (Option-cases (find arg (codes "--target"))) [
    | inl gone ↦ absurd (cc (rw gone at h))
    | inr (i, there) ↦
        let (pre, rest, whole, at) = find-split arg (codes "--target") i there in
        let equals = target_at-other pre rest t (rw (there, sym at, whole) at h) in
        (pre, rw (sym equals) whole, rw at there)
  ],
  λ (pre, whole, there). rw (there, whole) (target_at-equals pre t),
)
