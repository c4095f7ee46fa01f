-- ===== src/Client/Validator/Covered.antt =====
-- What the echo validator accepts.
use rpc_transport_tests.Prelude.{
  ℕ, ◌+◌, ◌-◌, ==_iff, ◌≤◌, ◌≡◌, ◌≢◌, refl, ◌↔◌, true, false, ◌==◌, List, [], ◌∷◌, ◌++◌, length,
  take, drop, take-append-drop, sym, ◌∙◌, inl, inr, Bool-cases, leb→le, ◌<◌, arith, leb, some,
  take-length-append, ap, length-append,
}
use rpc_transport_tests.Memory.{
  Ptr, null, Bytes, DataBuf, World, string, Run, ok, throw, abort, fault, pure, resume, read_bytes,
}
use rpc_transport_tests.Machine.{Machine}
use rpc_transport_tests.Transport.Views.{Shows, length-Shows}
use rpc_transport_tests.Client.Validator.{
  bytes_eq, same_mem, same_bufs, tail, echo_is_valid, is_valid, echo_reply,
}

-- The bytes `c` begin the string `r`, its closing NUL included.
abbrev pub IsCovered : Bytes → Bytes → Type 0
IsCovered c r = (e : Bytes) × (r ++ (0 ∷ []) ≡ c ++ e)

abbrev pub AreCovered : List Bytes → List Bytes → Type 0
AreCovered [] [] = Unit {0}
AreCovered (c ∷ cs) (r ∷ rs) = IsCovered c r × AreCovered cs rs
AreCovered _ _ = ⊥

bytes_eq_refl : (xs : Bytes) → bytes_eq xs xs ≡ true
bytes_eq_refl [] = refl
bytes_eq_refl (x ∷ xs) = ground (arith, bytes_eq_refl xs)

eq_of_bytes_eq : (xs ys : Bytes) → bytes_eq xs ys ≡ true → xs ≡ ys
eq_of_bytes_eq [] [] h = refl
eq_of_bytes_eq [] (y ∷ ys) h = cc
eq_of_bytes_eq (x ∷ xs) [] h = cc
eq_of_bytes_eq (x ∷ xs) (y ∷ ys) h = ground (arith, eq_of_bytes_eq xs ys)

length_covered : (c r : Bytes) → IsCovered c r → length c ≤ length r + 1
length_covered c r (e, h) = omega (arith, ap length h, length-append r (0 ∷ []), length-append c e)

-- The first `n` bytes from the start of a live string.
read_bytes-take :
    (p : Ptr) (n : ℕ) (c : Bytes) (w : World)
    → w.cell p ≡ some (string c)
    → p ≢ null
    → n ≤ length c + 1
    → read_bytes p n w ≡ ok (take n (c ++ (0 ∷ []))) w
unfolding read_bytes
read_bytes-take p n c w e ne h = ground arith

-- Both strings are live, and the first is no longer than the second with its NUL.
same_mem-eq :
    (p q : Ptr) (c d : Bytes) (w : World)
    → w.cell p ≡ some (string c)
    → p ≢ null
    → w.cell q ≡ some (string d)
    → q ≢ null
    → length c ≤ length d + 1
    → same_mem p q (length c) w ≡ ok (bytes_eq c (take (length c) (d ++ (0 ∷ [])))) w
unfolding same_mem
same_mem-eq p q c d w e ne e' ne' h = rw (
  read_bytes-take p (length c) c w e ne (omega arith),
  read_bytes-take q (length c) d w e' ne' h,
  take-length-append c (0 ∷ []),
)

-- It is longer: the comparison would read behind the second string.
same_mem_long :
    (p q : Ptr) (c d : Bytes) (w : World)
    → w.cell p ≡ some (string c)
    → p ≢ null
    → w.cell q ≡ some (string d)
    → q ≢ null
    → length d + 1 < length c
    → same_mem p q (length c) w ≡ fault
unfolding same_mem read_bytes
same_mem_long p q c d w e ne e' ne' h = ground arith

-- Behind a mismatch the validator does not return true, whatever it logs.
not_true : (r : Run (Unit {0})) (w : World) → ¬ (resume r (λ _. pure false) ≡ ok true w)
not_true (ok a u) w h = cc
not_true (throw e u) w h = cc
not_true abort w h = cc
not_true fault w h = cc

take_covered : (c d : Bytes) → IsCovered c d → take (length c) (d ++ (0 ∷ [])) ≡ c
take_covered c d (e, h) = rw h (take-length-append c e)

module _ (env : Machine) (bs rs : List DataBuf) where
  same_bufs-cons :
      (b r : DataBuf) (c d : Bytes) (w : World)
      → b.len ≡ length c
      → w.cell b.addr ≡ some (string c)
      → b.addr ≢ null
      → w.cell r.addr ≡ some (string d)
      → r.addr ≢ null
      → IsCovered c d
      → same_bufs env (b ∷ bs) (r ∷ rs) w ≡ same_bufs env bs rs w
  unfolding same_bufs
  same_bufs-cons b r c d w l e ne e' ne' covered = rw (
    l,
    same_mem-eq b.addr r.addr c d w e ne e' ne' (length_covered c d covered),
    take_covered c d covered,
    bytes_eq_refl c,
  )

  IsCovered-same_bufs :
      (b r : DataBuf) (c d : Bytes) (w : World)
      → b.len ≡ length c
      → w.cell b.addr ≡ some (string c)
      → b.addr ≢ null
      → w.cell r.addr ≡ some (string d)
      → r.addr ≢ null
      → same_bufs env (b ∷ bs) (r ∷ rs) w ≡ ok true w
      → IsCovered c d
  unfolding same_bufs
  IsCovered-same_bufs b r c d w l e ne e' ne' valid =
      elim (Bool-cases (leb (length c) (length d + 1))) [
        | inl fits ↦ elim (Bool-cases (bytes_eq c (take (length c) (d ++ (0 ∷ []))))) [
          | inl same ↦ (
            drop (length c) (d ++ (0 ∷ [])),
            sym (take-append-drop (length c) (d ++ (0 ∷ [])))
                ∙ ap (λ x. x ++ drop (length c) (d ++ (0 ∷ []))) (sym (eq_of_bytes_eq c _ same)),
          )
          | inr other ↦ absurd (
              not_true _ w (
                rw (l, same_mem-eq b.addr r.addr c d w e ne e' ne' (leb→le _ _ fits), other) at
                  valid))
        ]
        | inr long ↦
            absurd
              (cc (rw (l, same_mem_long b.addr r.addr c d w e ne e' ne' (ground arith)) at valid))
      ]

same_bufs-AreCovered :
    (env : Machine) (bs rs : List DataBuf) (cs ds : List Bytes) (w : World)
    → Shows w bs cs
    → Shows w rs ds
    → AreCovered cs ds
    → same_bufs env bs rs w ≡ ok true w
same_bufs-AreCovered env [] rs [] ds w s t h = unfold same_bufs in refl
same_bufs-AreCovered env [] rs (c ∷ cs) ds w s t h = absurd s
same_bufs-AreCovered env (b ∷ bs) rs [] ds w s t h = absurd s
same_bufs-AreCovered env (b ∷ bs) [] (c ∷ cs) [] w s t h = absurd h
same_bufs-AreCovered env (b ∷ bs) [] (c ∷ cs) (d ∷ ds) w s t h = absurd t
same_bufs-AreCovered env (b ∷ bs) (r ∷ rs) (c ∷ cs) [] w s t h = absurd t
same_bufs-AreCovered env (b ∷ bs) (r ∷ rs) (c ∷ cs) (d ∷ ds) w (l, e, le, ne, s)
      (l', e', le', ne', t) (covered, h) =
    same_bufs-cons env bs rs b r c d w l e ne e' ne' covered
    ∙ same_bufs-AreCovered env bs rs cs ds w s t h

AreCovered-same_bufs :
    (env : Machine) (bs rs : List DataBuf) (cs ds : List Bytes) (w : World)
    → Shows w bs cs
    → Shows w rs ds
    → length cs ≡ length ds
    → same_bufs env bs rs w ≡ ok true w
    → AreCovered cs ds
AreCovered-same_bufs env [] rs [] [] w s t n h = tt
AreCovered-same_bufs env [] rs [] (d ∷ ds) w s t n h = absurd (omega arith)
AreCovered-same_bufs env [] rs (c ∷ cs) ds w s t n h = absurd s
AreCovered-same_bufs env (b ∷ bs) rs [] ds w s t n h = absurd s
AreCovered-same_bufs env (b ∷ bs) [] (c ∷ cs) [] w s t n h = absurd (omega arith)
AreCovered-same_bufs env (b ∷ bs) [] (c ∷ cs) (d ∷ ds) w s t n h = absurd t
AreCovered-same_bufs env (b ∷ bs) (r ∷ rs) (c ∷ cs) [] w s t n h = absurd t
AreCovered-same_bufs env (b ∷ bs) (r ∷ rs) (c ∷ cs) (d ∷ ds) w (l, e, le, ne, s)
      (l', e', le', ne', t) n h =
    let covered = IsCovered-same_bufs env bs rs b r c d w l e ne e' ne' h in
    (
      covered,
      AreCovered-same_bufs env bs rs cs ds w s t (omega arith)
          (sym (same_bufs-cons env bs rs b r c d w l e ne e' ne' covered) ∙ h),
    )

-- The strings behind the header.
abbrev pub blocks : List Bytes → List Bytes
blocks [] = []
blocks (c ∷ cs) = cs

Shows-tail :
    (bs : List DataBuf) (cs : List Bytes) (w : World)
    → Shows w bs cs
    → Shows w (tail bs) (blocks cs)
Shows-tail [] [] w s = tt
Shows-tail [] (c ∷ cs) w s = absurd s
Shows-tail (b ∷ bs) [] w s = absurd s
Shows-tail (b ∷ bs) (c ∷ cs) w (_, _, _, _, s) = s

length-blocks : (cs : List Bytes) → length (blocks cs) ≡ length cs - 1
length-blocks [] = refl
length-blocks (c ∷ cs) = omega arith

-- For a request and a reply whose buffers view live strings, the echo validator returns true just
-- if the reply has as many strings as the request, and each string behind the header, with its
-- closing NUL, begins with the string that was sent.
pub is_valid-AreCovered :
    (env : Machine) (bs rs : List DataBuf) (cs ds : List Bytes) (w : World)
    → Shows w bs cs
    → Shows w rs ds
    → (is_valid env echo_reply (record { bufs = bs }) (record { bufs = rs }) w ≡ ok true w)
      ↔ ((length cs ≡ length ds) × AreCovered (blocks cs) (blocks ds))
unfolding is_valid
is_valid-AreCovered env bs rs cs ds w s t = elim (Bool-cases (length bs == length rs)) [
  | inl same ↦
      let lengths : length cs ≡ length ds =
        omega (arith, (==_iff _ _).0 same, length-Shows w bs cs s, length-Shows w rs ds t) in
      (
        λ valid. (
          lengths,
          AreCovered-same_bufs env (tail bs) (tail rs) _ _ w (Shows-tail bs cs w s)
              (Shows-tail rs ds w t) (omega (arith, lengths, length-blocks cs, length-blocks ds))
              (rw (echo_is_valid, same) at valid),
        ),
        λ (_, covered).
            rw (echo_is_valid, same)
              (same_bufs-AreCovered env (tail bs) (tail rs) _ _ w (Shows-tail bs cs w s)
                (Shows-tail rs ds w t) covered),
      )
  | inr other ↦ (
    λ valid. absurd (cc (rw (echo_is_valid, other) at valid)),
    λ (lengths, _). absurd (
        cc (
          other,
          (==_iff (length bs) (length rs)).1
              (omega (arith, lengths, length-Shows w bs cs s, length-Shows w rs ds t)),
        )),
  )
]
