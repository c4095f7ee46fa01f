-- ===== src/Transports/Restores.antt =====
-- Memory that is as it was once the strings that were made since are released.
use rpc_transport_tests.Prelude.{
  ℕ, zero, suc, ◌+◌, ◌≤◌, ◌<◌, ◌==◌, ◌≡◌, ◌≢◌, ◌∙◌, if◌then◌else◌, refl, inl, inr, Bool-cases, none,
  arith, ltb, ltb→lt, ==_false, length, List,
}
use rpc_transport_tests.Memory.{Ptr, Bytes, World, resume, ◌>>◌, pure, free}
use rpc_transport_tests.Memory.Yields
use rpc_transport_tests.Memory.Yields.{Yields, yields}
use rpc_transport_tests.Transport.{Buffers, no_buffers}
use rpc_transport_tests.Transport.Views.{Keeps, made, Makes}
use rpc_transport_tests.Transports.Streams.{release}

-- All objects of `w` are as they were, and no object that was made since is live.
pub record Restores (w w' : World) : Type 0 where
  pub grows : w.count ≤ w'.count
  pub same : (p : Ptr) → p ≤ w.count → w'.cell p ≡ w.cell p
  pub released : (p : Ptr) → w.count < p → p ≤ w'.count → w'.cell p ≡ none

pub Restores-refl : (w : World) → Restores w w
Restores-refl w = record {
  grows = omega arith;
  same = λ p le. refl;
  released = λ p lt le. absurd (omega (arith, lt, le));
}

pub Restores-trans : {u v w : World} → Restores u v → Restores v w → Restores u w
Restores-trans {u} {v} {w} h k = record {
  grows = omega (arith, h.grows, k.grows);
  same = λ p le. k.same p (omega (arith, le, h.grows)) ∙ h.same p le;
  released = λ p lt le. elim (Bool-cases (ltb v.count p)) [
    | inl e ↦ k.released p (ltb→lt v.count p e) le
    | inr e ↦ let old : p ≤ v.count = ground (arith, e) in k.same p old ∙ h.released p lt old
  ];
}

-- What a release of `k` addresses behind `n` does.
pub record Freed (n k : ℕ) (w w' : World) : Type 0 where
  pub count : w'.count ≡ w.count
  pub below : (p : Ptr) → p ≤ n → w'.cell p ≡ w.cell p
  pub above : (p : Ptr) → n + k < p → w'.cell p ≡ w.cell p
  pub inside : (p : Ptr) → n < p → p ≤ n + k → w'.cell p ≡ none

freed_other : (w : World) (p q : Ptr) → p ≢ q → (if p == q then none else w.cell q) ≡ w.cell q
freed_other w p q ne = rw (==_false p q ne) refl

pub release-made : (k n : ℕ) (w : World) → Yields (λ _ w'. Freed n k w w') (release (made n k) w)
unfolding release free
release-made zero n w = yields (record {
  count = refl;
  below = λ p le. refl;
  above = λ p lt. refl;
  inside = λ p lt le. absurd (omega (arith, lt, le));
})
release-made (suc k) n w = Yields.weaken (release-made k (suc n) _) λ _ w' f. record {
  count = f.count;
  below =
      λ p le. f.below p (omega (arith, le)) ∙ freed_other w (suc n) p (λ e. omega (arith, e, le));
  above =
      λ p lt. f.above p (omega (arith, lt)) ∙ freed_other w (suc n) p (λ e. omega (arith, e, lt));
  inside = λ p lt le. elim (Bool-cases (suc n == p)) [
    | inl e ↦ f.below p (ground (arith, e)) ∙ (rw e refl)
    | inr e ↦ f.inside p (ground (arith, lt, e)) (omega (arith, le))
  ];
}

-- The request that was made from `w` and the reply behind it are released, and memory is as it was.
pub release_both-Restores :
    {A : Type 0} (value : A) (w u y : World) (req reply : Buffers) (cs rs : List Bytes)
    → Makes w no_buffers cs u req
    → Keeps u y
    → y.count ≡ u.count + length rs
    → reply.container ≡ made u.count (length rs)
    → Yields
        (λ a v. (a ≡ value) × Restores w v)
        (resume (release reply.container y) λ _. release req.container >> pure value)
release_both-Restores value w u y req reply cs rs m k count owned =
    rw (owned, m.owned)
      (Yields.then_do (release-made (length rs) u.count y) λ _ z f.
        Yields.then_do (release-made (length cs) w.count z) λ _ v g. yields (
          refl,
          record {
            grows = omega (arith, f.count, g.count, count, m.count);
            same = λ p le.
                g.below p le
                ∙ f.below p (omega (arith, le, m.count))
                ∙ k.same p (omega (arith, le, m.count))
                ∙ m.keeps.same p le;
            released = λ p lt le. elim (Bool-cases (ltb u.count p)) [
              | inl e ↦
                  let new : u.count < p = ltb→lt u.count p e in
                  g.above p (omega (arith, new, m.count))
                  ∙ f.inside p new (omega (arith, le, g.count, f.count, count))
              | inr e ↦ g.inside p lt (ground (arith, e, m.count))
            ];
          },
        ))
