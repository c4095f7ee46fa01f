-- ===== src/Transports/Grpc/Sessions/Ownership.antt =====
-- Which call of ReqReply owns which string, and what a turn of a call leaves to the others.
use rpc_transport_tests.Prelude.{
  ℕ, zero, suc, ◌≤◌, ◌<◌, ◌≡◌, ◌≢◌, ◌∙◌, ap, sym, refl, leb, if◌then◌else◌, List, [], ◌∷◌, ◌++◌,
  map, All, length, arith, ==_false, none, ◌==◌,
}
use rpc_transport_tests.Memory.{Ptr, Bytes, DataBuf, World, free}
use rpc_transport_tests.Memory.Yields
use rpc_transport_tests.Memory.Yields.{Yields, yields}
use rpc_transport_tests.Transport.{Buffers, no_buffers}
use rpc_transport_tests.Transport.Views.{Shows, Holds, Keeps, Makes, made}
use rpc_transport_tests.Transports.Streams.{release, no_buffers-Holds}

-- The number of the call that owns the string at an address.
abbrev pub Owner : Type 0
Owner = Ptr → ℕ

abbrev pub Owns : Owner → ℕ → List Ptr → Type 0
Owns o i = All (λ p. o p ≡ i)

-- The addresses behind `n` are the call's.
abbrev pub extend : Owner → ℕ → ℕ → Owner
extend o n i p = if leb p n then o p else i

-- `w'` has the objects of `w` that are not the call's as they were.
pub record Spares (o : Owner) (i : ℕ) (w w' : World) : Type 0 where
  pub grows : w.count ≤ w'.count
  pub same : (p : Ptr) → p ≤ w.count → o p ≢ i → w'.cell p ≡ w.cell p

pub Keeps-Spares : (o : Owner) (i : ℕ) {w w' : World} → Keeps w w' → Spares o i w w'
Keeps-Spares o i k = record { grows = k.grows; same = λ p le ne. k.same p le }

pub Spares-trans :
    {o : Owner} {i : ℕ} {u v w : World} → Spares o i u v → Spares o i v w → Spares o i u w
Spares-trans {o} {i} {u} {v} {w} h k = record {
  grows = omega (arith, h.grows, k.grows);
  same = λ p le ne. k.same p (omega (arith, le, h.grows)) ne ∙ h.same p le ne;
}

-- Strings that a call has stored and owns.
pub record Held (o : Owner) (i : ℕ) (w : World) (out : Buffers) (cs : List Bytes) : Type 0 where
  pub holds : Holds w out cs
  pub mine : Owns o i (map (λ b. b.addr) out.msg.bufs)

extend_old : (o : Owner) (n i p : ℕ) → p ≤ n → extend o n i p ≡ o p
extend_old o n i p le = ground (arith, le)

extend_new : (o : Owner) (n i p : ℕ) → n < p → extend o n i p ≡ i
extend_new o n i p lt = ground (arith, lt)

Owns-extend :
    (o : Owner) (i j : ℕ) (w : World) (bs : List DataBuf) (cs : List Bytes)
    → Shows w bs cs
    → Owns o j (map (λ b. b.addr) bs)
    → Owns (extend o w.count i) j (map (λ b. b.addr) bs)
Owns-extend o i j w [] cs s h = tt
Owns-extend o i j w (b ∷ bs) [] s h = absurd s
Owns-extend o i j w (b ∷ bs) (c ∷ cs) (l, at, le, ne, s) (e, h) =
    (extend_old o w.count i b.addr le ∙ e, Owns-extend o i j w bs cs s h)

pub Owns-append :
    (o : Owner) (i : ℕ) (ps qs : List Ptr) → Owns o i ps → Owns o i qs → Owns o i (ps ++ qs)
Owns-append o i [] qs h k = k
Owns-append o i (p ∷ ps) qs (e, h) k = (e, Owns-append o i ps qs h k)

Owns-made : (o : Owner) (n i m k : ℕ) → n ≤ m → Owns (extend o n i) i (made m k)
Owns-made o n i m zero le = tt
Owns-made o n i m (suc k) le =
    (extend_new o n i (suc m) (omega (arith, le)), Owns-made o n i (suc m) k (omega (arith, le)))

Shows-Spares :
    {o : Owner} {i j : ℕ} {w w' : World} (bs : List DataBuf) (cs : List Bytes)
    → i ≢ j
    → Spares o i w w'
    → Owns o j (map (λ b. b.addr) bs)
    → Shows w bs cs
    → Shows w' bs cs
Shows-Spares [] [] other k h s = tt
Shows-Spares [] (c ∷ cs) other k h s = s
Shows-Spares (b ∷ bs) [] other k h s = s
Shows-Spares {o} {i} {j} (b ∷ bs) (c ∷ cs) other k (e, h) (l, at, le, ne, s) = (
  l,
  k.same b.addr le (λ p. other (cc (p, e))) ∙ at,
  omega (arith, k.grows, le),
  ne,
  Shows-Spares bs cs other k h s,
)

-- What the others hold is as it was.
pub Held-other :
    {o : Owner} {i j : ℕ} {w w' : World}
    → i ≢ j
    → Spares o i w w'
    → (out : Buffers) (cs : List Bytes) → Held o j w out cs
    → Held (extend o w.count i) j w' out cs
Held-other {o} {i} {j} {w} other k out cs h = record {
  holds = record {
    shows = Shows-Spares out.msg.bufs cs other k h.mine h.holds.shows;
    owns = h.holds.owns;
  };
  mine = Owns-extend o i j w out.msg.bufs cs h.holds.shows h.mine;
}

-- And so is what the call holds already, where all is kept.
pub Held-Keeps :
    {o : Owner} {i : ℕ} {w w' : World}
    → Keeps w w'
    → (out : Buffers) (cs : List Bytes) → Held o i w out cs
    → Holds w' out cs
    → Held (extend o w.count i) i w' out cs
Held-Keeps {o} {i} {w} k out cs h holds = record {
  holds = holds;
  mine = Owns-extend o i i w out.msg.bufs cs h.holds.shows h.mine;
}

-- What the call has got behind it is its own.
pub Held-Makes :
    {o : Owner} {i : ℕ} {w w' : World} {out out' : Buffers} {cs ss : List Bytes}
    → Held o i w out cs
    → Holds w' out' (cs ++ ss)
    → Makes w out ss w' out'
    → Held (extend o w.count i) i w' out' (cs ++ ss)
Held-Makes {o} {i} {w} {out = out} {out' = out'} {cs = cs} {ss} h holds m =
    let next : map (λ b. b.addr) out'.msg.bufs
        ≡ map (λ b. b.addr) out.msg.bufs ++ made w.count (length ss) =
      sym holds.owns ∙ m.owned ∙ ap (λ ps. ps ++ made w.count (length ss)) h.holds.owns in
    record {
      holds = holds;
      mine = rw next (
          Owns-append _ i _ _ (Owns-extend o i i w out.msg.bufs cs h.holds.shows h.mine)
            (Owns-made o w.count i w.count (length ss) (omega arith)));
    }

pub no_buffers-Held : (o : Owner) (i : ℕ) (w : World) → Held o i w no_buffers []
no_buffers-Held o i w = record { holds = no_buffers-Holds w; mine = tt }

-- A release of the call's strings spares those of the others.
pub release-Spares :
    (o : Owner) (i : ℕ) (ps : List Ptr) (w : World)
    → Owns o i ps
    → Yields (λ _ w'. Spares o i w w') (release ps w)
unfolding release free
release-Spares o i [] w h = yields (record { grows = omega arith; same = λ p le ne. refl })
release-Spares o i (q ∷ ps) w (e, h) = Yields.weaken (release-Spares o i ps _ h) λ _ w' k. record {
  grows = k.grows;
  same = λ p le ne. k.same p le ne ∙ freed_other w q p (λ s. ne (cc (s, e)));
}
  where
    freed_other : (v : World) (a b : Ptr) → a ≢ b → (if a == b then none else v.cell b) ≡ v.cell b
    freed_other v a b d = rw (==_false a b d) refl
