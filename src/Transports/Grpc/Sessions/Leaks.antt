-- ===== src/Transports/Grpc/Sessions/Leaks.antt =====
-- What the calls of ReqReply leave in memory.
use rpc_transport_tests.Prelude.{
  ℕ, zero, suc, ◌+◌, ◌≤◌, ◌<◌, ◌==◌, ◌≡◌, ◌∙◌, refl, sym, ◌⊎◌, inl, inr, Bool, true, false,
  Bool-cases, if◌then◌else◌, none, Option, List, [], ◌∷◌, ◌++◌, All, length, arith, ltb, ltb→lt, ap,
}
use rpc_transport_tests.Memory.{Ptr, Bytes, World, Cmd, Object, free}
use rpc_transport_tests.Memory.Yields
use rpc_transport_tests.Memory.Yields.{Yields, yields}
use rpc_transport_tests.Machine.{Machine}
use rpc_transport_tests.Transport.{ServerClass, no_buffers, call_rcv_fn}
use rpc_transport_tests.Transport.Contracts.{Service, Offers}
use rpc_transport_tests.Transport.Views.{Appends, length-Shows, Holds, Keeps, Keeps-refl, made}
use rpc_transport_tests.Transports.Streams.{release, receive-Appends, Shows-get_elem?}
use rpc_transport_tests.Transports.Grpc.Sessions.Turns.{Fits}
use mathlib.Core.List.{append-nil, append_assoc}
use mathlib.Core.Path.{subst}
use rpc_transport_tests.Transports.Grpc.Unlogged.{read_requests-receive}
use rpc_transport_tests.Transports.Grpc.Sessions.{
  writing, Handler, read_turn, call_turn, return_turn, write_turn, Due, read, call, write,
}

-- An address is among those of a list.
abbrev pub has : Ptr → List Ptr → Bool
has p [] = false
has p (q ∷ qs) = if q == p then true else has p qs

has-append : (p : Ptr) (ps qs : List Ptr) → has p (ps ++ qs) ≡ (if has p ps then true else has p qs)
has-append p [] qs = refl
has-append p (q ∷ ps) qs = elim (Bool-cases (q == p)) [
  | inl e ↦ rw e refl
  | inr e ↦ rw e (has-append p ps qs)
]

has-made : (p n k : ℕ) → n < p → p ≤ n + k → has p (made n k) ≡ true
has-made p n zero lt le = absurd (omega (arith, lt, le))
has-made p n (suc k) lt le = elim (Bool-cases (suc n == p)) [
  | inl e ↦ rw e refl
  | inr e ↦ rw e (has-made p (suc n) k (ground (arith, lt, e)) (omega (arith, le)))
]

All-append : (P : Ptr → Type 0) (ps qs : List Ptr) → All P ps → All P qs → All P (ps ++ qs)
All-append P [] qs h k = k
All-append P (p ∷ ps) qs (x, h) k = (x, All-append P ps qs h k)

All-made : (n m k : ℕ) → n ≤ m → All (λ p. n < p) (made m k)
All-made n m zero le = tt
All-made n m (suc k) le = (omega (arith, le), All-made n (suc m) k (omega (arith, le)))

not_old : (n p : ℕ) (ps : List Ptr) → All (λ q. n < q) ps → p ≤ n → has p ps ≡ false
not_old n p [] h le = refl
not_old n p (q ∷ ps) (x, h) le = elim (Bool-cases (q == p)) [
  | inl e ↦ absurd (ground (arith, x, le, e))
  | inr e ↦ rw e (not_old n p ps h le)
]

-- The addresses of a container are empty behind its release, and the others are as they were.
release-has :
    (ps : List Ptr) (w : World)
    → Yields
        (λ _ w'.
          (w'.count ≡ w.count) × ((p : Ptr) → w'.cell p ≡ (if has p ps then none else w.cell p)))
        (release ps w)
unfolding release free
release-has [] w = yields (refl, λ p. refl)
release-has (q ∷ ps) w = Yields.weaken (release-has ps _) λ _ w' (e, cells). (
  e,
  λ p. elim (Bool-cases (q == p)) [
    | inl s ↦ elim (Bool-cases (has p ps)) [
      | inl h ↦ cells p ∙ (rw (s, h) refl)
      | inr h ↦ cells p ∙ (rw (s, h) refl)
    ]
    | inr s ↦ cells p ∙ (rw s refl)
  ],
)

released_both :
    (p : Ptr) (ps qs : List Ptr) (o : Option Object)
    → (if has p ps then none else (if has p qs then none else o))
      ≡ (if has p (ps ++ qs) then none else o)
released_both p ps qs o =
    rw (has-append p ps qs) (elim (Bool-cases (has p ps)) [ inl e ↦ rw e refl | inr e ↦ rw e refl ])

-- The addresses that a call owns.
abbrev pub strings : Handler → List Ptr
strings x = x.rcv.container ++ x.snd.container

got_more : (ps qs ms ps' : List Ptr) → qs ≡ [] → ps' ≡ ps ++ ms → ps' ++ qs ≡ (ps ++ qs) ++ ms
got_more ps qs ms ps' e e' = rw (e, e', append-nil ps) (append-nil (ps ++ ms))

-- What a turn of a call leaves behind `n`: what is live there is the call's, or was live before and
-- is still the call's if it was.
pub record Tidy (n : ℕ) (x : Handler) (w : World) (x' : Handler) (w' : World) : Type 0 where
  pub grows : w.count ≤ w'.count
  pub old : (p : Ptr) → p ≤ n → w'.cell p ≡ w.cell p
  pub young : All (λ p. n < p) (strings x')
  pub live :
      (p : Ptr)
      → p ≤ w'.count
      → (w'.cell p ≡ none)
        ⊎ ((has p (strings x') ≡ true)
            ⊎ ((p ≤ w.count)
                × (w'.cell p ≡ w.cell p)
                × (has p (strings x) ≡ true → has p (strings x') ≡ true)))

-- A turn that only makes strings, which the call gets.
Keeps-Tidy :
    (n k : ℕ) (x x' : Handler) {w w' : World}
    → n ≤ w.count
    → All (λ p. n < p) (strings x)
    → Keeps w w'
    → w'.count ≡ w.count + k
    → strings x' ≡ strings x ++ made w.count k
    → Tidy n x w x' w'
Keeps-Tidy n k x x' {w} {w'} above young keeps count gets = record {
  grows = keeps.grows;
  old = λ p le. keeps.same p (omega (arith, le, above));
  young = rw gets (All-append _ (strings x) _ young (All-made n w.count k above));
  live = λ p le. elim (Bool-cases (ltb w.count p)) [
    | inl e ↦
        let new : has p (made w.count k) ≡ true =
          has-made p w.count k (ltb→lt w.count p e) (omega (arith, le, count)) in
        inr (
          inl (
            rw (gets, has-append p (strings x) (made w.count k), new) (either (has p (strings x)))))
    | inr e ↦
        let there : p ≤ w.count = ground (arith, e) in
        inr (
          inr (
            there,
            keeps.same p there,
            λ h. rw (gets, has-append p (strings x) (made w.count k), h) refl,
          ))
  ];
}
  where
    either : (b : Bool) → (if b then true else true) ≡ true
    either true = refl
    either false = refl

module _ (env : Machine) (s : Service) (c : ServerClass) (x : Handler) (n : ℕ) (w : World)
    (above : n ≤ w.count) (young : All (λ p. n < p) (strings x)) where
  return_turn-Tidy : Yields (λ x' w'. Tidy n x w x' w') (return_turn x w)
  unfolding return_turn
  return_turn-Tidy = Yields.then_do (release-has x.snd.container w) λ _ u (e, sent).
      Yields.then_do (release-has x.rcv.container u) λ _ v (e', came).
        let cells : (p : Ptr) → v.cell p ≡ (if has p (strings x) then none else w.cell p) = λ p.
          came p
          ∙ ap (λ o. if has p x.rcv.container then none else o) (sent p)
          ∙ released_both p x.rcv.container x.snd.container (w.cell p) in
        yields (record {
          grows = omega (arith, e, e');
          old = λ p le. cells p ∙ (rw (not_old n p (strings x) young le) refl);
          young = tt;
          live = λ p le. elim (Bool-cases (has p (strings x))) [
            | inl h ↦ inl (cells p ∙ (rw h refl))
            | inr h ↦
                inr (inr (omega (arith, le, e, e'), cells p ∙ (rw h refl), λ t. absurd (cc (t, h))))
          ];
        })

  read_turn-Tidy :
      (b : Bytes)
      → Holds w x.rcv x.request
      → x.snd ≡ no_buffers
      → Yields (λ x' w'. Tidy n x w x' w') (read_turn env b x w)
  unfolding read_turn
  read_turn-Tidy b h e = rw read_requests-receive (
      Yields.then_do (receive-Appends (b ∷ []) x.rcv x.request w h) λ rcv w' (holds, makes).
        yields (
          Keeps-Tidy n 1 x _ above young makes.keeps makes.count
            (got_more x.rcv.container x.snd.container _ rcv.container (rw e refl) makes.owned)))

  call_turn-Tidy :
      (rs : List Bytes)
      → Offers c s
      → s.Answer w x.request rs
      → Holds w x.rcv x.request
      → x.snd ≡ no_buffers
      → Yields (λ x' w'. Tidy n x w x' w') (call_turn c x w)
  unfolding call_turn call_rcv_fn
  call_turn-Tidy rs offers answer h e =
      let answered : Appends w x.snd [] rs (s.fn (record { bufs = x.rcv.msg.bufs }) x.snd w) =
        subst (λ b. Appends w b [] rs (s.fn (record { bufs = x.rcv.msg.bufs }) b w)) (sym e)
          (s.answers w x.request rs x.rcv.msg.bufs answer h.shows) in
      rw offers (
        Yields.then_do (Yields.uncaught answered) λ snd u (holds, makes). yields (
          Keeps-Tidy n (length rs) x (record x { snd = snd; phase = writing 0 }) above young
            makes.keeps makes.count
            (rw makes.owned (sym (append_assoc x.rcv.container x.snd.container _)))))

  write_turn-Tidy :
      (k : ℕ) (rs : List Bytes)
      → Holds w x.snd rs
      → k ≤ length rs
      → Yields (λ x' w'. Tidy n x w x' w') (write_turn k x w)
  unfolding write_turn
  write_turn-Tidy k rs h le = elim (Bool-cases (k == length rs)) [
    | inl e ↦ rw (length-Shows w x.snd.msg.bufs rs h.shows, e) return_turn-Tidy
    | inr e ↦
        let (b, t, at_b, at_t, got) =
          Shows-get_elem? w x.snd.msg.bufs rs k h.shows (ground (arith, le, e)) in
        rw (length-Shows w x.snd.msg.bufs rs h.shows, e, at_b, got)
          (yields (
            Keeps-Tidy n 0 x _ above young (Keeps-refl w) (omega arith)
              (sym (append-nil (strings x)))))
  ]

  pub Due-Tidy :
      {run : Cmd Handler}
      → Offers c s
      → Due env s c w x run
      → Fits s (Holds w) x x.phase
      → Yields (λ x' w'. Tidy n x w x' w') (run w)
  Due-Tidy offers (read b p) fits = let (h, e, _) = rw p at fits in read_turn-Tidy b h e
  Due-Tidy offers (call rs p answer) fits =
      let (h, e, _) = rw p at fits in call_turn-Tidy rs offers answer h e
  Due-Tidy offers (write k p) fits =
      let (v, rs, _, _, h, le, _) = rw p at fits in write_turn-Tidy k rs h le
