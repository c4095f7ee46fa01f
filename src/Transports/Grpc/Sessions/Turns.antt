-- ===== src/Transports/Grpc/Sessions/Turns.antt =====
-- The single turns of a call of ReqReply, among the strings that other calls own.
use rpc_transport_tests.Prelude.{refl}
use rpc_transport_tests.Prelude.{
  ℕ, suc, ◌+◌, ◌≤◌, ◌==◌, ==_iff, ◌≡◌, inl, inr, Bool-cases, List, [], ◌∷◌, length, take, arith,
}
use rpc_transport_tests.Memory.{Bytes, World, Run, Cmd}
use rpc_transport_tests.Memory.Yields
use rpc_transport_tests.Memory.Yields.{Yields, yields}
use rpc_transport_tests.Machine.{Machine}
use rpc_transport_tests.Transport.{Buffers, ServerClass, no_buffers, call_rcv_fn}
use rpc_transport_tests.Transport.Contracts.{Service, Offers}
use rpc_transport_tests.Transport.Views.{Holds, Keeps-refl, Holds-Keeps, length-Shows}
use rpc_transport_tests.Transports.Streams.{receive-Appends, take_all, take_next, Shows-get_elem?}
use rpc_transport_tests.Transports.Grpc.Unlogged.{read_requests-receive}
use rpc_transport_tests.Transports.Grpc.Sessions.{
  Phase, reading, writing, returned, Handler, read_turn, call_turn, return_turn, write_turn, Due,
  read, call, write,
}
use rpc_transport_tests.Transports.Grpc.Sessions.Ownership.{
  Owner, extend, Spares, Keeps-Spares, Spares-trans, Held, Held-Keeps, Held-Makes, no_buffers-Held,
  release-Spares,
}

-- What is true of a call in a phase: it holds just the strings that came for it, and has written
-- nothing; or the service answers these strings, and it has written those of the answer up to an
-- index; or all, and it holds nothing.
abbrev pub Fits : Service → (Buffers → List Bytes → Type 0) → Handler → Phase → Type 0
Fits s H x reading = H x.rcv x.request × (x.snd ≡ no_buffers) × (x.written ≡ [])
Fits s H x (writing i) =
    (v : World) × (rs : List Bytes) × s.Answer v x.request rs
    × H x.rcv x.request
    × H x.snd rs
    × (i ≤ length rs)
    × (x.written ≡ take i rs)
Fits s H x returned =
    (v : World) × (rs : List Bytes) × s.Answer v x.request rs
    × (x.written ≡ rs)
    × (x.rcv ≡ no_buffers)
    × (x.snd ≡ no_buffers)

pub Fits-map :
    (s : Service) {H K : Buffers → List Bytes → Type 0} (x : Handler) (p : Phase)
    → ((out : Buffers) (cs : List Bytes) → H out cs → K out cs)
    → Fits s H x p
    → Fits s K x p
Fits-map s x reading f (h, e, r) = (f x.rcv x.request h, e, r)
Fits-map s x (writing i) f (v, rs, a, h, k, le, r) =
    (v, rs, a, f x.rcv x.request h, f x.snd rs k, le, r)
Fits-map s x returned f fits = fits

-- A turn of a call ends with the call as it should be, and spares the strings of the others.
abbrev pub Goes : Service → Owner → ℕ → World → Run Handler → Type 0
Goes s o i w = Yields λ x' w'. Spares o i w w' × Fits s (Held (extend o w.count i) i w') x' x'.phase

module _ (env : Machine) (s : Service) (c : ServerClass) (o : Owner) (i : ℕ) (x : Handler)
    (w : World) where
  read_turn-Goes :
      (b : Bytes)
      → x.phase ≡ reading
      → Fits s (Held o i w) x reading
      → Goes s o i w (read_turn env b x w)
  unfolding read_turn
  read_turn-Goes b p (h, e, r) = rw read_requests-receive (
      Yields.then_do (receive-Appends (b ∷ []) x.rcv x.request w h.holds) λ rcv w' (holds, makes).
        yields (Keeps-Spares o i makes.keeps, rw p (Held-Makes h holds makes, e, r)))

  call_turn-Goes :
      (rs : List Bytes)
      → Offers c s
      → s.Answer w x.request rs
      → Fits s (Held o i w) x reading
      → Goes s o i w (call_turn c x w)
  unfolding call_turn call_rcv_fn
  call_turn-Goes rs offers answer (h, e, r) =
      rw (offers, e)
        (Yields.then_do
          (Yields.uncaught (s.answers w x.request rs x.rcv.msg.bufs answer h.holds.shows))
          λ snd u (holds, makes). yields (
            Keeps-Spares o i makes.keeps,
            (
              w,
              rs,
              answer,
              Held-Keeps makes.keeps x.rcv x.request h (Holds-Keeps makes.keeps h.holds),
              Held-Makes (no_buffers-Held o i w) holds makes,
              omega arith,
              r,
            ),
          ))

  return_turn-Goes :
      (v : World) (rs : List Bytes)
      → s.Answer v x.request rs
      → Held o i w x.rcv x.request
      → Held o i w x.snd rs
      → x.written ≡ rs
      → Goes s o i w (return_turn x w)
  unfolding return_turn
  return_turn-Goes v rs answer h k r =
      Yields.then_do (release-Spares o i x.snd.container w (rw k.holds.owns k.mine)) λ _ u a.
        Yields.then_do (release-Spares o i x.rcv.container u (rw h.holds.owns h.mine))
          λ _ u' b. yields (Spares-trans a b, (v, rs, answer, r, refl, refl))

  write_turn-Goes : (k : ℕ) → Fits s (Held o i w) x (writing k) → Goes s o i w (write_turn k x w)
  unfolding write_turn
  write_turn-Goes k (v, rs, answer, h, held, le, r) = elim (Bool-cases (k == length rs)) [
    | inl e ↦
        let whole : k ≡ length rs = (==_iff k (length rs)).0 e in
        rw (length-Shows w x.snd.msg.bufs rs held.holds.shows, e)
          (return_turn-Goes v rs answer h held (rw (r, whole) (take_all rs)))
    | inr e ↦
        let (b, t, at_b, at_t, got) =
          Shows-get_elem? w x.snd.msg.bufs rs k held.holds.shows (ground (arith, le, e)) in
        let one : k + 1 ≡ suc k = omega arith in
        rw (length-Shows w x.snd.msg.bufs rs held.holds.shows, e, at_b, got)
          (yields (
            Keeps-Spares o i (Keeps-refl w),
            (
              v,
              rs,
              answer,
              Held-Keeps (Keeps-refl w) x.rcv x.request h h.holds,
              Held-Keeps (Keeps-refl w) x.snd rs held held.holds,
              ground (arith, le, e),
              rw (r, one) (take_next rs t k at_t),
            ),
          ))
  ]

  pub Due-Goes :
      {run : Cmd Handler}
      → Offers c s
      → Due env s c w x run
      → Fits s (Held o i w) x x.phase
      → Goes s o i w (run w)
  Due-Goes offers (read b p) fits = read_turn-Goes b p (rw p at fits)
  Due-Goes offers (call rs p answer) fits = call_turn-Goes rs offers answer (rw p at fits)
  Due-Goes offers (write k p) fits = write_turn-Goes k (rw p at fits)

-- What a call holds, without its owner.
pub Fits-Holds :
    (s : Service) (o : Owner) (i : ℕ) (w : World) (x : Handler) (p : Phase)
    → Fits s (Held o i w) x p
    → Fits s (Holds w) x p
Fits-Holds s o i w x p = Fits-map s {H = Held o i w} x p λ out cs h. h.holds
