-- ===== src/Hello/RsocketServer/Ending.antt =====
-- How the two threads of the RSocket greeter's server end.
use rpc_transport_tests.Prelude.{
  ℕ, suc, ◌+◌, ◌≤◌, ◌≡◌, refl, ◌⊎◌, inl, inr, Bool, true, false, Option, none, some, arith,
}
use rpc_transport_tests.Hello.RsocketServer.{
  Thread, starting, parked, ended, Main, reading, unparking, joining, returned, Program,
  thread_step, main_step, Runs, started, by_server, by_main,
}

-- The steps that a thread has left.
abbrev thread_left : Thread → ℕ
thread_left starting = 2
thread_left parked = 1
thread_left ended = 0

abbrev main_left : Main → ℕ
main_left reading = 3
main_left unparking = 2
main_left joining = 1
main_left (returned status) = 0

-- What holds of the server's thread where `main` is.
abbrev IsFine : Thread → Main → Bool → Type 0
IsFine t reading u = Unit {0}
IsFine t unparking u = Unit {0}
IsFine t joining u = u ≡ true
IsFine t (returned status) u = (status ≡ 0) × (t ≡ ended)

record IsSound (n : ℕ) (p : Program) : Type 0 where
  taken : n + thread_left p.server + main_left p.main ≡ 5
  fine : IsFine p.server p.main p.unparked

abbrev Each : (Program → Type 0) → Option Program → Type 0
Each P none = Unit {0}
Each P (some p) = P p

thread_step-IsSound :
    (n : ℕ) (t : Thread) (m : Main) (u : Bool)
    → n + thread_left t + main_left m ≡ 5
    → IsFine t m u
    → Each (IsSound (suc n)) (thread_step (record { server = t; main = m; unparked = u }))
unfolding thread_step
thread_step-IsSound n starting reading u e f = record { taken = omega arith; fine = tt }
thread_step-IsSound n starting unparking u e f = record { taken = omega arith; fine = tt }
thread_step-IsSound n starting joining u e f = record { taken = omega arith; fine = f }
thread_step-IsSound n starting (returned s) u e (_, gone) = absurd (cc gone)
thread_step-IsSound n parked reading true e f = record { taken = omega arith; fine = tt }
thread_step-IsSound n parked unparking true e f = record { taken = omega arith; fine = tt }
thread_step-IsSound n parked joining true e f = record { taken = omega arith; fine = f }
thread_step-IsSound n parked (returned s) true e (z, gone) = record {
  taken = omega arith;
  fine = (z, refl);
}
thread_step-IsSound n parked m false e f = tt
thread_step-IsSound n ended m u e f = tt

main_step-IsSound :
    (n : ℕ) (t : Thread) (m : Main) (u : Bool)
    → n + thread_left t + main_left m ≡ 5
    → IsFine t m u
    → Each (IsSound (suc n)) (main_step true (record { server = t; main = m; unparked = u }))
unfolding main_step
main_step-IsSound n t reading u e f = record { taken = omega arith; fine = tt }
main_step-IsSound n starting unparking u e f = record { taken = omega arith; fine = refl }
main_step-IsSound n parked unparking u e f = record { taken = omega arith; fine = refl }
main_step-IsSound n ended unparking u e f = record { taken = omega arith; fine = refl }
main_step-IsSound n starting joining u e f = tt
main_step-IsSound n parked joining u e f = tt
main_step-IsSound n ended joining u e f = record { taken = omega arith; fine = (refl, refl) }
main_step-IsSound n t (returned s) u e f = tt

Runs-IsSound : (n : ℕ) (p : Program) → Runs true n p → IsSound n p
Runs-IsSound n p started = record { taken = refl; fine = tt }
Runs-IsSound n q (by_server {n = m} {p = p} r e) =
    let s = Runs-IsSound m p r in
    rw e at (thread_step-IsSound m p.server p.main p.unparked s.taken s.fine)
Runs-IsSound n q (by_main {n = m} {p = p} r e) =
    let s = Runs-IsSound m p r in
    rw e at (main_step-IsSound m p.server p.main p.unparked s.taken s.fine)

-- One of the threads can go on.
abbrev pub GoesOn : Bool → Program → Type 0
GoesOn kept p = (q : Program) × ((thread_step p ≡ some q) ⊎ (main_step kept p ≡ some q))

goes_on :
    (t : Thread) (m : Main) (u : Bool)
    → IsFine t m u
    → ((m ≡ returned 0) × (t ≡ ended)) ⊎ GoesOn true (record { server = t; main = m; unparked = u })
unfolding thread_step main_step
goes_on t reading u f = inr (_, inr refl)
goes_on t unparking u f = inr (_, inr refl)
goes_on starting joining u f = inr (_, inl refl)
goes_on parked joining u f =
    inr (record { server = ended; main = joining; unparked = u }, inl (rw f refl))
goes_on ended joining u f = inr (_, inr refl)
goes_on t (returned s) u (z, gone) = inl (rw z refl, gone)

-- Where an `unpark` in front of `startAndPark` is kept for it, the threads of the RSocket greeter's
-- server take five steps at most, with a newline on the console and in whatever order; and in every
-- state that they reach, `main` has returned 0 and the other thread has ended, or one of them can
-- go on. Where it is lost, three steps lead to a state in which `main` waits for the other thread
-- and neither goes on.
pub Runs-returned :
    (n : ℕ) (p : Program)
    → Runs true n p
    → (n ≤ 5)
      × (((p.main ≡ returned 0) × (p.server ≡ ended)) ⊎ GoesOn true p)
      × ((q : Program) × Runs false 3 q × (q.main ≡ joining) × (¬ (GoesOn false q)))
unfolding thread_step main_step
Runs-returned n p r =
    let s = Runs-IsSound n p r in
    (
      omega (arith, s.taken),
      goes_on p.server p.main p.unparked s.fine,
      (
        record { server = parked; main = joining; unparked = false },
        by_server (by_main (by_main started refl) refl) refl,
        refl,
        λ (q, e). elim e [ inl h ↦ cc h | inr h ↦ cc h ],
      ),
    )
