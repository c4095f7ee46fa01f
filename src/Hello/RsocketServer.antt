-- ===== src/Hello/RsocketServer.antt =====
-- The threads of transport_hello_world/rsocket/RequestResponseHelloWorld_Server.cpp: `main`, and the
-- thread that it starts. RSocket is a parameter: whether an `unpark` in front of `startAndPark` is
-- kept for it.
pub mod Ending
use rpc_transport_tests.Prelude.{
  ℕ, zero, suc, ◌≡◌, Bool, true, false, if◌then◌else◌, Option, none, some,
}

-- The server's thread: in front of `startAndPark`, parked in it, and ended.
pub data Thread : Type 0 where
  starting parked ended : Thread

-- `main` behind the start of the thread: in `getchar`, in front of `unpark`, in `join`, and
-- returned with a status.
pub data Main : Type 0 where
  reading unparking joining : Main
  returned : ℕ → Main

pub record Program : Type 0 where
  pub server : Thread
  pub main : Main
  pub unparked : Bool

-- `auto serverThread = std::thread(...)` has been executed.
abbrev pub threads_started : Program
threads_started = record { server = starting; main = reading; unparked = false }

-- What the server's thread does next: it parks, and it ends when it is unparked. `none` where it
-- waits or has ended.
unfoldable pub thread_step : Program → Option Program
thread_step p = elim p.server [
  | starting ↦ some (record p { server = parked })
  | parked ↦ if p.unparked then some (record p { server = ended }) else none
  | ended ↦ none
]

-- What `unpark` leaves for the server's thread.
abbrev pub unpark : Bool → Thread → Bool
unpark kept starting = kept
unpark kept parked = true
unpark kept ended = true

abbrev pub join : Thread → Program → Option Program
join starting p = none
join parked p = none
join ended p = some (record p { main = returned 0 })

-- What `main` does next, with a newline on the console. `none` where it waits or has returned.
unfoldable pub main_step : Bool → Program → Option Program
main_step kept p = elim p.main [
  | reading ↦ some (record p { main = unparking })
  | unparking ↦ some (record p { main = joining; unparked = unpark kept p.server })
  | joining ↦ join p.server p
  | returned status ↦ none
]

-- As many steps of either thread, in any order.
pub data Runs (kept : Bool) : ℕ → Program → Type 0 where
  started : Runs kept 0 threads_started
  by_server : {n : ℕ} {p q : Program} → Runs kept n p → thread_step p ≡ some q → Runs kept (suc n) q
  by_main :
      {n : ℕ} {p q : Program} → Runs kept n p → main_step kept p ≡ some q → Runs kept (suc n) q
