-- ===== src/Tests/Greeting.antt =====
-- The greeters at concrete names, and a client of the asynchronous greeter to its end.
use rpc_transport_tests.Greeter.{run}
use rpc_transport_tests.Hello.RsocketServer.{
  Program, parked, ended, joining, returned, thread_step, main_step, Runs, started, by_server,
  by_main,
}
use rpc_transport_tests.Hello.RsocketServer.Ending.{GoesOn, Runs-returned}
use rpc_transport_tests.Prelude.{
  true, false, ◌⊎◌, set, ==_refl, ◌==◌, ℕ, zero, suc, ◌+◌, ◌≤◌, ◌<◌, ◌≡◌, ◌↔◌, refl, inl, inr,
  Bool-cases, Option, none, some, List, [], ◌∷◌, ◌++◌, map, length, All, codes, arith,
}
use rpc_transport_tests.Prelude.Int.{pos, pos_part}
use rpc_transport_tests.Memory.{Bytes}
use rpc_transport_tests.Transports.Grpc.{Status, status_ok}
use rpc_transport_tests.Hello.GreeterServer
use rpc_transport_tests.Hello.GreeterClient
use rpc_transport_tests.Hello.GreeterClient.{find, target, target_of, greeter_client_main, char_at}
use rpc_transport_tests.Hello.Target.{target_of-target}
use rpc_transport_tests.Hello.AsyncClient
use rpc_transport_tests.Hello.AsyncClient.{returned}
use rpc_transport_tests.Hello.FlatbuffersServer
use rpc_transport_tests.Hello.FlatbuffersServer.{write_hellos}
use rpc_transport_tests.Hello.FlatbuffersServer.{write_hellos}
use rpc_transport_tests.Hello.FlatbuffersClient
use rpc_transport_tests.Hello.FlatbuffersClient.{called}
use rpc_transport_tests.Hello.RsocketGreeter.{handle_request_response, rsocket_client_main}
use rpc_transport_tests.Hello.Greetings.{IsJoined, finished, greetings}
use rpc_transport_tests.Hello.AsyncClient2.{
  AsyncClientCall, GreeterClient, event, initial_client, new_call, say_hello, user_of,
  async_complete_rpc, prompt_lines, say, arrive, complete, Reach, started, next,
}
use rpc_transport_tests.Hello.AsyncClient2.Soundness.{completed}
use rpc_transport_tests.Hello.AsyncClient2.Completion.{upto}

target_of-target_example : (target_of (codes "--target=host:1" ∷ []) ≡ target (codes "host:1")) ↔ (
    (pre : Bytes) × (codes "--target=host:1" ≡ (pre ++ codes "--target") ++ (b'=' ∷ codes "host:1"))
    × (find (codes "--target=host:1") (codes "--target") ≡ some (length pre)))
target_of-target_example = target_of-target (codes "--target=host:1") (codes "host:1") []

-- What comes before the option does not matter.
target_behind_other : target_of (codes "x--target=y" ∷ []) ≡ target (codes "y")
unfolding target_of find char_at
target_behind_other = refl

client_says_world :
    greeter_client_main (λ a. GreeterServer.say_hello) []
    ≡ codes "Greeter received: Hello world" ∷ []
unfolding greeter_client_main target_of GreeterClient.say_hello GreeterServer.say_hello
client_says_world = refl

client_says_jane :
    rsocket_client_main (λ p. some (handle_request_response p))
    ≡ codes "Received >> Hello Jane!" ∷ []
unfolding rsocket_client_main handle_request_response
client_says_jane = refl

abbrev given : {A : Type 0} → A → Option A → A
given d none = d
given d (some a) = a

abbrev greeter_stub : FlatbuffersClient.Stub
greeter_stub = record {
  hello = λ r. given (status_ok, record { message = none }) (FlatbuffersServer.say_hello r);
  many_hellos = λ r. given ([], status_ok) (FlatbuffersServer.say_many_hellos r);
}

greeter_stub-IsJoined : IsJoined greeter_stub
greeter_stub-IsJoined = record {
  hello = λ r answer e. rw e refl;
  many_hellos = λ r answer e. rw e refl;
}

greetings_example :
    (ms : List Bytes) × (AsyncClient.say_hello (finished GreeterServer.say_hello) (codes "world")
      ≡ returned (GreeterClient.say_hello GreeterServer.say_hello (codes "world")).0)
    × (GreeterClient.say_hello GreeterServer.say_hello (codes "world")
        ≡ (codes "Hello " ++ codes "world", []))
    × (FlatbuffersClient.say_hello greeter_stub (codes "world")
        ≡ some (codes "Hello, " ++ codes "world", []))
    × (FlatbuffersClient.say_many_hellos greeter_stub (codes "world") (pos 10)
        ≡ some (map (λ m. called m) ms))
    × (length ms ≡ pos_part (pos 10))
    × All (λ m. m ≡ codes "Many hellos, " ++ codes "world") ms
greetings_example =
    greetings GreeterServer.say_hello greeter_stub (codes "world") (pos 10) greeter_stub-IsJoined

flatbuffers_client_says_world :
    FlatbuffersClient.flatbuffers_greeter_main greeter_stub
    ≡ some (
        codes "Greeter received: Hello, world"
        ∷ map (λ i. codes "Greeter received: Many hellos, world") (upto 10))
unfolding FlatbuffersClient.flatbuffers_greeter_main FlatbuffersClient.say_hello
    FlatbuffersClient.say_many_hellos FlatbuffersServer.say_hello FlatbuffersServer.say_many_hellos
    write_hellos FlatbuffersClient.messages
flatbuffers_client_says_world = refl

-- The client of greeter_async_client2.cc where each call is completed before the next one is made.
record Rounds (n : ℕ) : Type 0 where
  g : GreeterClient
  reached : Reach GreeterServer.say_hello g
  made : g.i ≡ n
  quiet : g.prompted ≡ false
  idle : (t : ℕ) → g.pending t ≡ none

-- A call that is made, and the answer to it.
abbrev made_call : GreeterClient → GreeterClient
unfolding say_hello
made_call g = record (say_hello (user_of g.i) g) { i = g.i + 1 }

abbrev answer_to : Bytes → Status × Bytes
answer_to user = GreeterServer.say_hello user

abbrev answered_call : GreeterClient → AsyncClientCall
answered_call g = record {
  status = (answer_to (user_of g.i)).0;
  message = (answer_to (user_of g.i)).1;
}

abbrev answered : GreeterClient → GreeterClient
answered g = record (made_call g) {
  calls = set (made_call g).calls g.count (some (answered_call g));
  pending = set (made_call g).pending g.count (some event);
}

round : (n : ℕ) → n < 100 → Rounds n → Rounds (suc n)
unfolding say_hello async_complete_rpc
round n h r = record {
  g = completed GreeterServer.say_hello r.g.count (answered_call r.g) (answered r.g);
  reached =
      next
        (next (next r.reached (say (omega (arith, h, r.made)))) (
          arrive r.g.count (user_of r.g.i) new_call (rw (==_refl r.g.count) refl)
            (rw (==_refl r.g.count) refl)))
        (complete r.g.count (rw (==_refl r.g.count) refl) (rw (==_refl r.g.count) refl));
  made = omega (arith, r.made);
  quiet = r.quiet;
  idle = λ t. elim (Bool-cases (r.g.count == t)) [ inl e ↦ rw e refl | inr e ↦ rw e (r.idle t) ];
}

rounds : (n : ℕ) → n ≤ 100 → Rounds n
rounds zero h = record {
  g = initial_client;
  reached = started;
  made = refl;
  quiet = refl;
  idle = λ t. refl;
}
rounds (suc n) h = round n (omega (arith, h)) (rounds n (omega (arith, h)))

all-Rounds : Rounds 100
all-Rounds = rounds 100 (omega arith)

-- After that `main` writes its own lines and waits.
abbrev waiting : GreeterClient
waiting = record all-Rounds.g { prompted = true; written = all-Rounds.g.written ++ prompt_lines }

-- `unpark` comes first.
abbrev unparked_early : Program
unparked_early = record { server = parked; main = joining; unparked = true }

Runs-returned_example :
    (3 ≤ 5)
    × (((unparked_early.main ≡ returned 0) × (unparked_early.server ≡ ended))
        ⊎ GoesOn true unparked_early)
    × ((q : Program) × Runs false 3 q × (q.main ≡ joining) × (¬ (GoesOn false q)))
unfolding thread_step main_step
Runs-returned_example =
    Runs-returned 3 unparked_early (by_server (by_main (by_main started refl) refl) refl)

run_line : run.0 ≡ codes "Server listening on 0.0.0.0:50051" ∷ []
unfolding run
run_line = refl
