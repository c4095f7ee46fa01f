-- ===== src/Tests/Examples.antt =====
-- The example servers at concrete inputs.
use rpc_transport_tests.Prelude.{
  set, ℕ, suc, ◌+◌, ◌-◌, ◌*◌, ◌/◌, ◌^◌, ◌==◌, ==_iff, ◌≡◌, refl, some, none, [], ◌∷◌, codes,
}
use rpc_transport_tests.Prelude.Int.{pos}
use rpc_transport_tests.Calculator.{
  Floats, add, Expression, literal, parameter, call, end, item, operator_impl, evaluate,
  evaluate_impl, function_call, def_function,
}
use rpc_transport_tests.Calculator.Substitution.{fill_in, function_call-fill_in}
use rpc_transport_tests.Calculator.Totality.{IsWell, Resolves, evaluate-Resolves}
use rpc_transport_tests.Prelude.Decimal.{to_string}
use rpc_transport_tests.Calculator.Server.{ended, server_usage, calculator_server_main}
use rpc_transport_tests.Calculator.Client.{
  Doubles, IsExact, passes, calculator_client_main, calculator_client_main-passes,
}
use rpc_transport_tests.Prelude.{List, arith, ◌⊎◌}
use rpc_transport_tests.Streaming.{
  Call, client_strings, serve_strings, server_strings, collect_strings, req_reply, written_lines,
  streaming_client_main,
}
use rpc_transport_tests.Streaming.Echo.{texts, printed, streaming_echo}
use rpc_transport_tests.Greeter.{
  ServerImpl, Step, process, event, proceed, initial_server, Reach, started, next, arrive,
}
use rpc_transport_tests.Greeter.Safety.{IsAccepting, Reach-proceed}
use rpc_transport_tests.Greeter.Stages.{Stage, stepper}
use rpc_transport_tests.Greeter.Liveness.{Reach-Runs, rest, own}

-- Natural numbers for `double`.
abbrev numbers : Floats ℕ
numbers = record {
  plus = λ a b. a + b;
  minus = λ a b. a - b;
  times = λ a b. a * b;
  over = λ a b. a / b;
}

abbrev doubles : Doubles ℕ
doubles = record { floats = numbers; of_nat = λ n. n; same = λ a b. a == b; pow = λ a b. a ^ b }

doubles-IsExact : IsExact doubles
doubles-IsExact = record {
  plus = λ a b h. refl;
  minus = λ a b h le. refl;
  times = λ a b h. refl;
  power = λ a b h. refl;
  refl_same = λ a. (==_iff a a).1 refl;
}

calculator_client_main-passes_example :
    calculator_client_main doubles 2 (codes "client") ≡ some (0, passes)
calculator_client_main-passes_example =
    calculator_client_main-passes doubles doubles-IsExact (codes "client")

-- x + 5
abbrev plus_five : Expression ℕ
plus_five = call (operator_impl add) (item (parameter 0) (item (literal 5) end))

function_call-fill_in_example :
    function_call numbers (def_function (pos 1) plus_five) (7 ∷ [])
    ≡ evaluate_impl numbers (fill_in plus_five (7 ∷ [])) []
function_call-fill_in_example = function_call-fill_in numbers 1 plus_five (7 ∷ []) refl

abbrev seven_plus_five : Expression ℕ
seven_plus_five = call (operator_impl add) (item (literal 7) (item (literal 5) end))

evaluate-Resolves_example : Resolves (evaluate numbers seven_plus_five)
unfolding IsWell
evaluate-Resolves_example = evaluate-Resolves numbers seven_plus_five ((refl, tt), (tt, (tt, tt)))

-- The server with a request at its first call.
abbrev asked_server : ServerImpl
asked_server = record initial_server {
  calls =
      set initial_server.calls 0
        (some (record { status = process; name = codes "world"; message = [] }));
  pending = set initial_server.pending 0 (some event);
}

asked_server-Reach : Reach asked_server
unfolding initial_server
asked_server-Reach =
    next started
      (arrive 0 (record { status = process; name = []; message = [] }) (codes "world") refl refl)

Reach-proceed_example :
    IsAccepting asked_server
    × ((s' : ServerImpl) × (proceed 0
            (record asked_server { pending = set asked_server.pending 0 none })
          ≡ some s')
        × IsAccepting s')
Reach-proceed_example = Reach-proceed asked_server 0 asked_server-Reach refl

-- The strings `Test 1` to `Test 10`.
streaming_echo_example :
    (calls : List Call) × (back : List Call) × (client_strings 11 1 11 ≡ some calls)
    × (serve_strings calls req_reply ≡ some back)
    × (collect_strings back [] ≡ texts 1 10)
    × (written_lines (codes "Server") calls req_reply ≡ printed (codes "Server") (texts 1 10))
    × (written_lines (codes "Client") back [] ≡ printed (codes "Client") (texts 1 10))
streaming_echo_example = streaming_echo 1 10 (omega arith)

-- The programs of the streaming example together.
streaming_programs :
    streaming_client_main (λ calls. serve_strings calls req_reply)
    ≡ some (0, printed (codes "Client") (texts 1 10))
unfolding streaming_client_main serve_strings server_strings req_reply to_string
streaming_programs = refl

-- The calculator's server without an argument, and with one.
usage_lines :
    calculator_server_main (λ a. 54321) (codes "server") []
    ≡ ended 1 (server_usage (codes "server"))
unfolding calculator_server_main
usage_lines = refl

-- A request comes, is handled, its reply is sent, and the call is deleted.
Reach-Runs_example :
    Stage 0 asked_server 1
    × ((suc 0 ≡ 4) ⊎ ((s'' : ServerImpl) × (st : Step asked_server s'') × (stepper st ≡ 0)))
unfolding initial_server
Reach-Runs_example =
    Reach-Runs initial_server asked_server 0 1
      (record { status = process; name = []; message = [] }) started refl refl
      (own
        (arrive 0 (record { status = process; name = []; message = [] }) (codes "world") refl refl)
        refl rest)
