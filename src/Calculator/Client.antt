-- ===== src/Calculator/Client.antt =====
-- transport_hello_world/capnproto/calculator-client.c++: what it asks of the calculator, and what it
-- asserts.
use rpc_transport_tests.Prelude.{
  codes, ◌++◌, ℕ, ◌+◌, ◌-◌, ◌*◌, ◌^◌, ◌==◌, ◌≡◌, Bool, true, if◌then◌else◌, Option, none, some,
  List, [], ◌∷◌, arith, ◌≤◌, ◌<◌,
}
use rpc_transport_tests.Prelude.Int.{pos}
use rpc_transport_tests.Memory.{Bytes}
use rpc_transport_tests.Calculator.{
  Floats, add, subtract, multiply, Value, read_value, Expression, literal, previous_result,
  parameter, call, Expressions, end, item, Function, remote_function, evaluate_impl, evaluate,
  and_then, def_function, get_operator,
}

-- The numbers of the client: those of integers, `==`, and `pow`.
pub record Doubles (Num : Type 0) : Type 0 where
  pub floats : Floats Num
  pub of_nat : ℕ → Num
  pub same : Num → Num → Bool
  pub pow : Num → Num → Num

-- What is written without arguments, or with more than one.
abbrev pub client_usage : Bytes → List Bytes
client_usage program =
    (codes "usage: " ++ (program ++ codes " HOST:PORT"))
    ∷ codes "Connects to the Calculator server at the given address and does some RPCs."
    ∷ []

-- What is written where no assertion fails.
abbrev pub passes : List Bytes
passes =
    codes "Evaluating a literal... PASS"
    ∷ codes "Using add and subtract... PASS"
    ∷ codes "Pipelining eval() calls... PASS"
    ∷ codes "Defining functions... PASS"
    ∷ codes "Using a callback... PASS"
    ∷ []

-- The line of a block of `main` whose assertions hold: its heading, and PASS behind them.
abbrev passed : Option (Unit {0}) → Bytes → Option Bytes
passed checks heading = and_then checks λ _. some (heading ++ codes " PASS")

module _ {Num : Type 0} where
  abbrev two : Expression Num → Expression Num → Expressions Num
  two x y = item x (item y end)

  module _ (doubles : Doubles Num) where
    abbrev lit : ℕ → Expression Num
    lit n = literal (doubles.of_nat n)

    -- `PowerFunction`
    abbrev pub power_function : List Num → Option Num
    power_function (x ∷ y ∷ []) = some (doubles.pow x y)
    power_function _ = none

    -- `KJ_ASSERT(response.getValue() == n)` behind `read` and `wait`. A failure throws.
    abbrev assert_value : Option (Value Num) → ℕ → Option (Unit {0})
    assert_value promise n = and_then promise λ v.
        and_then (read_value v) λ x. if doubles.same x (doubles.of_nat n) then some tt else none

    evaluating_a_literal : Option Bytes
    evaluating_a_literal =
        passed (assert_value (evaluate doubles.floats (lit 123)) 123)
          (codes "Evaluating a literal...")

    -- 123 + 45 - 67
    using_add_and_subtract : Option Bytes
    using_add_and_subtract =
        passed
          (assert_value
            (evaluate doubles.floats (
              call (get_operator subtract)
                (two (call (get_operator add) (two (lit 123) (lit 45))) (lit 67))))
            101)
          (codes "Using add and subtract...")

    -- 4 * 6, whose value two more requests add to.
    pipelining_eval_calls : Option Bytes
    pipelining_eval_calls =
        and_then (evaluate doubles.floats (call (get_operator multiply) (two (lit 4) (lit 6))))
          λ product.
            and_then
              (assert_value
                (evaluate doubles.floats
                  (call (get_operator add) (two (previous_result product) (lit 3))))
                27)
              λ _.
                passed
                  (assert_value
                    (evaluate doubles.floats
                      (call (get_operator add) (two (previous_result product) (lit 5))))
                    29)
                  (codes "Pipelining eval() calls...")

    -- f(x, y) = x * 100 + y
    abbrev f : Function Num
    f = def_function (pos 2) (
        call (get_operator add)
          (two (call (get_operator multiply) (two (parameter 0) (lit 100))) (parameter 1)))

    -- g(x) = f(x, x + 1) * 2
    abbrev g : Function Num
    g = def_function (pos 1) (
        call (get_operator multiply) (
          two (call f (two (parameter 0) (call (get_operator add) (two (parameter 0) (lit 1)))))
            (lit 2)))

    defining_functions : Option Bytes
    defining_functions =
        and_then (assert_value (evaluate doubles.floats (call f (two (lit 12) (lit 34)))) 1234) λ _.
          passed (assert_value (evaluate doubles.floats (call g (item (lit 21) end))) 4244)
            (codes "Defining functions...")

    -- 2^(4 + 5), with the client's own function.
    using_a_callback : Option Bytes
    using_a_callback =
        passed
          (assert_value
            (evaluate doubles.floats (
              call (remote_function power_function)
                (two (lit 2) (call (get_operator add) (two (lit 4) (lit 5))))))
            512)
          (codes "Using a callback...")

    -- The exit status and the lines, or `none` for an exception.
    unfoldable pub calculator_client_main : ℕ → Bytes → Option (ℕ × List Bytes)
    unfolding evaluating_a_literal using_add_and_subtract pipelining_eval_calls defining_functions
        using_a_callback
    calculator_client_main argc program =
        if argc == 2
        then (and_then evaluating_a_literal λ a. and_then using_add_and_subtract λ b.
            and_then pipelining_eval_calls λ c.
              and_then defining_functions
                λ d. and_then using_a_callback λ e. some (0, a ∷ b ∷ c ∷ d ∷ e ∷ []))
        else some (1, client_usage program)

-- The arithmetic of numbers below 2^53 is exact.
pub record IsExact {Num : Type 0} (doubles : Doubles Num) : Type 0 where
  pub plus :
      (a b : ℕ)
      → a + b < 2 ^ 53
      → doubles.floats.plus (doubles.of_nat a) (doubles.of_nat b) ≡ doubles.of_nat (a + b)
  pub minus :
      (a b : ℕ)
      → a < 2 ^ 53
      → b ≤ a
      → doubles.floats.minus (doubles.of_nat a) (doubles.of_nat b) ≡ doubles.of_nat (a - b)
  pub times :
      (a b : ℕ)
      → a * b < 2 ^ 53
      → doubles.floats.times (doubles.of_nat a) (doubles.of_nat b) ≡ doubles.of_nat (a * b)
  pub power :
      (a b : ℕ)
      → a ^ b < 2 ^ 53
      → doubles.pow (doubles.of_nat a) (doubles.of_nat b) ≡ doubles.of_nat (a ^ b)
  pub refl_same : (a : ℕ) → doubles.same (doubles.of_nat a) (doubles.of_nat a) ≡ true

module _ {Num : Type 0} (doubles : Doubles Num) (exact : IsExact doubles) where
  -- Where the arithmetic of integers below 2^53 is exact, every assertion of the calculator's
  -- client holds against the server, and the client ends with status 0 and has written PASS behind
  -- each of its five headings.
  pub calculator_client_main-passes :
      (program : Bytes) → calculator_client_main doubles 2 program ≡ some (0, passes)
  unfolding calculator_client_main evaluate evaluate_impl get_operator def_function
  calculator_client_main-passes program = rw (
    exact.refl_same 123,
    exact.plus 123 45 (omega arith),
    exact.minus 168 67 (omega arith) (omega arith),
    exact.refl_same 101,
    exact.times 4 6 (omega arith),
    exact.plus 24 3 (omega arith),
    exact.refl_same 27,
    exact.plus 24 5 (omega arith),
    exact.refl_same 29,
    exact.times 12 100 (omega arith),
    exact.plus 1200 34 (omega arith),
    exact.refl_same 1234,
    exact.times 21 100 (omega arith),
    exact.plus 21 1 (omega arith),
    exact.plus 2100 22 (omega arith),
    exact.times 2122 2 (omega arith),
    exact.refl_same 4244,
    exact.plus 4 5 (omega arith),
    exact.power 2 9 (omega arith),
    exact.refl_same 512,
  )
