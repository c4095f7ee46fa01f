-- ===== src/Calculator.antt =====
-- transport_hello_world/capnproto/calculator-server.c++ and its schema: expressions, functions and
-- values. Cap'n Proto's runtime and the 64-bit floating-point numbers are parameters: a promise is
-- what it resolves to, or `none` where it is rejected, and `Num` stands for the numbers.
pub mod Substitution
pub mod Totality
pub mod Client
pub mod Server
use rpc_transport_tests.Prelude.{
  ℕ, ◌-◌, ◌^◌, ◌==◌, if◌then◌else◌, Option, none, some, List, [], ◌∷◌, length, get_elem?,
}
use rpc_transport_tests.Prelude.Int.{ℤ, pos, negsuc}

-- The arithmetic of `double`.
pub record Floats (Num : Type 0) : Type 0 where
  pub plus : Num → Num → Num
  pub minus : Num → Num → Num
  pub times : Num → Num → Num
  pub over : Num → Num → Num

-- Calculator.Operator, with a value that this schema does not know.
pub data Operator : Type 0 where
  add subtract multiply divide unknown_operator : Operator

-- Calculator.Value: a value of the server, or one of a client, with what its `read` gives.
pub data Value (Num : Type 0) : Type 0 where
  value_impl : Num → Value Num
  remote_value : Option Num → Value Num

-- Calculator.Expression, and Calculator.Function: FunctionImpl, OperatorImpl, or a function of a
-- client, with what its `call` gives.
mutual
  pub data Expression (Num : Type 0) : Type 0 where
    literal : Num → Expression Num
    previous_result : Value Num → Expression Num
    parameter : ℕ → Expression Num
    call : Function Num → Expressions Num → Expression Num
    unknown_expression : Expression Num

  pub data Expressions (Num : Type 0) : Type 0 where
    end : Expressions Num
    item : Expression Num → Expressions Num → Expressions Num

  pub data Function (Num : Type 0) : Type 0 where
    function_impl : ℕ → Expression Num → Function Num
    operator_impl : Operator → Function Num
    remote_function : (List Num → Option Num) → Function Num

-- `then` of a promise.
abbrev pub and_then : {A B : Type 0} → Option A → (A → Option B) → Option B
and_then none k = none
and_then (some a) k = k a

-- The `paramCount` of the schema as FunctionImpl keeps it, a `uint`.
abbrev pub to_uint : ℤ → ℕ
to_uint (pos n) = n
to_uint (negsuc n) = 2 ^ 32 - 1 - n

module _ {Num : Type 0} where
  -- `ValueImpl::read`, through `readValue`
  abbrev pub read_value : Value Num → Option Num
  read_value (value_impl x) = some x
  read_value (remote_value r) = r

  module _ (floats : Floats Num) where
    abbrev pub operator_result : Operator → Num → Num → Option Num
    operator_result add x y = some (floats.plus x y)
    operator_result subtract x y = some (floats.minus x y)
    operator_result multiply x y = some (floats.times x y)
    operator_result divide x y = some (floats.over x y)
    operator_result unknown_operator x y = none

    -- `OperatorImpl::call`
    abbrev pub operator_call : Operator → List Num → Option Num
    operator_call op (x ∷ y ∷ []) = operator_result op x y
    operator_call op _ = none

    -- `evaluateImpl`, its `KJ_MAP` over the parameters with `joinPromises`, and `call`.
    unfoldable mutual
      pub evaluate_impl : Expression Num → List Num → Option Num
      evaluate_impl (literal x) params = some x
      evaluate_impl (previous_result v) params = read_value v
      evaluate_impl (parameter i) params = get_elem? params i
      evaluate_impl (call f es) params = and_then (evaluate_all es params) (function_call f)
      evaluate_impl unknown_expression params = none

      pub evaluate_all : Expressions Num → List Num → Option (List Num)
      evaluate_all end params = some []
      evaluate_all (item e es) params =
          and_then (evaluate_impl e params)
            λ x. and_then (evaluate_all es params) λ xs. some (x ∷ xs)

      pub function_call : Function Num → List Num → Option Num
      function_call (function_impl param_count body) params =
          let result = evaluate_impl body params in
          if length params == param_count then result else none
      function_call (operator_impl op) params = operator_call op params
      function_call (remote_function f) params = f params

    -- `CalculatorImpl::evaluate`
    unfoldable pub evaluate : Expression Num → Option (Value Num)
    unfolding evaluate_impl
    evaluate e = and_then (evaluate_impl e []) λ x. some (value_impl x)

  -- `CalculatorImpl::defFunction`
  unfoldable pub def_function : ℤ → Expression Num → Function Num
  def_function param_count body = function_impl (to_uint param_count) body

  -- `CalculatorImpl::getOperator`
  unfoldable pub get_operator : Operator → Function Num
  get_operator op = operator_impl op
