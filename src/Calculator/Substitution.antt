-- ===== src/Calculator/Substitution.antt =====
-- Functions that are defined by an expression, and arguments in the place of parameters.
use rpc_transport_tests.Prelude.{
  ℕ, ==_iff, ◌≡◌, refl, Option, none, some, List, [], length, get_elem?, Option-cases, inl, inr,
}
use rpc_transport_tests.Prelude.Int.{pos}
use rpc_transport_tests.Calculator.{
  Floats, Expression, literal, previous_result, parameter, call, unknown_expression, Expressions,
  end, item, evaluate_impl, evaluate_all, function_call, def_function,
}

module _ {Num : Type 0} where
  -- A parameter out of range stands for an expression that cannot be evaluated.
  abbrev pub argument : Option Num → Expression Num
  argument none = unknown_expression
  argument (some x) = literal x

  unfoldable mutual
    pub fill_in : Expression Num → List Num → Expression Num
    fill_in (literal x) params = literal x
    fill_in (previous_result v) params = previous_result v
    fill_in (parameter i) params = argument (get_elem? params i)
    fill_in (call f es) params = call f (fill_in_all es params)
    fill_in unknown_expression params = unknown_expression

    pub fill_in_all : Expressions Num → List Num → Expressions Num
    fill_in_all end params = end
    fill_in_all (item e es) params = item (fill_in e params) (fill_in_all es params)

  module _ (floats : Floats Num) where
    mutual
      unfolding evaluate_impl fill_in

      fill_in-evaluate_impl :
          (e : Expression Num) (params rest : List Num)
          → evaluate_impl floats (fill_in e params) rest ≡ evaluate_impl floats e params
      fill_in-evaluate_impl (literal x) params rest = refl
      fill_in-evaluate_impl (previous_result v) params rest = refl
      fill_in-evaluate_impl (parameter i) params rest = elim (Option-cases (get_elem? params i)) [
        | inl e ↦ rw e
        | inr (x, e) ↦ rw e
      ]
      fill_in-evaluate_impl (call f es) params rest = rw (fill_in_all-evaluate_all es params rest)
      fill_in-evaluate_impl unknown_expression params rest = refl

      fill_in_all-evaluate_all :
          (es : Expressions Num) (params rest : List Num)
          → evaluate_all floats (fill_in_all es params) rest ≡ evaluate_all floats es params
      fill_in_all-evaluate_all end params rest = refl
      fill_in_all-evaluate_all (item e es) params rest =
          rw (fill_in-evaluate_impl e params rest, fill_in_all-evaluate_all es params rest)

    -- A call of a defined function, with as many arguments as it was defined for, has the value of
    -- its body with the arguments in the place of the parameters.
    pub function_call-fill_in :
        (k : ℕ) (body : Expression Num) (params : List Num)
        → length params ≡ k
        → function_call floats (def_function (pos k) body) params
          ≡ evaluate_impl floats (fill_in body params) []
    unfolding evaluate_impl def_function
    function_call-fill_in k body params h =
        rw ((==_iff (length params) k).1 h, fill_in-evaluate_impl body params [])
