-- ===== src/Calculator/Totality.antt =====
-- Which expressions the calculator evaluates.
use rpc_transport_tests.Prelude.{
  ℕ, zero, suc, ◌<◌, ==_iff, ◌≡◌, refl, ap, Option, none, some, List, [], ◌∷◌, length, get_elem?,
  arith,
}
use rpc_transport_tests.Calculator.{
  Floats, Operator, add, subtract, multiply, divide, unknown_operator, read_value, Expression,
  literal, previous_result, parameter, call, unknown_expression, Expressions, end, item, Function,
  function_impl, operator_impl, remote_function, evaluate_impl, evaluate_all, function_call,
  evaluate, operator_call,
}

abbrev pub Resolves : {A : Type 0} → Option A → Type 0
Resolves none = ⊥
Resolves (some a) = Unit {0}

-- An operator that the server knows.
abbrev pub IsKnown : Operator → Type 0
IsKnown unknown_operator = ⊥
IsKnown _ = Unit {0}

resolved : {A : Type 0} (r : Option A) → Resolves r → (a : A) × (r ≡ some a)
resolved none h = absurd h
resolved (some a) h = (a, refl)

get_elem?-Resolves :
    {Num : Type 0} (xs : List Num) (i : ℕ) → i < length xs → Resolves (get_elem? xs i)
get_elem?-Resolves [] i h = absurd (omega (arith, h))
get_elem?-Resolves (x ∷ xs) zero h = tt
get_elem?-Resolves (x ∷ xs) (suc i) h = get_elem?-Resolves xs i (omega (arith, h))

module _ {Num : Type 0} where
  abbrev pub count : Expressions Num → ℕ
  count end = 0
  count (item e es) = suc (count es)

  -- An expression below `k` parameters: each parameter is one of them, each value of a client is
  -- read, each function is called with the arguments that it wants, and a client's answers.
  unfoldable mutual
    pub IsWell : ℕ → Expression Num → Type 0
    IsWell k (literal x) = Unit {0}
    IsWell k (previous_result v) = Resolves (read_value v)
    IsWell k (parameter i) = i < k
    IsWell k (call f es) = IsCallable (count es) f × AreWell k es
    IsWell k unknown_expression = ⊥

    pub AreWell : ℕ → Expressions Num → Type 0
    AreWell k end = Unit {0}
    AreWell k (item e es) = IsWell k e × AreWell k es

    pub IsCallable : ℕ → Function Num → Type 0
    IsCallable m (function_impl param_count body) = (m ≡ param_count) × IsWell param_count body
    IsCallable m (operator_impl op) = (m ≡ 2) × IsKnown op
    IsCallable m (remote_function f) = (xs : List Num) → length xs ≡ m → Resolves (f xs)

  module _ (floats : Floats Num) where
    operator_call-Resolves :
        (op : Operator) (xs : List Num)
        → length xs ≡ 2
        → IsKnown op
        → Resolves (operator_call floats op xs)
    operator_call-Resolves op [] h known = absurd (omega (arith, h))
    operator_call-Resolves op (x ∷ []) h known = absurd (omega (arith, h))
    operator_call-Resolves op (x ∷ y ∷ z ∷ xs) h known = absurd (omega (arith, h))
    operator_call-Resolves add (x ∷ y ∷ []) h known = tt
    operator_call-Resolves subtract (x ∷ y ∷ []) h known = tt
    operator_call-Resolves multiply (x ∷ y ∷ []) h known = tt
    operator_call-Resolves divide (x ∷ y ∷ []) h known = tt
    operator_call-Resolves unknown_operator (x ∷ y ∷ []) h known = absurd known

    mutual
      unfolding evaluate_impl IsWell

      evaluate_impl-Resolves :
          (e : Expression Num) (k : ℕ) (params : List Num)
          → length params ≡ k
          → IsWell k e
          → Resolves (evaluate_impl floats e params)
      evaluate_impl-Resolves (literal x) k params h well = tt
      evaluate_impl-Resolves (previous_result v) k params h well = well
      evaluate_impl-Resolves (parameter i) k params h well =
          get_elem?-Resolves params i (omega (arith, h, well))
      evaluate_impl-Resolves (call f es) k params h (callable, wells) =
          let (xs, e, l) = evaluate_all-Resolves es k params h wells in
          rw e (function_call-Resolves f (count es) xs l callable)
      evaluate_impl-Resolves unknown_expression k params h well = absurd well

      evaluate_all-Resolves :
          (es : Expressions Num) (k : ℕ) (params : List Num)
          → length params ≡ k
          → AreWell k es
          → (xs : List Num) × (evaluate_all floats es params ≡ some xs) × (length xs ≡ count es)
      evaluate_all-Resolves end k params h wells = ([], refl, refl)
      evaluate_all-Resolves (item e es) k params h (well, wells) =
          let (x, d) =
            resolved (evaluate_impl floats e params) (evaluate_impl-Resolves e k params h well) in
          let (xs, ds, l) = evaluate_all-Resolves es k params h wells in
          (x ∷ xs, rw (d, ds), ap suc l)

      function_call-Resolves :
          (f : Function Num) (m : ℕ) (xs : List Num)
          → length xs ≡ m
          → IsCallable m f
          → Resolves (function_call floats f xs)
      function_call-Resolves (function_impl n body) m xs h (same, well) =
          rw ((==_iff (length xs) n).1 (omega (arith, h, same)))
            (evaluate_impl-Resolves body n xs (omega (arith, h, same)) well)
      function_call-Resolves (operator_impl op) m xs h (two, known) =
          operator_call-Resolves op xs (omega (arith, h, two)) known
      function_call-Resolves (remote_function f) m xs h answers = answers xs h

    -- An expression outside every function is evaluated to a value where its calls have the
    -- arguments that their functions want, its functions' parameters are in range, its operators
    -- are known, and the values and functions of clients answer.
    pub evaluate-Resolves : (e : Expression Num) → IsWell 0 e → Resolves (evaluate floats e)
    unfolding evaluate
    evaluate-Resolves e well =
        let (x, d) =
          resolved (evaluate_impl floats e []) (evaluate_impl-Resolves e 0 [] refl well) in
        rw d tt
