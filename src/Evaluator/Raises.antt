-- ===== src/Evaluator/Raises.antt =====
-- evaluator.ts: the classes of the errors that an evaluation raises.
use nemoir_web_runtime.Prelude.{
  ◌≡◌, ◌⊎◌, inl, inr, Bool, true, false, Option, none, some, List, [], ◌++◌, arith, if◌then◌else◌,
}
use nemoir_web_runtime.Errors.{
  Error, Result, ok, err, ◌>>=◌, data_unavailable, policy_evaluation, other_error,
}
use nemoir_web_runtime.Js.Text.{JsString, codes, ◌==◌}
use nemoir_web_runtime.Js.Number.{Double, number_lt, number_le}
use nemoir_web_runtime.Js.Value.{
  Value, undefined, null, bool, num, str, arr, obj, host, fn, Hint, to_boolean, Engine,
  to_primitive, to_number, to_text, primitive_lt, primitive_le, related, primitive_plus, plus,
  to_numeric, arithmetic,
}
use nemoir_web_runtime.Js.Dict.{Dict}
use nemoir_web_runtime.Manifest.{
  RefSpec, input, node_output, bound, ExprSpec, ref, literal, not_, method_call, and_, or_, compare,
  binop, Exprs, nil, cons, GuardSpec, always, has_value, missing, eq, if_,
}
use nemoir_web_runtime.Evaluator.{
  CompareOp, BinOp, add, sub, mul, div, gt, gte, lt, lte, compare_op, bin_op, eval_method_call,
  method_contains, method_eq, method_starts_with, eval_binop, eval_compare, compare_values,
  binop_values, eval_expr, eval_args, eval_every, eval_some, evaluate_guard, known,
}
use nemoir_web_runtime.Evaluator.Refs.{resolve_guard_ref}

-- What the conversion of some value to a primitive throws, and the `TypeError` on a symbol.
abbrev pub IsConversionError : Engine → Error → Type 0
IsConversionError e x =
    (x ≡ other_error) ⊎ ((hint : Hint) × (v : Value) × (e.object_to_primitive hint v ≡ err x))

-- The errors that an evaluation may raise.
abbrev pub IsEvaluationError : Engine → Error → Type 0
IsEvaluationError e x = (x ≡ data_unavailable) ⊎ ((x ≡ policy_evaluation) ⊎ IsConversionError e x)

abbrev pub RaisesOnly {ℓ} : Engine → {A : Type ℓ} → Result A → Type ℓ
RaisesOnly e m = (x : Error) → m ≡ err x → IsEvaluationError e x

module _ (e : Engine) where
  bind-RaisesOnly :
      {A B : Type 0} (m : Result A) (f : A → Result B)
      → RaisesOnly e m
      → ((a : A) → RaisesOnly e (f a))
      → RaisesOnly e (m >>= f)
  bind-RaisesOnly (ok a) f hm hf x h = hf a x h
  bind-RaisesOnly (err y) f hm hf x h = hm x (ground arith)

  ok-RaisesOnly : {A : Type 0} (a : A) → RaisesOnly e (ok a)
  ok-RaisesOnly a x h = absurd (ground arith)

  unavailable-RaisesOnly : {A : Type 0} → RaisesOnly e {A = A} (err data_unavailable)
  unavailable-RaisesOnly x h = inl (ground arith)

  policy-RaisesOnly : {A : Type 0} → RaisesOnly e {A = A} (err policy_evaluation)
  policy-RaisesOnly x h = inr (inl (ground arith))

  type_error-RaisesOnly : {A : Type 0} → RaisesOnly e {A = A} (err other_error)
  type_error-RaisesOnly x h = inr (inr (inl (ground arith)))

  known-RaisesOnly : {A : Type 0} (o : Option A) → RaisesOnly e (known o)
  known-RaisesOnly (some a) = ok-RaisesOnly a
  known-RaisesOnly none = policy-RaisesOnly

  if-RaisesOnly :
      {A : Type 0} (b : Bool) (m n : Result A)
      → RaisesOnly e m
      → RaisesOnly e n
      → RaisesOnly e (if b then m else n)
  if-RaisesOnly true m n hm hn = hm
  if-RaisesOnly false m n hm hn = hn

  object-RaisesOnly : (hint : Hint) (v : Value) → RaisesOnly e (e.object_to_primitive hint v)
  object-RaisesOnly hint v x h = inr (inr (inr (hint, v, h)))

  primitive-RaisesOnly : (hint : Hint) (v : Value) → RaisesOnly e (to_primitive e hint v)
  unfolding to_primitive
  primitive-RaisesOnly hint (arr i xs) = object-RaisesOnly hint (arr i xs)
  primitive-RaisesOnly hint (obj i fs) = object-RaisesOnly hint (obj i fs)
  primitive-RaisesOnly hint (host i fs) = object-RaisesOnly hint (host i fs)
  primitive-RaisesOnly hint (fn i) = object-RaisesOnly hint (fn i)
  primitive-RaisesOnly hint v = ok-RaisesOnly v

  number-RaisesOnly : (v : Value) → RaisesOnly e (to_number e v)
  unfolding to_number
  number-RaisesOnly undefined = ok-RaisesOnly _
  number-RaisesOnly null = ok-RaisesOnly _
  number-RaisesOnly (bool b) = ok-RaisesOnly _
  number-RaisesOnly (num n) = ok-RaisesOnly _
  number-RaisesOnly (str s) = ok-RaisesOnly _
  number-RaisesOnly v = type_error-RaisesOnly

  text-RaisesOnly : (v : Value) → RaisesOnly e (to_text e v)
  unfolding to_text
  text-RaisesOnly undefined = ok-RaisesOnly _
  text-RaisesOnly null = ok-RaisesOnly _
  text-RaisesOnly (bool b) = ok-RaisesOnly _
  text-RaisesOnly (num n) = ok-RaisesOnly _
  text-RaisesOnly (str s) = ok-RaisesOnly _
  text-RaisesOnly v = type_error-RaisesOnly

  -- Two operands that become numbers.
  numbers-RaisesOnly :
      {A : Type 0} (a b : Value) (f : Double → Double → A)
      → RaisesOnly e (to_number e a >>= λ x. to_number e b >>= λ y. ok (f x y))
  numbers-RaisesOnly a b f =
      bind-RaisesOnly _ _ (number-RaisesOnly a)
        (λ x. bind-RaisesOnly _ _ (number-RaisesOnly b) (λ y. ok-RaisesOnly _))

  lt-RaisesOnly : (a b : Value) → RaisesOnly e (primitive_lt e a b)
  unfolding primitive_lt
  lt-RaisesOnly (str s) (str t) = ok-RaisesOnly _
  lt-RaisesOnly a b = numbers-RaisesOnly a b number_lt

  le-RaisesOnly : (a b : Value) → RaisesOnly e (primitive_le e a b)
  unfolding primitive_le
  le-RaisesOnly (str s) (str t) = ok-RaisesOnly _
  le-RaisesOnly a b = numbers-RaisesOnly a b number_le

  related-RaisesOnly :
      (relation : Value → Value → Result Bool) (a b : Value)
      → ((p q : Value) → RaisesOnly e (relation p q))
      → RaisesOnly e (related e relation a b)
  unfolding related
  related-RaisesOnly relation a b h =
      bind-RaisesOnly _ _ (primitive-RaisesOnly _ a)
        (λ p. bind-RaisesOnly _ _ (primitive-RaisesOnly _ b) (λ q. h p q))

  compared-RaisesOnly : (op : CompareOp) (a b : Value) → RaisesOnly e (compare_values e op a b)
  unfolding compare_values
  compared-RaisesOnly gt a b = related-RaisesOnly _ a b (λ p q. lt-RaisesOnly q p)
  compared-RaisesOnly gte a b = related-RaisesOnly _ a b (λ p q. le-RaisesOnly q p)
  compared-RaisesOnly lt a b = related-RaisesOnly _ a b lt-RaisesOnly
  compared-RaisesOnly lte a b = related-RaisesOnly _ a b le-RaisesOnly

  compare-RaisesOnly : (op : CompareOp) (a b : Value) → RaisesOnly e (eval_compare e op a b)
  unfolding eval_compare
  compare-RaisesOnly op a b =
      if-RaisesOnly _ _ _ (ok-RaisesOnly _)
        (bind-RaisesOnly _ _ (compared-RaisesOnly op a b) (λ r. ok-RaisesOnly _))

  joined-RaisesOnly : (a b : Value) → RaisesOnly e (primitive_plus e a b)
  unfolding primitive_plus
  joined-RaisesOnly (str s) b = bind-RaisesOnly _ _ (text-RaisesOnly b) (λ t. ok-RaisesOnly _)
  joined-RaisesOnly a (str t) =
      bind-RaisesOnly _ _ (text-RaisesOnly a) (λ s. ok-RaisesOnly (str (s ++ t)))
  joined-RaisesOnly a b = numbers-RaisesOnly a b (λ x y. num (e.add x y))

  plus-RaisesOnly : (a b : Value) → RaisesOnly e (plus e a b)
  unfolding plus
  plus-RaisesOnly a b =
      bind-RaisesOnly _ _ (primitive-RaisesOnly _ a)
        (λ p. bind-RaisesOnly _ _ (primitive-RaisesOnly _ b) (λ q. joined-RaisesOnly p q))

  numeric-RaisesOnly : (v : Value) → RaisesOnly e (to_numeric e v)
  unfolding to_numeric
  numeric-RaisesOnly v = bind-RaisesOnly _ _ (primitive-RaisesOnly _ v) number-RaisesOnly

  arithmetic-RaisesOnly :
      (op : Double → Double → Double) (a b : Value) → RaisesOnly e (arithmetic e op a b)
  unfolding arithmetic
  arithmetic-RaisesOnly op a b =
      bind-RaisesOnly _ _ (numeric-RaisesOnly a)
        (λ x. bind-RaisesOnly _ _ (numeric-RaisesOnly b) (λ y. ok-RaisesOnly _))

  computed-RaisesOnly : (op : BinOp) (a b : Value) → RaisesOnly e (binop_values e op a b)
  unfolding binop_values
  computed-RaisesOnly add a b = plus-RaisesOnly a b
  computed-RaisesOnly sub a b = arithmetic-RaisesOnly _ a b
  computed-RaisesOnly mul a b = arithmetic-RaisesOnly _ a b
  computed-RaisesOnly div a b = if-RaisesOnly _ _ _ policy-RaisesOnly (arithmetic-RaisesOnly _ a b)

  binop-RaisesOnly : (op : BinOp) (a b : Value) → RaisesOnly e (eval_binop e op a b)
  unfolding eval_binop
  binop-RaisesOnly op a b = if-RaisesOnly _ _ _ (ok-RaisesOnly _) (computed-RaisesOnly op a b)

  method_contains-RaisesOnly : (v : Value) (vs : List Value) → RaisesOnly e (method_contains v vs)
  unfolding method_contains
  method_contains-RaisesOnly v vs x h = ground arith

  method_eq-RaisesOnly : (v : Value) (vs : List Value) → RaisesOnly e (method_eq v vs)
  unfolding method_eq
  method_eq-RaisesOnly v vs x h = ground arith

  method_starts_with-RaisesOnly :
      (v : Value) (vs : List Value) → RaisesOnly e (method_starts_with v vs)
  unfolding method_starts_with
  method_starts_with-RaisesOnly v vs x h = ground arith

  method_call-RaisesOnly :
      (method : JsString) (v : Value) (vs : List Value)
      → RaisesOnly e (eval_method_call method v vs)
  unfolding eval_method_call
  method_call-RaisesOnly method v vs =
      if-RaisesOnly (method == codes "contains") _ _ (method_contains-RaisesOnly v vs) (
        if-RaisesOnly (method == codes "eq") _ _ (method_eq-RaisesOnly v vs) (
          if-RaisesOnly (method == codes "starts_with") _ _ (method_starts_with-RaisesOnly v vs)
            unavailable-RaisesOnly))

  module _ (resolve : RefSpec → Result Value)
      (safe : (r : RefSpec) → RaisesOnly e (resolve r)) where
    mutual
      unfolding eval_expr

      expr-RaisesOnly : (x : ExprSpec) → RaisesOnly e (eval_expr e resolve x)
      expr-RaisesOnly (ref r) = safe r
      expr-RaisesOnly (literal t v) = ok-RaisesOnly v
      expr-RaisesOnly (not_ x) = bind-RaisesOnly _ _ (expr-RaisesOnly x) (λ v. ok-RaisesOnly _)
      expr-RaisesOnly (method_call x m xs) =
          bind-RaisesOnly _ _ (expr-RaisesOnly x)
            (λ v. bind-RaisesOnly _ _ (args-RaisesOnly xs) (λ vs. method_call-RaisesOnly m v vs))
      expr-RaisesOnly (and_ xs) = every-RaisesOnly xs
      expr-RaisesOnly (or_ xs) = some-RaisesOnly xs
      expr-RaisesOnly (compare op x y) =
          bind-RaisesOnly _ _ (known-RaisesOnly (compare_op op)) (λ o.
            bind-RaisesOnly _ _ (expr-RaisesOnly x)
              (λ a. bind-RaisesOnly _ _ (expr-RaisesOnly y) (λ b. compare-RaisesOnly o a b)))
      expr-RaisesOnly (binop op x y) = bind-RaisesOnly _ _ (known-RaisesOnly (bin_op op)) (λ o.
          bind-RaisesOnly _ _ (expr-RaisesOnly x)
            (λ a. bind-RaisesOnly _ _ (expr-RaisesOnly y) (λ b. binop-RaisesOnly o a b)))

      args-RaisesOnly : (xs : Exprs) → RaisesOnly e (eval_args e resolve xs)
      args-RaisesOnly nil = ok-RaisesOnly []
      args-RaisesOnly (cons x xs) =
          bind-RaisesOnly _ _ (expr-RaisesOnly x)
            (λ v. bind-RaisesOnly _ _ (args-RaisesOnly xs) (λ vs. ok-RaisesOnly _))

      every-RaisesOnly : (xs : Exprs) → RaisesOnly e (eval_every e resolve xs)
      every-RaisesOnly nil = ok-RaisesOnly _
      every-RaisesOnly (cons x xs) =
          bind-RaisesOnly _ _ (expr-RaisesOnly x)
            (λ v. if-RaisesOnly (to_boolean v) _ _ (every-RaisesOnly xs) (ok-RaisesOnly _))

      some-RaisesOnly : (xs : Exprs) → RaisesOnly e (eval_some e resolve xs)
      some-RaisesOnly nil = ok-RaisesOnly _
      some-RaisesOnly (cons x xs) =
          bind-RaisesOnly _ _ (expr-RaisesOnly x)
            (λ v. if-RaisesOnly (to_boolean v) _ _ (ok-RaisesOnly _) (some-RaisesOnly xs))

  guard_ref-RaisesOnly :
      (r : RefSpec) (inputs : Dict Value) (outs : Dict (Dict Value))
      → RaisesOnly e (resolve_guard_ref r inputs outs)
  unfolding resolve_guard_ref
  guard_ref-RaisesOnly (input n) inputs outs x h = absurd (ground arith)
  guard_ref-RaisesOnly (node_output n f) inputs outs x h = absurd (ground arith)
  guard_ref-RaisesOnly (bound n) inputs outs x h = inl (ground arith)

  pub guard-RaisesOnly :
      (g : GuardSpec) (inputs : Dict Value) (outs : Dict (Dict Value))
      → RaisesOnly e (evaluate_guard e g inputs outs)
  unfolding evaluate_guard
  guard-RaisesOnly always inputs outs = ok-RaisesOnly true
  guard-RaisesOnly (has_value r) inputs outs =
      bind-RaisesOnly _ _ (guard_ref-RaisesOnly r inputs outs) (λ v. ok-RaisesOnly _)
  guard-RaisesOnly (missing r) inputs outs =
      bind-RaisesOnly _ _ (guard_ref-RaisesOnly r inputs outs) (λ v. ok-RaisesOnly _)
  guard-RaisesOnly (eq x y) inputs outs =
      let safe = λ (r : RefSpec). guard_ref-RaisesOnly r inputs outs in
      bind-RaisesOnly _ _ (expr-RaisesOnly _ safe x) (λ a.
        bind-RaisesOnly _ _ (expr-RaisesOnly _ safe y)
          (λ b. if-RaisesOnly _ _ _ policy-RaisesOnly (ok-RaisesOnly _)))
  guard-RaisesOnly (if_ x) inputs outs =
      bind-RaisesOnly _ _ (expr-RaisesOnly _ (λ r. guard_ref-RaisesOnly r inputs outs) x)
        (λ v. ok-RaisesOnly _)

  -- The errors that a guard raises are `DataUnavailableError`, `PolicyEvaluationError`, those that the
  -- engine throws where it converts some value to a primitive, and `other_error`, which stands for the
  -- `TypeError` on a symbol; so where no conversion throws one, none of the other error classes.
  pub guard-error :
      (g : GuardSpec) (inputs : Dict Value) (outs : Dict (Dict Value)) (x : Error)
      → evaluate_guard e g inputs outs ≡ err x
      → (x ≡ data_unavailable) ⊎ ((x ≡ policy_evaluation) ⊎ IsConversionError e x)
  guard-error g inputs outs x h = guard-RaisesOnly g inputs outs x h
