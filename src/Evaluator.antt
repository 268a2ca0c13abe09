-- ===== src/Evaluator.antt =====
-- evaluator.ts: the evaluator of guard and policy expressions.
pub mod Refs
pub mod Missing
pub mod Connectives
pub mod Raises
use nemoir_web_runtime.Prelude.{
  Bool, true, false, not, ◌&&◌, ◌||◌, Option, none, some, List, [], ◌∷◌, if◌then◌else◌,
}
use nemoir_web_runtime.Errors.{Result, ok, err, ◌>>=◌, data_unavailable, policy_evaluation}
use nemoir_web_runtime.Js.Text.{JsString, codes, ◌==◌, includes, starts_with}
use nemoir_web_runtime.Js.Number.{is_zero}
use nemoir_web_runtime.Js.Value.{
  Value, undefined, null, bool, num, str, is_nullish, is_number, to_boolean, strict_eq, Engine,
  related, primitive_lt, primitive_le, plus, arithmetic,
}
use nemoir_web_runtime.Js.Dict.{Dict}
use nemoir_web_runtime.Manifest.{
  RefSpec, ExprSpec, ref, literal, not_, method_call, and_, or_, compare, binop, Exprs, nil, cons,
  GuardSpec, always, has_value, missing, eq, if_,
}
use Refs.{resolve_guard_ref}

pub data CompareOp : Type 0 where
  gt gte lt lte : CompareOp

pub data BinOp : Type 0 where
  add sub mul div : BinOp

-- The `validOps` lists.
unfoldable pub compare_op : JsString → Option CompareOp
unfolding ◌==◌
compare_op op =
    if op == codes "gt"
    then some gt
    else if op == codes "gte"
    then some gte
    else if op == codes "lt"
    then some lt
    else if op == codes "lte"
    then some lte
    else none

unfoldable pub bin_op : JsString → Option BinOp
unfolding ◌==◌
bin_op op =
    if op == codes "add"
    then some add
    else if op == codes "sub"
    then some sub
    else if op == codes "mul"
    then some mul
    else if op == codes "div"
    then some div
    else none

unfoldable pub method_contains : Value → List Value → Result Value
method_contains (str s) (str t ∷ []) = ok (bool (includes s t))
method_contains receiver args = err data_unavailable

unfoldable pub method_eq : Value → List Value → Result Value
method_eq receiver (arg ∷ []) =
    if is_number receiver || is_number arg
    then err policy_evaluation
    else ok (bool (strict_eq receiver arg))
method_eq receiver args = err data_unavailable

unfoldable pub method_starts_with : Value → List Value → Result Value
method_starts_with (str s) (str t ∷ []) = ok (bool (starts_with s t))
method_starts_with receiver args = err data_unavailable

unfoldable pub eval_method_call : JsString → Value → List Value → Result Value
eval_method_call method receiver args =
    if method == codes "contains"
    then method_contains receiver args
    else if method == codes "eq"
    then method_eq receiver args
    else if method == codes "starts_with"
    then method_starts_with receiver args
    else err data_unavailable

module _ (e : Engine) where
  -- The operands of `>` and `>=` are converted in their own order, too.
  compare_values : CompareOp → Value → Value → Result Bool
  compare_values gt a b = related e (λ p q. primitive_lt e q p) a b
  compare_values gte a b = related e (λ p q. primitive_le e q p) a b
  compare_values lt a b = related e (primitive_lt e) a b
  compare_values lte a b = related e (primitive_le e) a b

  -- A missing operand makes the comparison false.
  unfoldable pub eval_compare : CompareOp → Value → Value → Result Value
  unfolding compare_values
  eval_compare op a b =
      if is_nullish a || is_nullish b
      then ok (bool false)
      else (compare_values op a b >>= λ answer. ok (bool answer))

  -- `(right as number) === 0`: a value of another type is not strictly equal to 0
  abbrev is_zero_number : Value → Bool
  is_zero_number (num n) = is_zero n
  is_zero_number _ = false

  binop_values : BinOp → Value → Value → Result Value
  binop_values add a b = plus e a b
  binop_values sub a b = arithmetic e e.sub a b
  binop_values mul a b = arithmetic e e.mul a b
  binop_values div a b = if is_zero_number b then err policy_evaluation else arithmetic e e.div a b

  -- A missing operand makes the result null.
  unfoldable pub eval_binop : BinOp → Value → Value → Result Value
  unfolding binop_values
  eval_binop op a b = if is_nullish a || is_nullish b then ok null else binop_values op a b

-- `if (!validOps.includes(op)) throw …`
abbrev pub known : {A : Type 0} → Option A → Result A
known none = err policy_evaluation
known (some op) = ok op

-- `evalExpr` with `recurse` tied to itself; `resolve` gives the values of references.
module _ (e : Engine) (resolve : RefSpec → Result Value) where
  unfoldable mutual
    pub eval_expr : ExprSpec → Result Value
    eval_expr (ref r) = resolve r
    eval_expr (literal type value) = ok value
    eval_expr (not_ x) = eval_expr x >>= λ v. ok (bool (not (to_boolean v)))
    eval_expr (method_call receiver method args) =
        eval_expr receiver >>= λ v. eval_args args >>= λ vs. eval_method_call method v vs
    eval_expr (and_ xs) = eval_every xs
    eval_expr (or_ xs) = eval_some xs
    eval_expr (compare op left right) = known (compare_op op) >>= λ o.
        eval_expr left >>= λ a. eval_expr right >>= λ b. eval_compare e o a b
    eval_expr (binop op left right) = known (bin_op op) >>= λ o.
        eval_expr left >>= λ a. eval_expr right >>= λ b. eval_binop e o a b

    -- `args.map(recurse)`
    pub eval_args : Exprs → Result (List Value)
    eval_args nil = ok []
    eval_args (cons x xs) = eval_expr x >>= λ v. eval_args xs >>= λ vs. ok (v ∷ vs)

    -- `exprs.every(recurse)`, which stops at the first operand that is not truthy
    pub eval_every : Exprs → Result Value
    eval_every nil = ok (bool true)
    eval_every (cons x xs) = eval_expr x >>= λ v.
        let rest = eval_every xs in if to_boolean v then rest else ok (bool false)

    -- `exprs.some(recurse)`, which stops at the first operand that is truthy
    pub eval_some : Exprs → Result Value
    eval_some nil = ok (bool false)
    eval_some (cons x xs) = eval_expr x >>= λ v.
        let rest = eval_some xs in if to_boolean v then ok (bool true) else rest

module _ (e : Engine) where
  unfoldable pub evaluate_guard : GuardSpec → Dict Value → Dict (Dict Value) → Result Bool
  evaluate_guard always inputs stage_outputs = ok true
  evaluate_guard (has_value r) inputs stage_outputs =
      resolve_guard_ref r inputs stage_outputs >>= λ v.
      ok (not (strict_eq v null) && not (strict_eq v undefined))
  evaluate_guard (missing r) inputs stage_outputs =
      resolve_guard_ref r inputs stage_outputs >>= λ v.
      ok (strict_eq v null || strict_eq v undefined)
  evaluate_guard (eq left right) inputs stage_outputs =
      let resolve = λ (r : RefSpec). resolve_guard_ref r inputs stage_outputs in
      eval_expr e resolve left >>= λ a. eval_expr e resolve right >>= λ b.
      if is_number a || is_number b then err policy_evaluation else ok (strict_eq a b)
  evaluate_guard (if_ cond) inputs stage_outputs =
      eval_expr e (λ r. resolve_guard_ref r inputs stage_outputs) cond >>= λ v. ok (to_boolean v)
