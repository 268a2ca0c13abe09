-- ===== src/Evaluator/Missing.antt =====
-- evaluator.ts: missing values (null or undefined) in guards.
use nemoir_web_runtime.Prelude.{◌≡◌, ◌⊎◌, inl, inr, Bool, true, false, ◌||◌, arith}
use nemoir_web_runtime.Errors.{Result, ok, bind-eq-ok}
use nemoir_web_runtime.Js.Text.{JsString}
use nemoir_web_runtime.Js.Value.{Value, bool, is_nullish, to_boolean, Engine}
use nemoir_web_runtime.Js.Dict.{Dict}
use nemoir_web_runtime.Manifest.{RefSpec, ExprSpec, ref, compare, binop, if_}
use nemoir_web_runtime.Evaluator.{
  CompareOp, BinOp, compare_op, bin_op, eval_compare, eval_binop, eval_expr, evaluate_guard, known,
}
use nemoir_web_runtime.Evaluator.Refs.{resolve_guard_ref}

-- `x` computes on the value of `r`: it is `r`, or arithmetic on such an expression.
pub data Uses (r : RefSpec) : ExprSpec → Type 0 where
  itself : Uses r (ref r)
  on_left : {op : JsString} {x y : ExprSpec} → Uses r x → Uses r (binop op x y)
  on_right : {op : JsString} {x y : ExprSpec} → Uses r y → Uses r (binop op x y)

module _ (e : Engine) where
  eval_binop-nullish :
      (op : BinOp) (a b w : Value)
      → (is_nullish a || is_nullish b) ≡ true
      → eval_binop e op a b ≡ ok w
      → is_nullish w ≡ true
  unfolding eval_binop
  eval_binop-nullish op a b w h p = ground arith

  eval_compare-nullish :
      (op : CompareOp) (a b : Value)
      → (is_nullish a || is_nullish b) ≡ true
      → eval_compare e op a b ≡ ok (bool false)
  unfolding eval_compare
  eval_compare-nullish op a b h = ground arith

  or-right : (a b : Bool) → b ≡ true → (a || b) ≡ true
  or-right a b h = ground arith

  or-left : (a b : Bool) → a ≡ true → (a || b) ≡ true
  or-left a b h = ground arith

module _ (e : Engine) (resolve : RefSpec → Result Value) where
  binop_parts :
      (op : JsString) (x y : ExprSpec) (w : Value)
      → eval_expr e resolve (binop op x y) ≡ ok w
      → (o : BinOp) × (a : Value) × (b : Value) × (eval_expr e resolve x ≡ ok a)
        × (eval_expr e resolve y ≡ ok b)
        × (eval_binop e o a b ≡ ok w)
  unfolding eval_expr
  binop_parts op x y w h =
      let (o, found, h₁) = bind-eq-ok (known (bin_op op)) _ h in
      let (a, left, h₂) = bind-eq-ok (eval_expr e resolve x) _ h₁ in
      let (b, right, h₃) = bind-eq-ok (eval_expr e resolve y) _ h₂ in (o, a, b, left, right, h₃)

  compare_parts :
      (op : JsString) (x y : ExprSpec) (w : Value)
      → eval_expr e resolve (compare op x y) ≡ ok w
      → (o : CompareOp) × (a : Value) × (b : Value) × (eval_expr e resolve x ≡ ok a)
        × (eval_expr e resolve y ≡ ok b)
        × (eval_compare e o a b ≡ ok w)
  unfolding eval_expr
  compare_parts op x y w h =
      let (o, found, h₁) = bind-eq-ok (known (compare_op op)) _ h in
      let (a, left, h₂) = bind-eq-ok (eval_expr e resolve x) _ h₁ in
      let (b, right, h₃) = bind-eq-ok (eval_expr e resolve y) _ h₂ in (o, a, b, left, right, h₃)

  -- Arithmetic on a missing value is missing.
  pub Uses-nullish :
      (r : RefSpec) (v : Value) {x : ExprSpec} (w : Value)
      → resolve r ≡ ok v
      → is_nullish v ≡ true
      → Uses r x
      → eval_expr e resolve x ≡ ok w
      → is_nullish w ≡ true
  unfolding eval_expr
  Uses-nullish r v w resolved nullish itself h = ground arith
  Uses-nullish r v w resolved nullish (on_left {op} {x} {y} u) h =
      let (o, a, b, left, right, h') = binop_parts op x y w h in
      let first = Uses-nullish r v a resolved nullish u left in
      eval_binop-nullish e o a b w (or-left e _ _ first) h'
  Uses-nullish r v w resolved nullish (on_right {op} {x} {y} u) h =
      let (o, a, b, left, right, h') = binop_parts op x y w h in
      let second = Uses-nullish r v b resolved nullish u right in
      eval_binop-nullish e o a b w (or-right e _ _ second) h'

  compare-Uses-nullish :
      (r : RefSpec) (v : Value) (op : JsString) (x y : ExprSpec) (w : Value)
      → resolve r ≡ ok v
      → is_nullish v ≡ true
      → Uses r x ⊎ Uses r y
      → eval_expr e resolve (compare op x y) ≡ ok w
      → w ≡ bool false
  compare-Uses-nullish r v op x y w resolved nullish u h =
      let (o, a, b, left, right, h') = compare_parts op x y w h in
      let missing : (is_nullish a || is_nullish b) ≡ true = elim u [
        | inl ul ↦ or-left e _ _ (Uses-nullish r v a resolved nullish ul left)
        | inr ur ↦ or-right e _ _ (Uses-nullish r v b resolved nullish ur right)
      ] in
      ground (arith, eval_compare-nullish e o a b missing)

module _ (e : Engine) where
  -- A comparison guard over a missing value is false: if a reference that the guard can resolve has
  -- no value (null or undefined), and a side of the comparison is the reference or arithmetic on it,
  -- then the guard, if it evaluates, does not match.
  pub guard-compare-missing :
      (r : RefSpec) (v : Value) (op : JsString) (x y : ExprSpec) (inputs : Dict Value)
      (outs : Dict (Dict Value)) (b : Bool)
      → resolve_guard_ref r inputs outs ≡ ok v
      → is_nullish v ≡ true
      → Uses r x ⊎ Uses r y
      → evaluate_guard e (if_ (compare op x y)) inputs outs ≡ ok b
      → b ≡ false
  unfolding evaluate_guard to_boolean
  guard-compare-missing r v op x y inputs outs b resolved nullish u h =
      let (w, evaluated, h') =
        bind-eq-ok (eval_expr e (λ q. resolve_guard_ref q inputs outs) (compare op x y)) _ h in
      let isfalse =
        compare-Uses-nullish e (λ q. resolve_guard_ref q inputs outs) r v op x y w resolved nullish
          u evaluated in
      ground arith
