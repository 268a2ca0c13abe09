-- ===== src/Evaluator/Connectives.antt =====
-- evaluator.ts: `and`, `or` and `not`, whose operands are evaluated in order and may raise.
use nemoir_web_runtime.Prelude.{◌≡◌, refl, inl, inr, true, Bool-cases, arith, ◌↔◌}
use nemoir_web_runtime.Errors.{Result, ok, bind-eq-ok}
use nemoir_web_runtime.Js.Value.{Value, bool, to_boolean, Engine}
use nemoir_web_runtime.Manifest.{RefSpec, ExprSpec, not_, and_, or_, Exprs, nil, cons}
use nemoir_web_runtime.Evaluator.{eval_expr, eval_every}

module _ (e : Engine) (resolve : RefSpec → Result Value) where
  -- The negation of each operand.
  abbrev pub negate : Exprs → Exprs
  negate nil = nil
  negate (cons x xs) = cons (not_ x) (negate xs)

  -- The negation of a conjunction has the outcome, value or error, of the disjunction of the
  -- negations.
  pub not-and-eq-or-not :
      (xs : Exprs) → eval_expr e resolve (not_ (and_ xs)) ≡ eval_expr e resolve (or_ (negate xs))
  unfolding eval_expr to_boolean
  not-and-eq-or-not nil = refl
  not-and-eq-or-not (cons x xs) = ground (arith, not-and-eq-or-not xs)

  abbrev pub IsTruthy : ExprSpec → Type 0
  IsTruthy x = (v : Value) × (eval_expr e resolve x ≡ ok v) × (to_boolean v ≡ true)

  abbrev pub AllTruthy : Exprs → Type 0
  AllTruthy nil = Unit
  AllTruthy (cons x xs) = IsTruthy x × AllTruthy xs

  every_to : (xs : Exprs) → eval_every e resolve xs ≡ ok (bool true) → AllTruthy xs
  unfolding eval_expr
  every_to nil h = tt
  every_to (cons x xs) h =
      let (v, evaluated, h') = bind-eq-ok (eval_expr e resolve x) _ h in
      elim (Bool-cases (to_boolean v)) [
        | inl t ↦ ((v, evaluated, t), every_to xs (rw t at h'))
        | inr f ↦ absurd (ground arith)
      ]

  every_from : (xs : Exprs) → AllTruthy xs → eval_every e resolve xs ≡ ok (bool true)
  unfolding eval_expr
  every_from nil h = refl
  every_from (cons x xs) ((v, evaluated, t), h) = rw evaluated (rw t (every_from xs h))

  -- A conjunction is true exactly when every operand evaluates, without an error, to a truthy value.
  pub and-eq-true_iff :
      (xs : Exprs) → (eval_expr e resolve (and_ xs) ≡ ok (bool true)) ↔ AllTruthy xs
  unfolding eval_expr
  and-eq-true_iff xs = (every_to xs, every_from xs)
