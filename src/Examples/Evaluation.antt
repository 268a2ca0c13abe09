-- ===== src/Examples/Evaluation.antt =====
-- Guards of the example workflow.
use nemoir_web_runtime.Prelude.{◌≡◌, refl, ◌↔◌, ◌⊎◌, inl, true, false, []}
use nemoir_web_runtime.Errors.{Result, ok, err, other_error, data_unavailable, policy_evaluation}
use nemoir_web_runtime.Js.Text.{codes}
use nemoir_web_runtime.Js.Value.{Value, bool, num, obj, end, undefined, Engine}
use nemoir_web_runtime.Js.Dict.{lookup}
use nemoir_web_runtime.Manifest.{
  RefSpec, ExprSpec, ref, literal, binop, and_, or_, not_, Exprs, nil, cons, compare, if_,
}
use nemoir_web_runtime.Evaluator.{eval_expr, evaluate_guard}
use nemoir_web_runtime.Evaluator.Refs.{resolve_guard_ref}
use nemoir_web_runtime.Evaluator.Missing.{itself, on_left, guard-compare-missing}
use nemoir_web_runtime.Evaluator.Connectives.{negate, AllTruthy, not-and-eq-or-not, and-eq-true_iff}
use nemoir_web_runtime.Evaluator.Raises.{IsConversionError, guard-error}
use nemoir_web_runtime.Examples.Data.{engine, inputs, score_ref, one, two}

-- `score + 1 > 2`, before there is a score
abbrev sum : ExprSpec
sum = binop (codes "add") (ref score_ref) (literal (codes "number") (num one))

abbrev bound_two : ExprSpec
bound_two = literal (codes "number") (num two)

abbrev no_refs : RefSpec → Result Value
no_refs r = ok undefined

abbrev operands : Exprs
operands = cons bound_two (cons (ref score_ref) nil)

guard-compare-missing_example : false ≡ false
unfolding resolve_guard_ref lookup evaluate_guard eval_expr nemoir_web_runtime.Evaluator.compare_op
    nemoir_web_runtime.Evaluator.bin_op nemoir_web_runtime.Evaluator.eval_binop
    nemoir_web_runtime.Js.Value.to_boolean nemoir_web_runtime.Evaluator.eval_compare
guard-compare-missing_example =
    guard-compare-missing engine score_ref undefined (codes "gt") sum bound_two inputs [] false refl
      refl (inl (on_left itself)) refl

not-and-eq-or-not_example :
    eval_expr engine no_refs (not_ (and_ operands))
    ≡ eval_expr engine no_refs (or_ (negate engine no_refs operands))
not-and-eq-or-not_example = not-and-eq-or-not engine no_refs operands

and-eq-true_iff_example :
    (eval_expr engine no_refs (and_ operands) ≡ ok (bool true)) ↔ AllTruthy engine no_refs operands
and-eq-true_iff_example = and-eq-true_iff engine no_refs operands

-- An engine on whose objects the conversion to a primitive throws a `TypeError`, as it does on an
-- object whose `toString` is no function.
abbrev throwing_engine : Engine
throwing_engine = record engine { object_to_primitive = λ hint v. err other_error }

guard-error_example :
    (other_error ≡ data_unavailable)
    ⊎ ((other_error ≡ policy_evaluation) ⊎ IsConversionError throwing_engine other_error)
unfolding evaluate_guard eval_expr nemoir_web_runtime.Evaluator.compare_op
    nemoir_web_runtime.Evaluator.eval_compare nemoir_web_runtime.Js.Value.related
guard-error_example =
    guard-error throwing_engine
      (if_ (compare (codes "gt") (literal (codes "json") (obj 1 end)) bound_two)) inputs []
      other_error refl
