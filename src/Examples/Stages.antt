-- ===== src/Examples/Stages.antt =====
-- Runs and transitions of the example workflow.
use nemoir_web_runtime.Prelude.{◌≡◌, refl, ◌⊎◌, All, true, [], ◌∷◌, arith}
use nemoir_web_runtime.Errors.{ok, err, data_unavailable, other_error}
use nemoir_web_runtime.Js.Text.{codes, ◌==◌}
use nemoir_web_runtime.Js.Number.{number_lt, is_nan}
use nemoir_web_runtime.Js.Value.{Value, num}
use nemoir_web_runtime.Js.Dict.{Dict, lookup, has, insert}
use nemoir_web_runtime.Evaluator.{evaluate_guard, eval_expr}
use nemoir_web_runtime.Evaluator.Refs.{resolve_guard_ref}
use nemoir_web_runtime.Transitions.{resolve_reads, select_transition}
use nemoir_web_runtime.Runtime.Reads.{Starts, visit_stage-reads}
use nemoir_web_runtime.Transitions.Reads.{IsAvailable}
use nemoir_web_runtime.Events.{◌>>=◌}
use nemoir_web_runtime.Transitions.Selection.{select_transition-best}
use nemoir_web_runtime.Events.Outcomes.{Ends}
use nemoir_web_runtime.Events.Sequence.{IsNumbered, Keeps-pure}
use nemoir_web_runtime.Runtime.{RunEnv, new_runtime, visit_stage, store_output, run}
use nemoir_web_runtime.Runtime.Stages.{IsClosed, new_runtime-IsClosed}
use nemoir_web_runtime.Runtime.Results.{IsFinished, IsRunError, run-Ends}
use nemoir_web_runtime.Runtime.Numbered.{run-IsNumbered}
use nemoir_web_runtime.Events.Terminal.{terminals}
use nemoir_web_runtime.Runtime.Terminal.{run-terminals}
use nemoir_web_runtime.Examples.Data.{
  engine, inputs, draft, to_done, manifest, registry, score_executor, runtime, run_env, start,
  three,
}

abbrev scored : Dict (Dict Value)
scored = (codes "draft", (codes "score", num three) ∷ []) ∷ []

-- Without the input that the stage `draft` reads.
abbrev no_inputs : RunEnv
no_inputs = record run_env { inputs = [] }

new_runtime-IsClosed_example : IsClosed runtime
unfolding new_runtime nemoir_web_runtime.Tools.require_capabilities
    nemoir_web_runtime.Tools.get_tool nemoir_web_runtime.Js.Group.get_list lookup ◌==◌
    nemoir_web_runtime.Runtime.file_stages has insert nemoir_web_runtime.Runtime.check_ids
    nemoir_web_runtime.Runtime.check_targets
new_runtime-IsClosed_example = new_runtime-IsClosed manifest registry score_executor runtime refl

run-Ends_example :
    Ends
      (IsFinished runtime run_env.max_steps)
      (IsRunError engine (λ e. e ≡ other_error))
      (run runtime run_env)
unfolding new_runtime nemoir_web_runtime.Tools.require_capabilities
    nemoir_web_runtime.Tools.get_tool nemoir_web_runtime.Js.Group.get_list lookup ◌==◌
    nemoir_web_runtime.Runtime.file_stages has insert nemoir_web_runtime.Runtime.check_ids
    nemoir_web_runtime.Runtime.check_targets
run-Ends_example =
    run-Ends (λ e. e ≡ other_error) runtime run_env
      (new_runtime-IsClosed manifest registry score_executor runtime refl)
      (λ ctx s e h. absurd (ground arith))

run-IsNumbered_example : IsNumbered (run runtime run_env start).1
run-IsNumbered_example = run-IsNumbered runtime run_env (λ ctx h. Keeps-pure _) start

run-terminals_example : terminals (run runtime run_env start).1.log ≡ 1
run-terminals_example = run-terminals runtime run_env (λ ctx n h. Keeps-pure _) (λ n. refl) start

select_transition-best_example : select_transition engine draft inputs scored ≡ ok to_done
unfolding number_lt is_nan evaluate_guard eval_expr nemoir_web_runtime.Evaluator.compare_op
    resolve_guard_ref lookup nemoir_web_runtime.Js.Value.to_boolean
    nemoir_web_runtime.Evaluator.eval_compare nemoir_web_runtime.Js.Dict.get
    nemoir_web_runtime.Js.Value.primitive_lt nemoir_web_runtime.Js.Value.related
    nemoir_web_runtime.Js.Value.to_primitive nemoir_web_runtime.Js.Value.to_number
    nemoir_web_runtime.Js.Number.ordered_lt nemoir_web_runtime.Js.Number.is_negative
select_transition-best_example =
    select_transition-best engine inputs scored (λ t. true) draft (refl, (refl, tt))
      (refl, (refl, tt))

visit_stage-reads_example :
    (¬ All (IsAvailable [] []) draft.reads
      × (visit_stage runtime no_inputs (codes "draft") [] 0 start ≡ (err data_unavailable, start)))
    ⊎ (All (IsAvailable [] []) draft.reads
        × ((readable : Dict Value) × Starts runtime no_inputs
              (codes "draft")
              draft
              []
              0
              start
              readable))
unfolding lookup ◌==◌
visit_stage-reads_example =
    visit_stage-reads runtime no_inputs (codes "draft") draft refl [] 0 start

-- The visit without the input throws.
unread_test :
    visit_stage runtime no_inputs (codes "draft") [] 0 start ≡ (err data_unavailable, start)
unfolding visit_stage nemoir_web_runtime.Runtime.require_stage lookup ◌==◌ resolve_reads
    resolve_guard_ref nemoir_web_runtime.Js.Dict.get nemoir_web_runtime.Events.◌>>=◌
unread_test = refl

-- The score is good, so the stage `draft` leads to `done` and not, by the second transition, to itself.
run_test :
    (run runtime run_env start).0
    ≡ ok (record {
      output = (codes "score", num three) ∷ [];
      state = record {
        current_stage_id = codes "done";
        stage_outputs =
            (codes "draft", (codes "score", num three) ∷ [])
            ∷ (codes "done", (codes "score", num three) ∷ [])
            ∷ [];
        steps = 2;
      };
    })
unfolding nemoir_web_runtime.Js.Text.ends_with nemoir_web_runtime.Js.Text.contains
    nemoir_web_runtime.Js.Number.ordered_lt nemoir_web_runtime.Js.Number.number_eq
    nemoir_web_runtime.Js.Number.number_le nemoir_web_runtime.Js.Value.to_boolean
    nemoir_web_runtime.Js.Value.primitive_lt nemoir_web_runtime.Js.Value.related
    nemoir_web_runtime.Js.Value.to_primitive nemoir_web_runtime.Js.Value.to_number
    nemoir_web_runtime.Js.Dict.lookup nemoir_web_runtime.Js.Dict.insert
    nemoir_web_runtime.Js.Dict.keys nemoir_web_runtime.Js.Dict.get
    nemoir_web_runtime.Evaluator.compare_op nemoir_web_runtime.Evaluator.eval_compare
    nemoir_web_runtime.Evaluator.evaluate_guard nemoir_web_runtime.Evaluator.Refs.resolve_guard_ref
    nemoir_web_runtime.Output.validate_output
    nemoir_web_runtime.Output.normalize_optional_empty_arrays
    nemoir_web_runtime.Output.WriteType.write_type
    nemoir_web_runtime.Output.WriteType.validate_write_type
    nemoir_web_runtime.Transitions.resolve_reads nemoir_web_runtime.Transitions.select_transition
    nemoir_web_runtime.Events.◌>>=◌ nemoir_web_runtime.Events.emit
    nemoir_web_runtime.Events.record_entry nemoir_web_runtime.Runtime.require_stage
    nemoir_web_runtime.Runtime.complete_run nemoir_web_runtime.Runtime.follow_transition
    nemoir_web_runtime.Runtime.store_output nemoir_web_runtime.Runtime.visit_stage
    nemoir_web_runtime.Runtime.check_signal nemoir_web_runtime.Runtime.run_loop
    nemoir_web_runtime.Runtime.settle_run nemoir_web_runtime.Runtime.run eval_expr
run_test = refl
