-- ===== src/Runtime/Results.antt =====
-- runtime.ts: what `run` returns and throws.
use nemoir_web_runtime.Prelude.{
  ℕ, zero, suc, ◌+◌, ◌≤◌, ◌<◌, ◌≡◌, refl, ap, ◌∙◌, inl, inr, true, some, List, [], ◌∷◌, arith, All,
  Bool-cases, subst, length,
}
use nemoir_web_runtime.Errors.{
  Error, Result, ok, err, data_unavailable, policy_evaluation, stage_output_validation,
  no_transition_matched, max_steps_exceeded, runtime_error,
}
use nemoir_web_runtime.Js.Text.{JsString, contains}
use nemoir_web_runtime.Js.Value.{Value, Engine}
use nemoir_web_runtime.Js.Dict.{Dict, lookup, has, has-lookup, lookup-insert_self}
use nemoir_web_runtime.Manifest.{StageSpec, TransitionSpec}
use nemoir_web_runtime.Evaluator.Raises.{IsConversionError, IsEvaluationError}
use nemoir_web_runtime.Transitions.{resolve_reads, select_transition}
use nemoir_web_runtime.Transitions.Reads.{resolve_reads-error, select_transition-error}
use nemoir_web_runtime.Transitions.Selection.{select_transition-All}
use nemoir_web_runtime.Output.Validation.{validate_output-error}
use nemoir_web_runtime.Output.{validate_output, normalize_optional_empty_arrays}
use nemoir_web_runtime.Events.{WorkflowResult, State, pure, ◌>>=◌, emit, record_entry}
use nemoir_web_runtime.Events.Outcomes.{
  Outcome, Ends, Ends-lift, Ends-pure, Ends-throw, Ends-if, Ends-emit, Ends-emit_keeping,
  Ends-record, Ends-bind,
}
use nemoir_web_runtime.Runtime.{
  StageContext, WorkflowRuntime, RunEnv, Visit, finished, go_on, targets, require_stage,
  make_stage_context, complete_run, follow_transition, store_output, visit_stage, check_signal,
  run_loop, settle_run, fresh, begin, run,
}
use nemoir_web_runtime.Runtime.Stages.{IsClosed}

-- The errors of a run: those of its own steps, those of a conversion to a primitive in a guard, and
-- those that its stage executor throws, which satisfy `X`. `WorkflowValidationError` is not among the
-- first.
pub data IsRunError (engine : Engine) (X : Error → Type 0) (e : Error) : Type 0 where
  of_steps : e ≡ max_steps_exceeded → IsRunError engine X e
  of_signal : e ≡ runtime_error → IsRunError engine X e
  of_data : e ≡ data_unavailable → IsRunError engine X e
  of_guard : e ≡ policy_evaluation → IsRunError engine X e
  of_transition : e ≡ no_transition_matched → IsRunError engine X e
  of_output : e ≡ stage_output_validation → IsRunError engine X e
  of_conversion : IsConversionError engine e → IsRunError engine X e
  of_executor : X e → IsRunError engine X e

-- A finished run, with at most `most` steps: it ended at an exit stage, on an output that is valid for
-- that stage, and its state holds the normalised output under the stage's id.
pub record IsFinished (rt : WorkflowRuntime) (most : ℕ) (r : WorkflowResult) : Type 0 where
  pub within : r.state.steps ≤ most
  pub moved : 0 < r.state.steps
  pub exits : contains rt.manifest.exit_stage_ids r.state.current_stage_id ≡ true
  pub stage : StageSpec
  pub found : lookup r.state.current_stage_id rt.stage_map ≡ some stage
  pub valid : validate_output stage r.output ≡ ok tt
  pub stored :
      lookup r.state.current_stage_id r.state.stage_outputs
      ≡ some (normalize_optional_empty_arrays stage r.output)

All-targets :
    (P : JsString → Type 0) (ts : List TransitionSpec) → All P (targets ts) → All (λ t. P t.to) ts
All-targets P [] h = tt
All-targets P (t ∷ ts) (h, hs) = (h, All-targets P ts hs)

-- How the visit of a stage after `steps` steps may end.
abbrev VisitEnds : WorkflowRuntime → ℕ → Visit → Type 0
VisitEnds rt steps (finished r) = IsFinished rt (steps + 1) r
VisitEnds rt steps (go_on id outs) = has id rt.stage_map ≡ true

of_evaluation :
    (engine : Engine) (X : Error → Type 0) (e : Error)
    → IsEvaluationError engine e
    → IsRunError engine X e
of_evaluation engine X e (inl h) = of_data h
of_evaluation engine X e (inr (inl h)) = of_guard h
of_evaluation engine X e (inr (inr h)) = of_conversion h

module _ (engine : Engine) (X : Error → Type 0) where
  reads-Outcome :
      (stage : StageSpec) (inputs : Dict Value) (outs : Dict (Dict Value)) (r : Result (Dict Value))
      → resolve_reads stage inputs outs ≡ r
      → Outcome (λ _. Unit {0}) (IsRunError engine X) r
  reads-Outcome stage inputs outs (ok ctx) h = tt
  reads-Outcome stage inputs outs (err e) h = of_data (resolve_reads-error stage inputs outs e h)

  output-Outcome :
      (stage : StageSpec) (output : Dict Value) (r : Result (Unit {0}))
      → validate_output stage output ≡ r
      → Outcome (λ _. validate_output stage output ≡ ok tt) (IsRunError engine X) r
  output-Outcome stage output (ok u) h = h
  output-Outcome stage output (err e) h = of_output (validate_output-error stage output e h)

module _ (X : Error → Type 0) (rt : WorkflowRuntime) (run_env : RunEnv) (closed : IsClosed rt) where
  stage-Outcome :
      (id : JsString)
      → has id rt.stage_map ≡ true
      → Outcome
          (λ stage. lookup id rt.stage_map ≡ some stage)
          (IsRunError run_env.engine X)
          (require_stage rt run_env id)
  unfolding require_stage
  stage-Outcome id known =
      let (stage, found) = has-lookup id rt.stage_map known in rw (found, require_stage) refl

  selected-Outcome :
      (stage : StageSpec) (outs : Dict (Dict Value)) (r : Result TransitionSpec)
      → All (λ t. has t rt.stage_map ≡ true) (targets stage.transitions)
      → select_transition run_env.engine stage run_env.inputs outs ≡ r
      → Outcome (λ t. has t.to rt.stage_map ≡ true) (IsRunError run_env.engine X) r
  selected-Outcome stage outs (ok t) known h =
      (select_transition-All run_env.engine run_env.inputs outs (λ u. has u.to rt.stage_map ≡ true)
        stage t (All-targets _ stage.transitions known) h).0
  selected-Outcome stage outs (err e) known h =
      elim (select_transition-error run_env.engine run_env.inputs outs stage e h) [
        | inl k ↦ of_evaluation run_env.engine X e k
        | inr k ↦ of_transition k
      ]

  follow-Ends :
      (stage : StageSpec) (outs : Dict (Dict Value)) (steps : ℕ)
      → All (λ t. has t rt.stage_map ≡ true) (targets stage.transitions)
      → Ends
          (VisitEnds rt steps)
          (IsRunError run_env.engine X)
          (follow_transition rt run_env stage outs)
  unfolding follow_transition
  follow-Ends stage outs steps known =
      Ends-bind (λ t. has t.to rt.stage_map ≡ true) _ _ _ _
        (Ends-lift _ _ _ (selected-Outcome stage outs _ known refl))
        (λ t there.
          Ends-bind (λ _. Unit {0}) _ _ _ _
            (Ends-bind (λ _. Unit {0}) _ _ _ _ (Ends-record _ _) (λ _ _. Ends-emit _ _))
            (λ _ _. Ends-pure _ _ _ there))

  complete-Ends :
      (stage : StageSpec) (raw : Dict Value) (outs : Dict (Dict Value)) (steps : ℕ)
      → lookup stage.id rt.stage_map ≡ some stage
      → contains rt.manifest.exit_stage_ids stage.id ≡ true
      → validate_output stage raw ≡ ok tt
      → lookup stage.id outs ≡ some (normalize_optional_empty_arrays stage raw)
      → Ends
          (VisitEnds rt steps)
          (IsRunError run_env.engine X)
          (complete_run rt run_env stage raw outs (steps + 1))
  unfolding complete_run
  complete-Ends stage raw outs steps found exits valid stored =
      Ends-bind (λ _. Unit {0}) _ _ _ _
        (Ends-bind (λ _. Unit {0}) _ _ _ _ (Ends-emit _ _) (λ _ _. Ends-record _ _))
        (λ _ _. Ends-pure _ _ _ (record {
          within = omega arith;
          moved = omega arith;
          exits = exits;
          stage = stage;
          found = found;
          valid = valid;
          stored = stored;
        }))

  store-Ends :
      (stage : StageSpec) (raw : Dict Value) (outs : Dict (Dict Value)) (steps : ℕ)
      → lookup stage.id rt.stage_map ≡ some stage
      → Ends
          (VisitEnds rt steps)
          (IsRunError run_env.engine X)
          (store_output rt run_env stage raw outs steps)
  unfolding store_output
  store-Ends stage raw outs steps found =
      Ends-bind (λ _. validate_output stage raw ≡ ok tt) _ _ _ _
        (Ends-bind (λ _. validate_output stage raw ≡ ok tt) _ _ _ _
          (Ends-lift _ _ _ (output-Outcome run_env.engine X stage raw _ refl))
          (λ _ valid. Ends-emit_keeping _ _ _ valid))
        (λ _ valid.
          Ends-if _ _ (contains rt.manifest.exit_stage_ids stage.id)
            (λ exits.
              complete-Ends stage raw _ steps found exits valid
                (lookup-insert_self stage.id _ outs))
            (λ _. follow-Ends stage _ steps (closed.follows stage.id stage found)))

  visit-Ends :
      (raises : (ctx : StageContext) (s : State) (e : Error)
        → (rt.stage_executor ctx s).0 ≡ err e
        → X e)
      (id : JsString) (outs : Dict (Dict Value)) (steps : ℕ)
      → has id rt.stage_map ≡ true
      → Ends
          (VisitEnds rt steps)
          (IsRunError run_env.engine X)
          (visit_stage rt run_env id outs steps)
  unfolding visit_stage
  visit-Ends raises id outs steps known =
      Ends-bind (λ stage. lookup id rt.stage_map ≡ some stage) _ _ _ _
        (Ends-lift _ _ _ (stage-Outcome id known))
        (λ stage found.
          Ends-bind (λ _. Unit {0}) _ _ _ _
            (Ends-lift _ _ _ (reads-Outcome run_env.engine X stage run_env.inputs outs _ refl))
            (λ readable _.
              Ends-bind (λ _. Unit {0}) _ _ _ _
                (Ends-bind (λ _. Unit {0}) _ _ _ _
                  (Ends-bind (λ _. Unit {0}) _ _ _ _ (Ends-record _ _) (λ _ _. Ends-emit _ _))
                  (λ _ _. executor-Ends (make_stage_context rt run_env stage readable)))
                (λ raw _. store-Ends stage raw outs steps (
                  ap (λ (j : JsString). lookup j rt.stage_map) (closed.named id stage found)
                  ∙ found))))
    where
      executor-Outcome :
          (ctx : StageContext) (s : State) (r : Result (Dict Value))
          → (rt.stage_executor ctx s).0 ≡ r
          → Outcome (λ _. Unit {0}) (IsRunError run_env.engine X) r
      executor-Outcome ctx s (ok raw) h = tt
      executor-Outcome ctx s (err e) h = of_executor (raises ctx s e h)

      executor-Ends :
          (ctx : StageContext)
          → Ends (λ _. Unit {0}) (IsRunError run_env.engine X) (rt.stage_executor ctx)
      executor-Ends ctx = record { at = λ s. executor-Outcome ctx s _ refl }

  signal-Ends : Ends (λ _. Unit {0}) (IsRunError run_env.engine X) (check_signal rt run_env)
  unfolding check_signal
  signal-Ends = record {
    at = λ s. elim (Bool-cases (run_env.aborted (length s.log))) [
      | inl gone ↦ rw gone (of_signal refl)
      | inr fine ↦ rw fine tt
    ];
  }

  module _
      (raises : (ctx : StageContext) (s : State) (e : Error)
        → (rt.stage_executor ctx s).0 ≡ err e
        → X e) where
    loop-Ends :
        (left steps : ℕ) (id : JsString) (outs : Dict (Dict Value))
        → has id rt.stage_map ≡ true
        → Ends
            (IsFinished rt (steps + left))
            (IsRunError run_env.engine X)
            (run_loop rt run_env left id outs steps)
    unfolding run_loop
    loop-Ends zero steps id outs known = Ends-throw _ _ _ (of_steps refl)
    loop-Ends (suc left) steps id outs known =
        Ends-bind (VisitEnds rt steps) _ _ _ _
          (Ends-bind (λ _. Unit {0}) _ _ _ _ signal-Ends
            (λ _ _. visit-Ends raises id outs steps known))
          (after (λ (next : JsString) (outs' : Dict (Dict Value)).
            loop-Ends left (steps + 1) next outs'))
      where
        after :
            ((next : JsString) (outs' : Dict (Dict Value))
              → has next rt.stage_map ≡ true
              → Ends
                  (IsFinished rt (steps + 1 + left))
                  (IsRunError run_env.engine X)
                  (run_loop rt run_env left next outs' (steps + 1)))
            → (v : Visit) → VisitEnds rt steps v
            → Ends (IsFinished rt (steps + suc left)) (IsRunError run_env.engine X) (elim v [
              | finished result ↦ pure result
              | go_on next outs' ↦ run_loop rt run_env left next outs' (steps + 1)
            ])
        after ih (finished r) f = Ends-pure _ _ _ (record {
          within = omega (arith, f.within);
          moved = f.moved;
          exits = f.exits;
          stage = f.stage;
          found = f.found;
          valid = f.valid;
          stored = f.stored;
        })
        after ih (go_on next outs') there =
            let same : steps + 1 + left ≡ steps + suc left = omega arith in
            subst
              (λ (n : ℕ).
                Ends (IsFinished rt n) (IsRunError run_env.engine X)
                  (run_loop rt run_env left next outs' (steps + 1)))
              same (ih next outs' there)

    settle-Outcome :
        (r : Result WorkflowResult) (s : State)
        → Outcome (IsFinished rt run_env.max_steps) (IsRunError run_env.engine X) r
        → Outcome
            (IsFinished rt run_env.max_steps)
            (IsRunError run_env.engine X)
            (settle_run rt run_env r s).0
    unfolding settle_run ◌>>=◌ emit record_entry
    settle-Outcome (ok r) s h = h
    settle-Outcome (err e) s h = elim (Bool-cases (run_env.aborted (length s.log))) [
      | inl gone ↦ rw gone h
      | inr fine ↦ rw fine h
    ]

    from_entry :
        Ends
          (IsFinished rt run_env.max_steps)
          (IsRunError run_env.engine X)
          (run_loop rt run_env run_env.max_steps rt.manifest.entry_stage_id [] 0)
    from_entry =
        let same : 0 + run_env.max_steps ≡ run_env.max_steps = omega arith in
        subst
          (λ (n : ℕ).
            Ends (IsFinished rt n) (IsRunError run_env.engine X)
              (run_loop rt run_env run_env.max_steps rt.manifest.entry_stage_id [] 0))
          same (loop-Ends run_env.max_steps 0 rt.manifest.entry_stage_id [] closed.entry)

    -- A run of a runtime that is closed (its entry and exit stages and the targets of its transitions are
    -- stages, each filed under its id) ends, whatever its executor does, where `X` holds of every error
    -- that the executor throws. If it returns, the result has at least one and at most `maxSteps`
    -- steps, stands at an exit stage, on an output that is valid for the stage, and holds that output,
    -- normalised, under the stage's id. If it throws, the error is one of the run's own (steps, signal,
    -- data, guards, transitions, output), one that the engine throws on the conversion of some
    -- value to a primitive (or `other_error`, for the `TypeError` on a symbol),
    -- or one of which `X` holds.
    pub run-Ends :
        Ends (IsFinished rt run_env.max_steps) (IsRunError run_env.engine X) (run rt run_env)
    unfolding run
    run-Ends = record { at = λ s. begun.at (fresh rt run_env s) }
      where
        begun :
            Ends (IsFinished rt run_env.max_steps) (IsRunError run_env.engine X) (begin rt run_env)
        begun =
            Ends-bind (λ _. Unit {0}) _ _ _ _
              (Ends-bind (λ _. Unit {0}) _ _ _ _ (Ends-record _ _) (λ _ _. Ends-emit _ _))
              (λ _ _. record { at = λ s. settle-Outcome _ _ (from_entry.at s) })
