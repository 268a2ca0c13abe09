-- ===== src/Runtime/Numbered.antt =====
-- runtime.ts: the numbers of the events of a whole run.
use nemoir_web_runtime.Prelude.{ℕ, zero, suc, ◌+◌, refl, Option, [], length, Bool-cases, inl, inr}
use nemoir_web_runtime.Errors.{Result, ok, err}
use nemoir_web_runtime.Js.Text.{JsString, contains}
use nemoir_web_runtime.Js.Value.{Value}
use nemoir_web_runtime.Js.Dict.{Dict}
use nemoir_web_runtime.Manifest.{StageSpec}
use nemoir_web_runtime.Events.{WorkflowResult, State, pure}
use nemoir_web_runtime.Events.Sequence.{
  IsNumbered, Keeps, Keeps-lift, Keeps-pure, Keeps-throw, Keeps-if, Keeps-bind, emit-IsNumbered,
  record-IsNumbered,
}
use nemoir_web_runtime.Events.Predicates.{numbered}
use nemoir_web_runtime.Policy.Keeps.{enforce_and_call-Keeps}
use nemoir_web_runtime.Runtime.{
  StageContext, WorkflowRuntime, RunEnv, Visit, finished, go_on, complete_run, follow_transition,
  store_output, visit_stage, check_signal, run_loop, settle_run, fresh, begin, run,
  make_stage_context, env,
}

module _ (rt : WorkflowRuntime) (run_env : RunEnv) where
  completed :
      (stage : StageSpec) (raw : Dict Value) (outs : Dict (Dict Value)) (steps : ℕ)
      → Keeps IsNumbered (complete_run rt run_env stage raw outs steps)
  unfolding complete_run
  completed stage raw outs steps =
      Keeps-bind _ _ (Keeps-bind _ _ (emit-IsNumbered _) (λ _. record-IsNumbered _ refl))
        (λ _. Keeps-pure _)

  followed :
      (stage : StageSpec) (outs : Dict (Dict Value))
      → Keeps IsNumbered (follow_transition rt run_env stage outs)
  unfolding follow_transition
  followed stage outs = Keeps-bind _ _ (Keeps-lift _) (λ t.
      Keeps-bind _ _ (Keeps-bind _ _ (record-IsNumbered _ refl) (λ _. emit-IsNumbered _))
        (λ _. Keeps-pure _))

  output_stored :
      (stage : StageSpec) (raw : Dict Value) (outs : Dict (Dict Value)) (steps : ℕ)
      → Keeps IsNumbered (store_output rt run_env stage raw outs steps)
  unfolding store_output
  output_stored stage raw outs steps =
      Keeps-bind _ _ (Keeps-bind _ _ (Keeps-lift _) (λ _. emit-IsNumbered _)) (λ _.
        Keeps-if (contains rt.manifest.exit_stage_ids stage.id) (completed stage raw _ _)
          (followed stage _))

  signal : Keeps IsNumbered (check_signal rt run_env)
  unfolding check_signal
  signal = record {
    at = λ s h. elim (Bool-cases (run_env.aborted (length s.log))) [
      | inl gone ↦ rw gone h
      | inr fine ↦ rw fine h
    ];
  }

  settled :
      (r : Result WorkflowResult) (s : State)
      → IsNumbered s
      → IsNumbered (settle_run rt run_env r s).1
  unfolding settle_run
  settled (ok r) s h = h
  settled (err e) s h =
      (Keeps-if (run_env.aborted (length s.log))
          (Keeps-bind _ _ (record-IsNumbered _ refl) (λ _. Keeps-throw e))
          (Keeps-bind _ _
            (Keeps-bind _ _ (Keeps-bind _ _ (record-IsNumbered _ refl) (λ _. emit-IsNumbered _))
              (λ _. record-IsNumbered _ refl))
            (λ _. Keeps-throw e))).at
        s h

  module _
      (executor : (ctx : StageContext)
        → ((cap : JsString) (args : Dict Value) (name : Option JsString)
            → Keeps IsNumbered (ctx.call_tool cap args name))
        → Keeps IsNumbered (rt.stage_executor ctx)) where
    visited :
        (id : JsString) (outs : Dict (Dict Value)) (steps : ℕ)
        → Keeps IsNumbered (visit_stage rt run_env id outs steps)
    unfolding visit_stage make_stage_context nemoir_web_runtime.Policy.enforce_and_call
    visited id outs steps = Keeps-bind _ _ (Keeps-lift _) (λ stage.
        Keeps-bind _ _ (Keeps-lift _) (λ readable.
          Keeps-bind _ _
            (Keeps-bind _ _ (Keeps-bind _ _ (record-IsNumbered _ refl) (λ _. emit-IsNumbered _))
              (λ _. executor (make_stage_context rt run_env stage readable) (λ cap args name.
                enforce_and_call-Keeps IsNumbered numbered (env rt run_env) stage cap args name)))
            (λ raw. output_stored stage raw outs steps)))

    looped :
        (left : ℕ) (id : JsString) (outs : Dict (Dict Value)) (steps : ℕ)
        → Keeps IsNumbered (run_loop rt run_env left id outs steps)
    unfolding run_loop
    looped zero id outs steps = Keeps-throw _
    looped (suc left) id outs steps =
        Keeps-bind _ _ (Keeps-bind _ _ signal (λ _. visited id outs steps)) (
          after
            (λ (next : JsString) (outs' : Dict (Dict Value)). looped left next outs' (steps + 1)))
      where
        after :
            ((next : JsString) (outs' : Dict (Dict Value))
              → Keeps IsNumbered (run_loop rt run_env left next outs' (steps + 1)))
            → (v : Visit)
            → Keeps IsNumbered (elim v [
              | finished result ↦ pure result
              | go_on next outs' ↦ run_loop rt run_env left next outs' (steps + 1)
            ])
        after ih (finished r) = Keeps-pure r
        after ih (go_on next outs') = ih next outs'

    begun : Keeps IsNumbered (begin rt run_env)
    unfolding begin
    begun =
        Keeps-bind _ _ (Keeps-bind _ _ (record-IsNumbered _ refl) (λ _. emit-IsNumbered _)) (λ _.
          record {
            at = λ t k.
                settled _ _ ((looped run_env.max_steps rt.manifest.entry_stage_id [] 0).at t k);
          })

    -- The events of a run are numbered from 1 without gaps, whether it returns or throws, if the stage
    -- executor keeps them so wherever the tool calls of its context do.
    pub run-IsNumbered : (s : State) → IsNumbered (run rt run_env s).1
    unfolding run fresh
    run-IsNumbered s = begun.at (fresh rt run_env s) refl
