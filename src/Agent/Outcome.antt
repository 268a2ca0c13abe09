-- ===== src/Agent/Outcome.antt =====
-- agent.ts: the events of a run of an agent.
use nemoir_web_runtime.Prelude.{
  ℕ, ◌≡◌, refl, sym, subst, ap, ◌∙◌, false, Option, none, some, [], ◌∷◌, Bool-cases, inl, inr,
}
use nemoir_web_runtime.Errors.{Result, ok, bind-eq-ok}
use nemoir_web_runtime.Js.Text.{JsString}
use nemoir_web_runtime.Js.Value.{Value}
use nemoir_web_runtime.Js.Dict.{Dict}
use nemoir_web_runtime.Manifest.{WorkflowManifest}
use nemoir_web_runtime.Tools.{ToolRegistry, require_capabilities}
use nemoir_web_runtime.Events.{WorkflowResult, State, ◌>>=◌}
use nemoir_web_runtime.Events.Sequence.{IsNumbered, Keeps, Keeps-lift, Keeps-bind}
use nemoir_web_runtime.Events.Terminal.{terminals}
use nemoir_web_runtime.Events.Predicates.{IsEnded}
use nemoir_web_runtime.Runtime.{
  StageContext, StageExecutor, WorkflowRuntime, new_runtime, run, file_stages, check_ids,
  check_targets,
}
use nemoir_web_runtime.Runtime.Numbered.{run-IsNumbered}
use nemoir_web_runtime.Runtime.Terminal.{run-terminals}
use nemoir_web_runtime.Deterministic
use nemoir_web_runtime.Models.Envelope.{Host}
use nemoir_web_runtime.Models.Executor.{ModelStageExecutor}
use nemoir_web_runtime.Models.Executor.Requests.{execute-IsNumbered, execute-IsEnded}
use nemoir_web_runtime.RunOptions.{PartialRunOptions}
use nemoir_web_runtime.Agent.{WorkflowAgent, is_model_stage}
use nemoir_web_runtime.Agent.Run.{
  plan_tools, model_executor, composite_executor, create_runtime, Surroundings, run_env_of,
  agent_run,
}

-- The tool calls of a context keep a predicate.
abbrev CallsKeep : (State → Type 0) → StageContext → Type 0
CallsKeep P ctx =
    (cap : JsString) (args : Dict Value) (name : Option JsString)
    → Keeps P (ctx.call_tool cap args name)

deterministic-Keeps :
    (P : State → Type 0) (plan : Dict JsString) (ctx : StageContext)
    → CallsKeep P ctx
    → Keeps P (Deterministic.execute plan ctx)
unfolding Deterministic.execute
deterministic-Keeps P plan ctx h = Keeps-bind _ _ (Keeps-lift _) (λ name.
    Keeps-bind _ _ (Keeps-lift _)
      (λ args. Keeps-bind _ _ (h _ args (some name)) (λ result. Keeps-lift _)))

composite-Keeps :
    (P : State → Type 0) (js : Host) (plan : Dict JsString) (x : Option ModelStageExecutor)
    (ctx : StageContext)
    → CallsKeep P ctx
    → ((executor : ModelStageExecutor)
        → Keeps P (nemoir_web_runtime.Models.Executor.Rounds.execute js executor ctx))
    → Keeps P (composite_executor js plan x ctx)
unfolding composite_executor
composite-Keeps P js plan none ctx calls model = record {
  at = λ s h. elim (Bool-cases (is_model_stage ctx.stage)) [
    | inl m ↦ rw m h
    | inr m ↦ rw m ((deterministic-Keeps P plan ctx calls).at s h)
  ];
}
composite-Keeps P js plan (some executor) ctx calls model = record {
  at = λ s h. elim (Bool-cases (is_model_stage ctx.stage)) [
    | inl m ↦ rw m ((model executor).at s h)
    | inr m ↦ rw m ((deterministic-Keeps P plan ctx calls).at s h)
  ];
}

ok-same : {A : Type 0} {a b : A} → ok a ≡ ok b → a ≡ b
ok-same h = cc

new_runtime-executor :
    (manifest : WorkflowManifest) (tools : ToolRegistry) (x : StageExecutor) (rt : WorkflowRuntime)
    → new_runtime manifest tools x ≡ ok rt
    → rt.stage_executor ≡ x
unfolding new_runtime
new_runtime-executor manifest tools x rt h =
    let (u, capable, h1) = bind-eq-ok (require_capabilities manifest.capabilities tools) _ h in
    let (filed, stages, h2) = bind-eq-ok (file_stages manifest.stages []) _ h1 in
    let (v, entry, h3) = bind-eq-ok (check_ids (manifest.entry_stage_id ∷ []) filed) _ h2 in
    let (w, exits, h4) = bind-eq-ok (check_ids manifest.exit_stage_ids filed) _ h3 in
    let (z, targets, h5) = bind-eq-ok (check_targets manifest.stages filed) _ h4 in
    ap (λ (r : WorkflowRuntime). r.stage_executor) (sym (ok-same h5))

module _ (js : Host) (agent : WorkflowAgent) (options : Option PartialRunOptions) where
  -- The executor of the runtime that an agent creates.
  created :
      (rt : WorkflowRuntime)
      → create_runtime js agent options ≡ ok rt
      → (plan : Dict JsString) × (rt.stage_executor
          ≡ composite_executor js plan (model_executor agent options))
  unfolding create_runtime
  created rt h =
      let (plan, planned, made) =
        bind-eq-ok (plan_tools agent.tools agent.manifest.stages []) _ h in
      (plan, new_runtime-executor _ _ _ rt made)

  module _ (around : Surroundings) (inputs : Dict Value) (s : State) where
    run-of_created :
        (rt : WorkflowRuntime)
        → create_runtime js agent options ≡ ok rt
        → agent_run js around agent inputs options s ≡ run rt (run_env_of around inputs options) s
    unfolding agent_run ◌>>=◌
    run-of_created rt h = rw h refl

    -- Where the runtime of an agent can be built and the abort signal is never raised, a run of the agent,
    -- of model stages and tool stages, emits exactly one event that ends it, whatever the model, the tools
    -- and the policies do.
    pub agent_run-terminals :
        (rt : WorkflowRuntime)
        → create_runtime js agent options ≡ ok rt
        → ((n : ℕ) → around.aborted n ≡ false)
        → terminals (agent_run js around agent inputs options s).1.log ≡ 1
    unfolding run_env_of
    agent_run-terminals rt h never =
        let (plan, same) = created rt h in
        ap (λ (r : Result WorkflowResult × State). terminals r.1.log) (run-of_created rt h)
        ∙ run-terminals rt (run_env_of around inputs options)
            (λ ctx n calls.
              subst (λ (x : StageExecutor). Keeps (IsEnded n) (x ctx)) (sym same)
                (composite-Keeps (IsEnded n) js plan (model_executor agent options) ctx calls
                  (λ executor. execute-IsEnded js executor ctx n calls)))
            never s

    -- Where the runtime of an agent can be built, the events of a run of the agent are numbered from 1
    -- without gaps, whether it returns or throws.
    pub agent_run-IsNumbered :
        (rt : WorkflowRuntime)
        → create_runtime js agent options ≡ ok rt
        → IsNumbered (agent_run js around agent inputs options s).1
    agent_run-IsNumbered rt h =
        let (plan, same) = created rt h in
        subst (λ (r : Result WorkflowResult × State). IsNumbered r.1) (sym (run-of_created rt h))
          (run-IsNumbered rt (run_env_of around inputs options)
            (λ ctx calls.
              subst (λ (x : StageExecutor). Keeps IsNumbered (x ctx)) (sym same)
                (composite-Keeps IsNumbered js plan (model_executor agent options) ctx calls
                  (λ executor. execute-IsNumbered js executor ctx calls)))
            s)
