-- ===== src/Agent/Run.antt =====
-- agent.ts: `createRuntime` and `run`.
use nemoir_web_runtime.Prelude.{
  ℕ, Bool, true, false, Option, none, some, List, [], ◌∷◌, if◌then◌else◌,
}
use nemoir_web_runtime.Errors.{Result, ok, err, ◌>>=◌, other_error}
use nemoir_web_runtime.Js.Text.{JsString}
use nemoir_web_runtime.Js.Value.{Value, Engine}
use nemoir_web_runtime.Js.Dict.{Dict, insert}
use nemoir_web_runtime.Manifest.{StageSpec}
use nemoir_web_runtime.Tools.{ToolRegistry}
use nemoir_web_runtime.Events.{WorkflowResult, Exec, throw, lift}
use nemoir_web_runtime.Events
use nemoir_web_runtime.Runtime.{StageExecutor, WorkflowRuntime, new_runtime, RunEnv}
use nemoir_web_runtime.Runtime
use nemoir_web_runtime.Deterministic.{select_deterministic_tool}
use nemoir_web_runtime.Deterministic
use nemoir_web_runtime.Models.Envelope.{Host}
use nemoir_web_runtime.Models.Executor.{native, Validators, ModelStageExecutor, new_executor}
use nemoir_web_runtime.Models.Executor.Rounds
use nemoir_web_runtime.RunOptions.{PartialRunOptions, or_else, resolve_run_options}
use nemoir_web_runtime.Agent.{WorkflowAgent, is_model_stage}

-- The loop that plans the tools of tool stages.
unfoldable pub plan_tools : ToolRegistry → List StageSpec → Dict JsString → Result (Dict JsString)
plan_tools tools [] plan = ok plan
plan_tools tools (s ∷ ss) plan =
    if is_model_stage s
    then plan_tools tools ss plan
    else (select_deterministic_tool s tools >>= λ name. elim name [
      | none ↦ err other_error
      | some n ↦ if is_empty n then err other_error else plan_tools tools ss (insert s.id n plan)
    ])
  where
    is_empty : JsString → Bool
    is_empty [] = true
    is_empty (c ∷ n) = false

-- `options ?? this.defaults`
unfoldable pub resolved_options :
    Option PartialRunOptions → Option PartialRunOptions → Option PartialRunOptions
resolved_options none defaults = defaults
resolved_options (some options) defaults = some options

abbrev rounds_of : Option PartialRunOptions → ℕ
rounds_of none = 32
rounds_of (some opts) = or_else opts.max_tool_rounds 32

abbrev validators_of : Option PartialRunOptions → Validators
validators_of none = []
validators_of (some opts) = or_else opts.model_output_validators []

-- `modelExecutor`
unfoldable pub model_executor : WorkflowAgent → Option PartialRunOptions → Option ModelStageExecutor
model_executor agent options = elim agent.model_adapter [
  | none ↦ none
  | some adapter ↦ some (
      new_executor adapter agent.tools (some (rounds_of (resolved_options options agent.defaults)))
        (some (or_else agent.action_protocol native))
        (validators_of (resolved_options options agent.defaults)))
]

-- The executor that dispatches by the kind of the stage.
unfoldable pub composite_executor : Host → Dict JsString → Option ModelStageExecutor → StageExecutor
composite_executor js plan x ctx =
    if is_model_stage ctx.stage
    then (elim x [ none ↦ throw other_error | some executor ↦ Rounds.execute js executor ctx ])
    else Deterministic.execute plan ctx

unfoldable pub create_runtime :
    Host → WorkflowAgent → Option PartialRunOptions → Result WorkflowRuntime
unfolding plan_tools model_executor composite_executor
create_runtime js agent options = plan_tools agent.tools agent.manifest.stages [] >>= λ plan.
    new_runtime agent.manifest agent.tools
      (composite_executor js plan (model_executor agent options))

-- What surrounds a run: the engine, whether a sink listens, the abort signal and the tape.
pub record Surroundings : Type 0 where
  pub engine : Engine
  pub has_live_sink : Bool
  pub live : Bool
  pub tape : ℕ → JsString → Option Bool
  pub aborted : ℕ → Bool

-- `runtime.run` resolves the options that the caller gave; the agent's defaults are not among them.
unfoldable pub run_env_of : Surroundings → Dict Value → Option PartialRunOptions → RunEnv
run_env_of around inputs options = record {
  engine = around.engine;
  inputs = inputs;
  max_steps = (resolve_run_options options).max_steps;
  live = around.live;
  tape = around.tape;
  aborted = around.aborted;
  options = record {
    max_model_retries = (resolve_run_options options).max_model_retries;
    reasoning = (resolve_run_options options).reasoning;
    has_live_sink = around.has_live_sink;
  };
}

-- `WorkflowAgent.run`
unfoldable pub agent_run :
    Host
    → Surroundings
    → WorkflowAgent
    → Dict Value
    → Option PartialRunOptions
    → Exec WorkflowResult
unfolding create_runtime run_env_of
agent_run js around agent inputs options =
    Events.◌>>=◌ (lift (create_runtime js agent options))
      λ rt. Runtime.run rt (run_env_of around inputs options)
