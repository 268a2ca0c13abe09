-- ===== src/Runtime.antt =====
-- runtime.ts: `WorkflowRuntime`, its constructor and `run`.
pub mod Stages
pub mod Results
pub mod Numbered
pub mod Reads
pub mod Terminal
use nemoir_web_runtime.Prelude.{
  ℕ, zero, suc, ◌+◌, Bool, not, Option, none, some, List, [], ◌∷◌, length, if◌then◌else◌,
}
use nemoir_web_runtime.Errors.{
  Result, ok, err, require, workflow_validation, max_steps_exceeded, runtime_error,
}
use nemoir_web_runtime.Errors
use nemoir_web_runtime.Js.Text.{JsString, contains}
use nemoir_web_runtime.Js.Value.{Value, Engine}
use nemoir_web_runtime.Js.Dict.{Dict, lookup, has, insert}
use nemoir_web_runtime.Manifest.{StageSpec, TransitionSpec, WorkflowManifest}
use nemoir_web_runtime.Tools.{ToolRegistry, require_capabilities}
use nemoir_web_runtime.Transitions.{resolve_reads, select_transition}
use nemoir_web_runtime.Output.{validate_output, normalize_optional_empty_arrays}
use nemoir_web_runtime.Events.{
  WorkflowResult, Exec, State, pure, throw, lift, ◌>>=◌, ◌>>◌, emit, record_entry, run_started,
  stage_started, stage_completed, run_completed, run_failed, transition_selected, run_begun,
  stage_begun, transition_evaluated, run_error, run_finished, complete, failed, interrupted,
}
use nemoir_web_runtime.Policy.{Env, enforce_and_call}

-- The options of a run that the model executor reads.
pub record ModelOptions : Type 0 where
  pub max_model_retries : ℕ
  pub reasoning : JsString
  pub has_live_sink : Bool

-- What a stage executor is given. `call_tool` enforces the policies.
pub record StageContext : Type 0 where
  pub workflow_id : JsString
  pub stage : StageSpec
  pub inputs : Dict Value
  pub readable_context : Dict Value
  pub allowed_capabilities : List JsString
  pub options : ModelOptions
  pub call_tool : JsString → Dict Value → Option JsString → Exec Value

abbrev pub StageExecutor : Type 0
StageExecutor = StageContext → Exec (Dict Value)

pub record WorkflowRuntime : Type 0 where
  pub manifest : WorkflowManifest
  pub tools : ToolRegistry
  pub stage_executor : StageExecutor
  pub stage_map : Dict StageSpec

-- The loop that files the stages under their ids.
unfoldable pub file_stages : List StageSpec → Dict StageSpec → Result (Dict StageSpec)
file_stages [] stage_map = ok stage_map
file_stages (s ∷ ss) stage_map =
    Errors.◌>>◌ (require (not (has s.id stage_map)) workflow_validation)
      (file_stages ss (insert s.id s stage_map))

-- Every id of the list is a stage's.
unfoldable pub check_ids : List JsString → Dict StageSpec → Result (Unit {0})
check_ids [] stage_map = ok tt
check_ids (id ∷ ids) stage_map =
    Errors.◌>>◌ (require (has id stage_map) workflow_validation) (check_ids ids stage_map)

abbrev pub targets : List TransitionSpec → List JsString
targets [] = []
targets (t ∷ ts) = t.to ∷ targets ts

unfoldable pub check_targets : List StageSpec → Dict StageSpec → Result (Unit {0})
check_targets [] stage_map = ok tt
check_targets (s ∷ ss) stage_map =
    Errors.◌>>◌ (check_ids (targets s.transitions) stage_map) (check_targets ss stage_map)

-- The constructor. The policies by trigger are `policies_for`.
unfoldable pub new_runtime :
    WorkflowManifest → ToolRegistry → StageExecutor → Result WorkflowRuntime
new_runtime manifest tools stage_executor =
    Errors.◌>>=◌ (require_capabilities manifest.capabilities tools) λ _.
      Errors.◌>>=◌ (file_stages manifest.stages []) λ stage_map.
        Errors.◌>>=◌ (check_ids (manifest.entry_stage_id ∷ []) stage_map) λ _.
          Errors.◌>>=◌ (check_ids manifest.exit_stage_ids stage_map) λ _.
            Errors.◌>>=◌ (check_targets manifest.stages stage_map) λ _. ok (record {
              manifest = manifest;
              tools = tools;
              stage_executor = stage_executor;
              stage_map = stage_map;
            })

-- The options and surroundings of one run. `aborted n` says whether the signal is aborted when the log
-- has `n` entries.
pub record RunEnv : Type 0 where
  pub engine : Engine
  pub inputs : Dict Value
  pub max_steps : ℕ
  pub live : Bool
  pub tape : ℕ → JsString → Option Bool
  pub aborted : ℕ → Bool
  pub options : ModelOptions

-- How a stage visit ends: the run is over, or it goes on at a stage with these outputs.
pub data Visit : Type 0 where
  finished : WorkflowResult → Visit
  go_on : JsString → Dict (Dict Value) → Visit

module _ (rt : WorkflowRuntime) (run_env : RunEnv) where
  unfoldable pub env : Env
  env = record {
    engine = run_env.engine;
    registry = rt.tools;
    policies = rt.manifest.policies;
    inputs = run_env.inputs;
    live = run_env.live;
    tape = run_env.tape;
  }

  unfoldable pub require_stage : JsString → Result StageSpec
  require_stage id = elim (lookup id rt.stage_map) [
    | none ↦ err workflow_validation
    | some stage ↦ ok stage
  ]

  unfoldable pub make_stage_context : StageSpec → Dict Value → StageContext
  make_stage_context stage readable = record {
    workflow_id = rt.manifest.workflow_id;
    stage = stage;
    inputs = run_env.inputs;
    readable_context = readable;
    allowed_capabilities = stage.requires;
    options = run_env.options;
    call_tool = λ capability args tool_name. enforce_and_call env stage capability args tool_name;
  }

  -- The end of the run at an exit stage. The result has the output as the executor gave it.
  unfoldable pub complete_run : StageSpec → Dict Value → Dict (Dict Value) → ℕ → Exec Visit
  complete_run stage raw_output stage_outputs steps =
      let result : WorkflowResult = record {
        output = raw_output;
        state = record {
          current_stage_id = stage.id;
          stage_outputs = stage_outputs;
          steps = steps;
        };
      } in
      emit (run_completed result) >> record_entry (run_finished complete) >> pure (finished result)

  unfoldable pub follow_transition : StageSpec → Dict (Dict Value) → Exec Visit
  follow_transition stage stage_outputs =
      lift (select_transition run_env.engine stage run_env.inputs stage_outputs) >>= λ selected.
      record_entry (transition_evaluated stage.id)
      >> emit (transition_selected stage.id selected.to)
      >> pure (go_on selected.to stage_outputs)

  -- The output of a stage is validated, normalised and stored under the stage's id.
  unfoldable pub store_output : StageSpec → Dict Value → Dict (Dict Value) → ℕ → Exec Visit
  store_output stage raw_output stage_outputs steps =
      let normalized = normalize_optional_empty_arrays stage raw_output in
      let outputs = insert stage.id normalized stage_outputs in
      lift (validate_output stage raw_output)
      >> emit (stage_completed stage.id normalized)
      >> (if contains rt.manifest.exit_stage_ids stage.id
          then complete_run stage raw_output outputs (steps + 1)
          else follow_transition stage outputs)

  -- One round of the loop after its tests.
  unfoldable pub visit_stage : JsString → Dict (Dict Value) → ℕ → Exec Visit
  visit_stage current_id stage_outputs steps = lift (require_stage current_id) >>= λ stage.
      lift (resolve_reads stage run_env.inputs stage_outputs) >>= λ readable.
      record_entry (stage_begun stage.id)
      >> emit (stage_started stage.id)
      >> rt.stage_executor (make_stage_context stage readable)
      >>= λ raw_output. store_output stage raw_output stage_outputs steps

  unfoldable pub check_signal : Exec (Unit {0})
  check_signal s = if run_env.aborted (length s.log) then (err runtime_error, s) else (ok tt, s)

  -- The loop, by the steps that are left of `maxSteps`; `steps` have been taken.
  unfoldable pub run_loop : ℕ → JsString → Dict (Dict Value) → ℕ → Exec WorkflowResult
  run_loop zero current_id stage_outputs steps = throw max_steps_exceeded
  run_loop (suc left) current_id stage_outputs steps =
      check_signal >> visit_stage current_id stage_outputs steps >>= λ visit. elim visit [
        | finished result ↦ pure result
        | go_on id outputs ↦ run_loop left id outputs (steps + 1)
      ]

  -- The `catch` clause: an aborted run is interrupted with no event, any other error is reported.
  unfoldable pub settle_run : Result WorkflowResult → Exec WorkflowResult
  settle_run (ok result) s = (ok result, s)
  settle_run (err e) s =
      (if run_env.aborted (length s.log)
          then record_entry (run_finished interrupted) >> throw e
          else record_entry (run_error e)
            >> emit (run_failed e)
            >> record_entry (run_finished failed)
            >> throw e)
        s

  -- A run has an emitter of its own, whose sequence starts at 0, and a log of its own.
  unfoldable pub fresh : State → State
  fresh s = record s { sequence = 0; log = [] }

  -- The run after its emitter is made.
  unfoldable pub begin : Exec WorkflowResult
  begin =
      record_entry (run_begun run_env.inputs)
      >> emit (run_started rt.manifest.entry_stage_id)
      >> λ (s : State).
          let (r, s') = run_loop run_env.max_steps rt.manifest.entry_stage_id [] 0 s in
          settle_run r s'

  unfoldable pub run : Exec WorkflowResult
  unfolding begin fresh
  run s = begin (fresh s)
