-- ===== src/Models/Executor/Rounds.antt =====
-- models.ts: the rounds of `ModelStageExecutor.execute`.
use nemoir_web_runtime.Prelude.{
  ℕ, zero, suc, ◌+◌, Bool, not, ◌&&◌, Option, none, some, List, [], ◌∷◌, ◌++◌, map, leb,
  if◌then◌else◌,
}
use nemoir_web_runtime.Errors.{Error, Result, ok, err, model_output_validation, model_provider}
use nemoir_web_runtime.Errors
use nemoir_web_runtime.Js.Text.{JsString, codes}
use nemoir_web_runtime.Js.Value.{Value}
use nemoir_web_runtime.Js.Dict.{Dict, lookup}
use nemoir_web_runtime.Tools.{Tool}
use nemoir_web_runtime.Events.{
  Exec, pure, throw, lift, ◌>>=◌, ◌>>◌, emit, RetryCategory, tool_call_parse, stage_output,
  semantic_output, tool_call, model_retry,
}
use nemoir_web_runtime.Runtime.{StageContext}
use nemoir_web_runtime.Models.Schema.{OutputSchema, output_schema_for_stage, tool_json_schema}
use nemoir_web_runtime.Models.Contract.{
  ModelToolCall, ModelResponse, Message, instructions, stage_prompt, assistant_calls,
  assistant_content, named_tool_returned, named_tool_failed, ModelRequest, ModelAdapter,
  resolve_reasoning_mode, model_for_stage,
}
use nemoir_web_runtime.Models.Output.{normalize_stage_output}
use nemoir_web_runtime.Models.Envelope.{
  Host, StageAction, final, parse_plain_stage_output, parse_tagged_envelope,
}
use nemoir_web_runtime.Models.Envelope
use nemoir_web_runtime.Models.Executor.{
  ModelStageExecutor, trimmed, judged, attempt, is_native, is_empty, Turn, answered, invalid,
  used_tools, feedback, stage_retry_message, stage_tools, use_tagged_envelope, use_tool, use_tools,
}
use nemoir_web_runtime.Models.Executor.Asking.{ask}

abbrev tool_name : Tool → JsString
tool_name t = t.name

abbrev or_none : Option JsString → JsString
or_none none = codes "none"
or_none (some reasoning) = reasoning

module _ (js : Host) (x : ModelStageExecutor) (ctx : StageContext) where
  unfoldable pub build_initial_messages : List Message
  build_initial_messages =
      instructions (use_tagged_envelope js x ctx)
        (if use_tagged_envelope js x ctx then map tool_name (stage_tools js x ctx) else [])
      ∷ stage_prompt ctx.workflow_id ctx.stage.id ctx.stage.prompt ctx.readable_context
          ctx.allowed_capabilities (use_tagged_envelope js x ctx)
      ∷ []

  -- `semanticValidationError`, as the list of errors
  unfoldable pub semantic_validation_error : Dict Value → Result (List JsString)
  semantic_validation_error output = elim (lookup ctx.stage.id x.validators) [
    | none ↦ ok []
    | some validator ↦
        Errors.◌>>=◌ (validator output ctx.readable_context)
          (λ answer. ok (trimmed js.trim (judged answer)))
  ]

  -- The `catch` of the checks: a validation error is retried.
  unfoldable pub caught : RetryCategory → Option JsString → Error → Exec Turn
  caught category content model_output_validation =
      pure (invalid model_output_validation category content)
  caught category content e = throw e

  unfoldable pub on_judgement : JsString → Dict Value → Result (List JsString) → Exec Turn
  unfolding caught
  on_judgement content normalized (ok []) = pure (answered normalized)
  on_judgement content normalized (ok (e ∷ es)) =
      pure (invalid model_output_validation semantic_output (some content))
  on_judgement content normalized (err e) = caught stage_output (some content) e

  unfoldable pub on_normalized : JsString → Result (Dict Value) → Exec Turn
  unfolding on_judgement caught semantic_validation_error
  on_normalized content (err e) = caught stage_output (some content) e
  on_normalized content (ok normalized) =
      on_judgement content normalized (semantic_validation_error normalized)

  -- The end of a round: the parsed output is normalised and judged.
  unfoldable pub check_output : JsString → Dict Value → Exec Turn
  unfolding on_normalized
  check_output content parsed =
      on_normalized content (normalize_stage_output js.copied ctx.stage parsed)

  unfoldable pub on_plain : JsString → Result (Dict Value) → Exec Turn
  unfolding caught check_output
  on_plain content (ok parsed) = check_output content parsed
  on_plain content (err e) = caught stage_output (some content) e

  -- A tool call of a tagged envelope, within the limit of tool rounds.
  unfoldable pub tagged_call : ℕ → JsString → JsString → Dict Value → Exec Turn
  tagged_call tool_rounds content name args =
      if leb x.max_tool_rounds tool_rounds
      then throw model_output_validation
      else (attempt (use_tool js x ctx name args) >>= λ outcome.
          feedback (named_tool_returned name) (named_tool_failed name) outcome >>= λ told.
          pure (used_tools (assistant_content content ∷ told.0 ∷ []) told.1))

  unfoldable pub on_action : ℕ → JsString → Result StageAction → Exec Turn
  unfolding caught check_output tagged_call
  on_action tool_rounds content (ok (final output)) = check_output content output
  on_action tool_rounds content (ok (Envelope.tool_call name args)) =
      tagged_call tool_rounds content name args
  on_action tool_rounds content (err e) = caught stage_output (some content) e

  -- The calls of a native response, within the limit of tool rounds.
  unfoldable pub native_calls : ℕ → List ModelToolCall → Exec Turn
  native_calls tool_rounds calls =
      if leb x.max_tool_rounds tool_rounds
      then throw model_output_validation
      else (use_tools js x ctx 0 calls >>= λ told.
          pure (used_tools (assistant_calls calls ∷ told.0) told.1))

  unfoldable pub on_response : ℕ → Result ModelResponse → Exec Turn
  unfolding caught on_plain on_action native_calls
  on_response tool_rounds (err e) = caught tool_call_parse none e
  on_response tool_rounds (ok response) =
      if is_native x.action_protocol && not (is_empty response.tool_calls)
      then native_calls tool_rounds response.tool_calls
      else if is_empty response.content
      then throw model_provider
      else if use_tagged_envelope js x ctx
      then on_action tool_rounds response.content (parse_tagged_envelope js response.content)
      else on_plain response.content (parse_plain_stage_output js response.content)

  module _ (adapter : ModelAdapter) (schema : OutputSchema) where
    unfoldable pub make_request : List Message → ModelRequest
    make_request messages = record {
      stage_id = ctx.stage.id;
      messages = messages;
      tools = map tool_json_schema (stage_tools js x ctx);
      output_schema = schema;
      reasoning = resolve_reasoning_mode (or_none adapter.reasoning) ctx.options.reasoning;
    }

    -- A round of the loop, after `toolRounds` rounds of tool calls.
    unfoldable pub turn : ℕ → List Message → Exec Turn
    unfolding on_response make_request
    turn tool_rounds messages =
        attempt (ask ctx.options.has_live_sink adapter (make_request messages)) >>= λ response.
        on_response tool_rounds response

    unfoldable pub report_tool_error : Bool → ℕ → Exec (Unit {0})
    report_tool_error had_tool_error tool_rounds =
        if had_tool_error
        then emit (model_retry ctx.stage.id tool_call tool_rounds x.max_tool_rounds)
        else pure tt

    -- The end of a round, with the counts `retryCount` and `toolRounds` and the messages. `again` is
    -- what follows `continue`.
    unfoldable pub go_on :
        (ℕ → ℕ → List Message → Exec (Dict Value)) → ℕ → ℕ → List Message → Turn → Exec (Dict Value)
    unfolding report_tool_error
    go_on again retry_count tool_rounds messages (answered normalized) = pure normalized
    go_on again retry_count tool_rounds messages (invalid e category content) =
        if leb ctx.options.max_model_retries retry_count
        then throw e
        else emit
            (model_retry ctx.stage.id category (retry_count + 1) ctx.options.max_model_retries)
          >> again (retry_count + 1) tool_rounds
              (messages ++ stage_retry_message e (use_tagged_envelope js x ctx) content ∷ [])
    go_on again retry_count tool_rounds messages (used_tools told had_tool_error) =
        report_tool_error had_tool_error (tool_rounds + 1)
        >> again retry_count (tool_rounds + 1) (messages ++ told)

    -- The loop. `stuck` is what follows when the first number, of rounds that may be taken, is used up.
    unfoldable pub run_rounds : Exec (Dict Value) → ℕ → ℕ → ℕ → List Message → Exec (Dict Value)
    unfolding turn go_on
    run_rounds stuck zero retry_count tool_rounds messages = stuck
    run_rounds stuck (suc fuel) retry_count tool_rounds messages =
        turn tool_rounds messages
        >>= go_on (λ (r : ℕ) (t : ℕ) (m : List Message). run_rounds stuck fuel r t m) retry_count
            tool_rounds messages

  -- The loop, of which at most `rounds` rounds are taken.
  unfoldable pub execute_rounds : Exec (Dict Value) → ℕ → Exec (Dict Value)
  unfolding run_rounds build_initial_messages
  execute_rounds stuck rounds = lift (model_for_stage x.model ctx.stage.id) >>= λ adapter.
      lift (output_schema_for_stage ctx.stage) >>= λ schema.
      run_rounds adapter schema stuck rounds 0 0 build_initial_messages

  -- Every round but the last is a retry or a round of tool calls.
  abbrev pub enough_rounds : ℕ
  enough_rounds = suc (ctx.options.max_model_retries + x.max_tool_rounds)

  unfoldable pub execute_within : Exec (Dict Value) → Exec (Dict Value)
  unfolding execute_rounds
  execute_within stuck = execute_rounds stuck enough_rounds

  -- `execute`
  unfoldable pub execute : Exec (Dict Value)
  unfolding execute_within
  execute = execute_within (throw model_output_validation)
