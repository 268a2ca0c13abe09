-- ===== src/Models/Executor.antt =====
-- models.ts: `ModelStageExecutor`. A round of its loop is a `Turn`; `run_rounds` is the loop.
pub mod Asking
pub mod Rounds
pub mod Results
pub mod Bounded
pub mod Keeps
pub mod Requests
use nemoir_web_runtime.Prelude.{
  ℕ, zero, suc, ◌+◌, Bool, true, false, not, ◌&&◌, ◌||◌, Option, none, some, List, [], ◌∷◌,
  if◌then◌else◌,
}
use nemoir_web_runtime.Errors.{
  Error, Result, ok, err, model_output_validation, tool_invocation, policy_denied,
}
use nemoir_web_runtime.Errors
use nemoir_web_runtime.Js.Text.{JsString, ◌==◌, contains}
use nemoir_web_runtime.Js.Value.{Value}
use nemoir_web_runtime.Js.Dict.{Dict}
use nemoir_web_runtime.Tools.{Tool, ToolRegistry, get_by_name, tools_for_capabilities}
use nemoir_web_runtime.Events.{Exec, pure, throw, lift, ◌>>=◌, RetryCategory}
use nemoir_web_runtime.Events
use nemoir_web_runtime.Runtime.{StageContext}
use nemoir_web_runtime.Models.Contract.{
  ModelToolCall, ToolCallId, given, call_at, Message, stage_retry, tool_returned, tool_failed,
  Model,
}
use nemoir_web_runtime.Models.Output.{normalize_tool_args}
use nemoir_web_runtime.Models.Envelope.{Host}
use nemoir_web_runtime.Models.Envelope

pub data ActionProtocol : Type 0 where
  native tagged_envelope : ActionProtocol

-- What a semantic validator answers: nothing, one error, or a list of them.
pub data Judgement : Type 0 where
  no_answer : Judgement
  one_error : JsString → Judgement
  errors : List JsString → Judgement

-- Semantic validators by stage; one is given the normalised output and the stage's readable context.
abbrev pub Validators : Type 0
Validators = Dict (Dict Value → Dict Value → Result Judgement)

pub record ModelStageExecutor : Type 0 where
  pub model : Model
  pub tools : ToolRegistry
  pub max_tool_rounds : ℕ
  pub action_protocol : ActionProtocol
  pub validators : Validators

abbrev or_32 : Option ℕ → ℕ
or_32 none = 32
or_32 (some rounds) = rounds

abbrev or_native : Option ActionProtocol → ActionProtocol
or_native none = native
or_native (some protocol) = protocol

-- The constructor: `maxToolRounds ?? 32` and `actionProtocol ?? "native"`.
unfoldable pub new_executor :
    Model → ToolRegistry → Option ℕ → Option ActionProtocol → Validators → ModelStageExecutor
new_executor model tools rounds protocol validators = record {
  model = model;
  tools = tools;
  max_tool_rounds = or_32 rounds;
  action_protocol = or_native protocol;
  validators = validators;
}

abbrev pub is_native : ActionProtocol → Bool
is_native native = true
is_native tagged_envelope = false

abbrev pub is_empty : {A : Type 0} → List A → Bool
is_empty [] = true
is_empty (x ∷ xs) = false

-- `.map(trim).filter(Boolean)`
unfoldable pub trimmed : (JsString → JsString) → List JsString → List JsString
trimmed trim [] = []
trimmed trim (e ∷ es) =
    let rest = trimmed trim es in if is_empty (trim e) then rest else trim e ∷ rest

abbrev pub judged : Judgement → List JsString
judged no_answer = []
judged (one_error e) = e ∷ []
judged (errors es) = es

-- The outcome of a computation, as a value; `try` around it.
abbrev pub attempt : {A : Type 0} → Exec A → Exec (Result A)
attempt m s = let (r, s') = m s in (ok r, s')

-- The errors of a tool call that are fed back to the model.
abbrev pub is_correctable : Error → Bool
is_correctable model_output_validation = true
is_correctable tool_invocation = true
is_correctable policy_denied = true
is_correctable e = false

-- How a round goes on: with the output; with a retry for an error, of a category, after this content;
-- or with the messages of tool calls, of which one may have failed.
pub data Turn : Type 0 where
  answered : Dict Value → Turn
  invalid : Error → RetryCategory → Option JsString → Turn
  used_tools : List Message → Bool → Turn

-- `tc.id || \`call_${index}\``
unfoldable pub canonical_tool_call_id : ModelToolCall → ℕ → ToolCallId
canonical_tool_call_id tc index = if tc.id == [] then call_at index else given tc.id

-- The `catch` of a tool call: the message that goes back, and whether the call failed.
unfoldable pub feedback :
    (Value → Message) → (Error → Message) → Result Value → Exec (Message × Bool)
feedback returned failed (ok v) = pure (returned v, false)
feedback returned failed (err e) = if is_correctable e then pure (failed e, true) else throw e

-- `invalidContent.slice(0, 500)`, where there is any
unfoldable pub preview : ℕ → JsString → JsString
preview zero content = []
preview (suc n) [] = []
preview (suc n) (c ∷ content) = c ∷ preview n content

unfoldable pub stage_retry_message : Error → Bool → Option JsString → Message
unfolding preview
stage_retry_message e tagged invalid_content = elim invalid_content [
  | none ↦ stage_retry e tagged none
  | some content ↦
      stage_retry e tagged (if is_empty content then none else some (preview 500 content))
]

module _ (js : Host) (x : ModelStageExecutor) (ctx : StageContext) where
  unfoldable pub stage_tools : List Tool
  stage_tools = tools_for_capabilities ctx.allowed_capabilities x.tools

  unfoldable pub use_tagged_envelope : Bool
  use_tagged_envelope = not (is_native x.action_protocol) && not (is_empty stage_tools)

  -- The tool of a name, where the stage may use it; its checked arguments; the call.
  unfoldable pub use_tool : JsString → Dict Value → Exec Value
  use_tool name args = elim (get_by_name name x.tools) [
    | none ↦ throw model_output_validation
    | some tool ↦
        if not (contains ctx.allowed_capabilities tool.capability)
        then throw model_output_validation
        else (lift (normalize_tool_args tool args) >>= λ checked.
            ctx.call_tool tool.capability checked (some tool.name))
  ]

  -- The loop over `response.toolCalls`, from an index.
  unfoldable pub use_tools : ℕ → List ModelToolCall → Exec (List Message × Bool)
  use_tools i [] = pure ([], false)
  use_tools i (tc ∷ tcs) = attempt (use_tool tc.name tc.arguments) >>= λ outcome.
      feedback (tool_returned (canonical_tool_call_id tc i))
        (tool_failed (canonical_tool_call_id tc i)) outcome
      >>= λ told. use_tools (i + 1) tcs >>= λ others. pure (told.0 ∷ others.0, told.1 || others.1)
