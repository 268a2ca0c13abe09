-- ===== src/Models/Contract.antt =====
-- model-contract.ts: what a model adapter takes and returns, and the choice of the adapter of a stage.
use nemoir_web_runtime.Prelude.{
  ℕ, Bool, true, false, not, ◌&&◌, Option, none, some, List, [], if◌then◌else◌,
}
use nemoir_web_runtime.Errors.{Error, Result, ok, err, other_error}
use nemoir_web_runtime.Js.Text.{JsString, codes, ◌==◌}
use nemoir_web_runtime.Js.Value.{Value}
use nemoir_web_runtime.Js.Dict.{Dict, lookup}
use nemoir_web_runtime.Models.Schema.{OutputSchema, ToolSchema}

pub record ModelToolCall : Type 0 where
  pub id : JsString
  pub name : JsString
  pub arguments : Dict Value

-- A `null` content and an empty one are both the empty string here; `toolCalls` that is left out is an
-- empty list.
pub record ModelResponse : Type 0 where
  pub content : JsString
  pub tool_calls : List ModelToolCall

-- `tc.id || \`call_${index}\``
pub data ToolCallId : Type 0 where
  given : JsString → ToolCallId
  call_at : ℕ → ToolCallId

-- The messages of a request, by what they are made from.
pub data Message : Type 0 where
  -- the system message: for a tagged envelope, with the tools
  instructions : Bool → List JsString → Message
  -- workflow, stage, prompt, readable context, allowed capabilities, tagged envelope
  stage_prompt : JsString → JsString → JsString → Dict Value → List JsString → Bool → Message
  -- error, tagged envelope, preview of the invalid content
  stage_retry : Error → Bool → Option JsString → Message
  assistant_calls : List ModelToolCall → Message
  tool_returned : ToolCallId → Value → Message
  tool_failed : ToolCallId → Error → Message
  assistant_content : JsString → Message
  named_tool_returned : JsString → Value → Message
  named_tool_failed : JsString → Error → Message

pub data ReasoningMode : Type 0 where
  no_reasoning raw : ReasoningMode

pub record ModelRequest : Type 0 where
  pub stage_id : JsString
  pub messages : List Message
  pub tools : List ToolSchema
  pub output_schema : OutputSchema
  pub reasoning : ReasoningMode

pub data ModelStreamChunk : Type 0 where
  -- channel, text
  delta : Option JsString → Option JsString → ModelStreamChunk
  completed : Option ModelResponse → ModelStreamChunk

-- The chunks that a stream yields, and the error that ends it, if one does.
pub record ModelStream : Type 0 where
  pub chunks : List ModelStreamChunk
  pub failure : Option Error

-- An adapter answers a request as it likes when the log of the run has `n` entries.
pub record ModelAdapter : Type 0 where
  pub complete : ℕ → ModelRequest → Result ModelResponse
  pub stream : Option (ℕ → ModelRequest → ModelStream)
  pub reasoning : Option JsString

-- What a router may hold for a stage: an adapter, or the name or description of a model.
pub data RoutedModel : Type 0 where
  adapter : ModelAdapter → RoutedModel
  described : RoutedModel

pub data Model : Type 0 where
  single : ModelAdapter → Model
  -- the stages, the default
  router : Dict RoutedModel → RoutedModel → Model

abbrev pub supports_streaming : ModelAdapter → Bool
supports_streaming a = elim a.stream [ none ↦ false | some s ↦ true ]

unfoldable pub resolve_reasoning_mode : JsString → JsString → ReasoningMode
resolve_reasoning_mode adapter_reasoning override =
    if not (override == []) && not (override == codes "none")
    then raw
    else if adapter_reasoning == codes "raw"
    then raw
    else no_reasoning

abbrev as_adapter : RoutedModel → Result ModelAdapter
as_adapter (adapter a) = ok a
as_adapter described = err other_error

-- `router.stages?.[stageId] ?? router.default`; stages that are left out are an empty dictionary.
unfoldable pub model_for_stage : Model → JsString → Result ModelAdapter
model_for_stage (single a) stage_id = ok a
model_for_stage (router stages default) stage_id = elim (lookup stage_id stages) [
  | none ↦ as_adapter default
  | some routed ↦ as_adapter routed
]
