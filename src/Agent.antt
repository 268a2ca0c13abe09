-- ===== src/Agent.antt =====
-- agent.ts: `WorkflowAgent`, which checks a workflow and its tools, and builds and runs the runtime.
pub mod Merged
pub mod Run
pub mod Outcome
use nemoir_web_runtime.Prelude.{
  ℕ, Bool, true, false, not, ◌&&◌, ◌||◌, Option, none, some, List, [], ◌∷◌, ◌++◌, some_of,
  if◌then◌else◌,
}
use nemoir_web_runtime.Errors.{Result, ok, err, require, ◌>>=◌, ◌>>◌, other_error}
use nemoir_web_runtime.Js.Text.{JsString, codes, ◌==◌}
use nemoir_web_runtime.Js.Value.{Value, arr}
use nemoir_web_runtime.Js.Dict.{get}
use nemoir_web_runtime.Manifest.{ExecutionKind, model, tool, StageSpec, WorkflowManifest}
use nemoir_web_runtime.Tools.{Tool, ToolRegistry, new_registry, get_tool, require_capabilities}
use nemoir_web_runtime.Ir.{WorkflowIrJson}
use nemoir_web_runtime.Ir.Conversion.{build_workflow_manifest}
use nemoir_web_runtime.Ir.Web.{validate_for_web}
use nemoir_web_runtime.Events
use nemoir_web_runtime.Runtime
use nemoir_web_runtime.Deterministic
use nemoir_web_runtime.Models.Contract.{Model}
use nemoir_web_runtime.Models.Executor.{ActionProtocol}
use nemoir_web_runtime.Models.Executor.Rounds
use nemoir_web_runtime.RunOptions.{PartialRunOptions}

-- What the page shows to the user. The question may be of any type, as the cast lets it be.
pub record WebUiHost : Type 0 where
  pub elicit : ℕ → Value → Option Value → Result Value
  pub confirm : ℕ → Value → Result Value

abbrev if_array : Value → Option Value
if_array (arr i xs) = some (arr i xs)
if_array v = none

unfoldable pub create_ui_tools : WebUiHost → List Tool
create_ui_tools ui =
    record {
      name = codes "elicit";
      capability = codes "user.elicit";
      input_schema = (codes "question", codes "string") ∷ (codes "options", codes "string[]") ∷ [];
      handler = λ n args.
          ui.elicit n (get (codes "question") args) (if_array (get (codes "options") args));
      preflight = none;
    }
    ∷ record {
      name = codes "confirm";
      capability = codes "user.confirm";
      input_schema = (codes "message", codes "string") ∷ [];
      handler = λ n args. ui.confirm n (get (codes "message") args);
      preflight = none;
    }
    ∷ []

-- `capabilitiesCovered.has(t.capability)`
abbrev pub covers : List Tool → JsString → Bool
covers tools cap = some_of (λ (t : Tool). t.capability == cap) tools

-- The loop over the tools of the UI.
unfoldable pub not_covered : List Tool → List Tool → List Tool
not_covered caller [] = []
not_covered caller (t ∷ ts) =
    let rest = not_covered caller ts in if covers caller t.capability then rest else t ∷ rest

unfoldable pub merge_tools : List Tool → List Tool → Result ToolRegistry
unfolding not_covered
merge_tools caller ui = new_registry (caller ++ not_covered caller ui)

-- `browser_tools` are the tools that `createBrowserTools` makes of the options.
pub record WorkflowAgentOptions : Type 0 where
  pub model_adapter : Option Model
  pub tools : List Tool
  pub ui_host : Option WebUiHost
  pub browser_tools : List Tool
  pub defaults : Option PartialRunOptions
  pub action_protocol : Option ActionProtocol

pub record WorkflowAgent : Type 0 where
  pub manifest : WorkflowManifest
  pub tools : ToolRegistry
  pub model_adapter : Option Model
  pub defaults : Option PartialRunOptions
  pub action_protocol : Option ActionProtocol

abbrev is_model_kind : ExecutionKind → Bool
is_model_kind model = true
is_model_kind tool = false

abbrev pub is_model_stage : StageSpec → Bool
is_model_stage s = is_model_kind s.execution.kind

abbrev is_given : {A : Type 0} → Option A → Bool
is_given none = false
is_given (some a) = true

-- `decodeWorkflowIr`, after the parse by zod, which is an argument.
unfoldable pub decode_workflow_ir : (Value → Option WorkflowIrJson) → Value → Result WorkflowIrJson
decode_workflow_ir parse raw = elim (parse raw) [
  | none ↦ err other_error
  | some ir ↦ elim (validate_for_web ir) [ [] ↦ ok ir | (issue ∷ issues) ↦ err other_error ]
]

abbrev ui_tools : Option WebUiHost → List Tool
ui_tools none = []
ui_tools (some host) = create_ui_tools host

-- A tool that would ask the user, where there is no UI host.
abbrev wants_host : Option Tool → Bool
wants_host none = false
wants_host (some t) = t.name == codes "elicit" || t.name == codes "confirm"

-- The last loop of the constructor.
unfoldable pub check_ui : Bool → List JsString → ToolRegistry → Result (Unit {0})
check_ui has_host [] tools = ok tt
check_ui has_host (cap ∷ caps) tools =
    require
      (not (
        (cap == codes "user.elicit" || cap == codes "user.confirm")
        && (wants_host (get_tool cap tools) && not has_host)))
      other_error
    >> check_ui has_host caps tools

unfoldable pub new_agent :
    (Value → Option WorkflowIrJson) → Value → WorkflowAgentOptions → Result WorkflowAgent
unfolding decode_workflow_ir merge_tools check_ui
new_agent parse raw opts = decode_workflow_ir parse raw >>= λ ir.
    let manifest = build_workflow_manifest ir in
    require (not (some_of is_model_stage manifest.stages) || is_given opts.model_adapter)
      other_error
    >> merge_tools opts.tools (ui_tools opts.ui_host ++ opts.browser_tools)
    >>= λ tools.
        require_capabilities manifest.capabilities tools
        >> check_ui (is_given opts.ui_host) manifest.capabilities tools
        >> ok (record {
          manifest = manifest;
          tools = tools;
          model_adapter = opts.model_adapter;
          defaults = opts.defaults;
          action_protocol = opts.action_protocol;
        })
