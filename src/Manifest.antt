-- ===== src/Manifest.antt =====
-- manifest.ts, the specification types: a workflow's stages, transitions, guards and policies.
use nemoir_web_runtime.Prelude.{Bool, Option, List}
use nemoir_web_runtime.Js.Text.{JsString}
use nemoir_web_runtime.Js.Number.{Double}
use nemoir_web_runtime.Js.Value.{Value}
use nemoir_web_runtime.Js.Dict.{Dict}

pub data RefSpec : Type 0 where
  input : JsString → RefSpec
  node_output : JsString → JsString → RefSpec
  bound : JsString → RefSpec

mutual
  pub data ExprSpec : Type 0 where
    ref : RefSpec → ExprSpec
    literal : JsString → Value → ExprSpec
    not_ : ExprSpec → ExprSpec
    -- receiver, method, arguments
    method_call : ExprSpec → JsString → Exprs → ExprSpec
    and_ or_ : Exprs → ExprSpec
    -- operator, left, right
    compare binop : JsString → ExprSpec → ExprSpec → ExprSpec

  pub data Exprs : Type 0 where
    nil : Exprs
    cons : ExprSpec → Exprs → Exprs

pub data GuardSpec : Type 0 where
  always : GuardSpec
  has_value missing : RefSpec → GuardSpec
  eq : ExprSpec → ExprSpec → GuardSpec
  if_ : ExprSpec → GuardSpec

pub record ReadSpec : Type 0 where
  pub ref : RefSpec
  pub optional : Bool

pub record WriteSpec : Type 0 where
  pub name : JsString
  pub type : JsString
  pub optional : Bool

pub record TransitionSpec : Type 0 where
  pub to : JsString
  pub priority : Double
  pub reason : JsString
  pub guard : GuardSpec

pub data ExecutionKind : Type 0 where
  model tool : ExecutionKind

pub record StageExecutionSpec : Type 0 where
  pub kind : ExecutionKind
  pub capability : Option JsString
  pub args : Option (Dict ExprSpec)

pub record StageSpec : Type 0 where
  pub id : JsString
  pub prompt : JsString
  pub reads : List ReadSpec
  pub writes : List WriteSpec
  pub requires : List JsString
  pub transitions : List TransitionSpec
  pub execution : StageExecutionSpec

pub record TriggerSpec : Type 0 where
  pub capability : JsString
  -- bound variable, trigger argument
  pub bind : Dict JsString

pub record RequiredCapabilitySpec : Type 0 where
  pub capability : JsString
  pub args : Dict RefSpec

-- `"before" | "deny"`. The decoder lets any string through, and the cast of `buildWorkflowManifest` keeps
-- it.
pub data PolicyKind : Type 0 where
  before deny : PolicyKind
  other_kind : JsString → PolicyKind

pub record PolicySpec : Type 0 where
  pub id : JsString
  pub kind : PolicyKind
  pub trigger : TriggerSpec
  pub requires : List RequiredCapabilitySpec
  pub condition : Option ExprSpec

pub record InputSpec : Type 0 where
  pub id : JsString
  pub type : JsString

pub record WorkflowManifest : Type 0 where
  pub workflow_id : JsString
  pub entry_stage_id : JsString
  pub exit_stage_ids : List JsString
  pub inputs : List InputSpec
  pub capabilities : List JsString
  pub policies : List PolicySpec
  pub stages : List StageSpec
