-- ===== src/Ir.antt =====
-- ir.ts: a decoded workflow and the checks of the web target on it. The types are what the schemas give
-- after decoding, with the default values filled in.
pub mod Conversion
pub mod Web
pub mod Approval
use nemoir_web_runtime.Prelude.{Bool, Option, List}
use nemoir_web_runtime.Js.Text.{JsString}
use nemoir_web_runtime.Js.Number.{Double}
use nemoir_web_runtime.Js.Value.{Value}
use nemoir_web_runtime.Js.Dict.{Dict}
use nemoir_web_runtime.Manifest.{ExecutionKind}

pub data RefJson : Type 0 where
  input : JsString → RefJson
  node_output : JsString → JsString → RefJson
  bound : JsString → RefJson

mutual
  pub data ExprJson : Type 0 where
    not_ : ExprJson → ExprJson
    method_call : ExprJson → JsString → ExprJsons → ExprJson
    ref : RefJson → ExprJson
    literal : JsString → Value → ExprJson
    and_ or_ : ExprJsons → ExprJson
    compare binop : JsString → ExprJson → ExprJson → ExprJson

  pub data ExprJsons : Type 0 where
    nil : ExprJsons
    cons : ExprJson → ExprJsons → ExprJsons

pub data GuardJson : Type 0 where
  always : GuardJson
  has_value missing : RefJson → GuardJson
  eq : ExprJson → ExprJson → GuardJson
  if_ : ExprJson → GuardJson

pub record BindArgJson : Type 0 where
  pub kind : JsString
  pub name : JsString

-- An argument value is a reference.
pub record ArgValueJson : Type 0 where
  pub ref : RefJson

pub record StageExecutionJson : Type 0 where
  pub kind : ExecutionKind
  pub capability : Option JsString
  pub args : Option (Dict ExprJson)

pub record ReadJson : Type 0 where
  pub ref : RefJson
  pub optional : Bool
  pub origin : JsString

pub record WriteJson : Type 0 where
  pub name : JsString
  pub type : JsString
  pub optional : Bool

pub record TransitionJson : Type 0 where
  pub to : JsString
  pub priority : Double
  pub reason : JsString
  pub guard : GuardJson

pub record StageCapabilityJson : Type 0 where
  pub capability : JsString

pub record NodeJson : Type 0 where
  pub id : JsString
  pub annotations : List JsString
  pub prompt : JsString
  pub reads : List ReadJson
  pub writes : List WriteJson
  pub requires : List StageCapabilityJson
  pub transitions : List TransitionJson
  pub execution : StageExecutionJson

pub record TriggerJson : Type 0 where
  pub capability : JsString
  pub bind : Dict BindArgJson

pub record RequiredCapabilityJson : Type 0 where
  pub capability : JsString
  pub args : Dict ArgValueJson

pub record PolicyJson : Type 0 where
  pub id : JsString
  pub kind : JsString
  pub trigger : TriggerJson
  pub requires : Option (List RequiredCapabilityJson)
  -- null and undefined are `none`
  pub condition : Option ExprJson

pub record InputJson : Type 0 where
  pub id : JsString
  pub type : JsString

-- Of the parts that nothing else reads (version, kind, source, transition semantics) none is kept.
pub record WorkflowIrJson : Type 0 where
  pub workflow_id : JsString
  pub entry : JsString
  pub exits : List JsString
  pub inputs : List InputJson
  pub capabilities : List JsString
  pub policies : List PolicyJson
  pub nodes : List NodeJson
