-- ===== src/Tools.antt =====
-- tools.ts: tools, and the registry that binds them to capabilities and names.
pub mod Lookup
use nemoir_web_runtime.Prelude.{
  ℕ, Bool, true, false, not, ◌||◌, Option, none, some, List, [], ◌∷◌, if◌then◌else◌, some_of,
}
use nemoir_web_runtime.Errors.{
  Error, Result, ok, err, ◌>>=◌, ◌>>◌, require, tool_validation, missing_capability,
  tool_invocation, is_runtime_error, abort_error,
}
use nemoir_web_runtime.Js.Text.{JsString, codes, ◌==◌, contains}
use nemoir_web_runtime.Js.Value.{Value}
use nemoir_web_runtime.Js.Dict.{Dict, lookup, has, insert}
use nemoir_web_runtime.Js.Group.{get_list, push_under}
use nemoir_web_runtime.Capabilities.{
  CapabilityParamType, string, path, bool, json, CapabilityParam, is_required, get_capability,
}

-- `handler n args` is the outcome of the handler when it is called as call number `n` of the run: any
-- behaviour, one that depends on time or on earlier calls too, is such a function. A `preflight`
-- either returns or throws.
pub record Tool : Type 0 where
  pub name : JsString
  pub capability : JsString
  pub input_schema : Dict JsString
  pub handler : ℕ → Dict Value → Result Value
  pub preflight : Option (Dict Value → Result (Unit {0}))

unfoldable pub catalog_type_to_param_type : CapabilityParamType → JsString
catalog_type_to_param_type string = codes "string"
catalog_type_to_param_type bool = codes "boolean"
catalog_type_to_param_type path = codes "string"
catalog_type_to_param_type json = codes "json"

unfoldable pub supported_param_types : List JsString
supported_param_types =
    codes "string"
    ∷ codes "boolean"
    ∷ codes "number"
    ∷ codes "json"
    ∷ codes "string[]"
    ∷ codes "string[] | null"
    ∷ []

-- `actual === undefined || actual !== expected`
abbrev is_type : Option JsString → JsString → Bool
is_type none expected = false
is_type (some actual) expected = actual == expected

-- Every required parameter of the capability is in the schema, with its type.
unfoldable pub validate_required : List CapabilityParam → Dict JsString → Result (Unit {0})
validate_required [] schema = ok tt
validate_required (p ∷ ps) schema =
    require
      (not (is_required p) || is_type (lookup p.name schema) (catalog_type_to_param_type p.type))
      tool_validation
    >> validate_required ps schema

-- Every other parameter has a supported type.
unfoldable pub validate_extra : List CapabilityParam → Dict JsString → Result (Unit {0})
validate_extra params [] = ok tt
validate_extra params ((name, ty) ∷ schema) =
    require (some_of (λ p. p.name == name) params || contains supported_param_types ty)
      tool_validation
    >> validate_extra params schema

unfoldable pub validate_tool : Tool → Result (Unit {0})
unfolding validate_required validate_extra
validate_tool tool = elim (get_capability tool.capability) [
  | none ↦ err tool_validation
  | some spec ↦
      validate_required spec.required_params tool.input_schema
      >> validate_extra spec.required_params tool.input_schema
]

pub record ToolRegistry : Type 0 where
  pub by_capability : Dict (List Tool)
  pub by_name : Dict Tool

abbrev pub tool_capability : Tool → JsString
tool_capability t = t.capability

-- The registration of one tool.
unfoldable pub register : Tool → ToolRegistry → Result ToolRegistry
register t reg =
    require (not (has t.name reg.by_name)) tool_validation
    >> ok (record {
      by_capability = push_under t.capability t reg.by_capability;
      by_name = insert t.name t reg.by_name;
    })

unfoldable pub register_all : List Tool → ToolRegistry → Result ToolRegistry
register_all [] reg = ok reg
register_all (t ∷ ts) reg = register t reg >>= λ next. register_all ts next

unfoldable pub validate_tools : List Tool → Result (Unit {0})
validate_tools [] = ok tt
validate_tools (t ∷ ts) = validate_tool t >> validate_tools ts

-- The constructor: validation runs after all tools are registered.
unfoldable pub new_registry : List Tool → Result ToolRegistry
new_registry tools = register_all tools (record { by_capability = []; by_name = [] }) >>= λ reg.
    validate_tools tools >> ok reg

abbrev pub first_of_list : List Tool → Option Tool
first_of_list [] = none
first_of_list (t ∷ ts) = some t

unfoldable pub get_tool : JsString → ToolRegistry → Option Tool
get_tool capability reg = first_of_list (get_list capability reg.by_capability)

unfoldable pub get_by_name : JsString → ToolRegistry → Option Tool
get_by_name name reg = lookup name reg.by_name

tools_among : List JsString → Dict Tool → List Tool
tools_among caps [] = []
tools_among caps ((name, t) ∷ rest) =
    let others = tools_among caps rest in if contains caps t.capability then t ∷ others else others

unfoldable pub tools_for_capabilities : List JsString → ToolRegistry → List Tool
unfolding tools_among
tools_for_capabilities caps reg = tools_among caps reg.by_name

abbrev is_none : Option Tool → Bool
is_none none = true
is_none (some t) = false

unfoldable pub require_capabilities : List JsString → ToolRegistry → Result (Unit {0})
require_capabilities [] reg = ok tt
require_capabilities (cap ∷ caps) reg =
    require (not (is_none (get_tool cap reg))) missing_capability >> require_capabilities caps reg

-- The tool that `call` takes: by name, where one is given, and it must have the capability.
unfoldable pub tool_to_call : JsString → Option JsString → ToolRegistry → Result Tool
tool_to_call capability (some name) reg = elim (get_by_name name reg) [
  | none ↦ err missing_capability
  | some tool ↦ if tool.capability == capability then ok tool else err missing_capability
]
tool_to_call capability none reg = elim (get_tool capability reg) [
  | none ↦ err missing_capability
  | some tool ↦ ok tool
]

-- `e instanceof NemoIRRuntimeError`, or an AbortError: rethrown as it is.
abbrev pub passes_through : Error → Bool
passes_through abort_error = true
passes_through e = is_runtime_error e

-- What `call` makes of a handler's outcome.
unfoldable pub wrap_outcome : Result Value → Result Value
wrap_outcome (ok v) = ok v
wrap_outcome (err e) = if passes_through e then err e else err tool_invocation
