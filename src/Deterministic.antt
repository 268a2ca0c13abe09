-- ===== src/Deterministic.antt =====
-- deterministic.ts: the executor of tool stages, and the selection of their tools.
pub mod Projection
use nemoir_web_runtime.Prelude.{
  Bool, true, false, not, ◌&&◌, Option, none, some, List, [], ◌∷◌, ◌++◌, if◌then◌else◌, every,
}
use nemoir_web_runtime.Errors.{
  Result, ok, err, require, data_unavailable, stage_output_validation, other_error,
}
use nemoir_web_runtime.Errors
use nemoir_web_runtime.Js.Text.{JsString, codes, ◌==◌, contains}
use nemoir_web_runtime.Js.Value.{Value, obj, host, fields}
use nemoir_web_runtime.Js.Dict.{Dict, lookup, has, insert, keys, get}
use nemoir_web_runtime.Capabilities.{CapabilityParamType, json, CapabilityParam, get_capability}
use nemoir_web_runtime.Manifest.{
  input, node_output, bound, ExprSpec, ref, literal, WriteSpec, StageSpec,
}
use nemoir_web_runtime.Tools.{Tool, ToolRegistry, tools_for_capabilities}
use nemoir_web_runtime.Events.{lift, ◌>>=◌}
use nemoir_web_runtime.Runtime.{StageExecutor}
use nemoir_web_runtime.Output.WriteType.{is_string}

-- The value of an expression, before the test on JSON parameters.
exec_value : ExprSpec → Dict Value → Dict Value → Result Value
exec_value (literal type value) inputs readable = ok value
exec_value (ref (input name)) inputs readable = ok (get name inputs)
exec_value (ref (node_output node field)) inputs readable =
    ok (get (node ++ codes "." ++ field) readable)
exec_value (ref (bound name)) inputs readable = err data_unavailable
exec_value x inputs readable = err data_unavailable

abbrev is_json_type : CapabilityParamType → Bool
is_json_type json = true
is_json_type _ = false

-- `spec.requiredParams.find((p) => p.name === argName)?.type === "json"`
find_is_json : JsString → List CapabilityParam → Bool
find_is_json arg_name [] = false
find_is_json arg_name (p ∷ ps) =
    let later = find_is_json arg_name ps in
    if p.name == arg_name then is_json_type p.type else later

takes_json : JsString → JsString → Bool
unfolding find_is_json
takes_json capability arg_name = elim (get_capability capability) [
  | none ↦ false
  | some spec ↦ find_is_json arg_name spec.required_params
]

unfoldable pub resolve_exec_arg :
    ExprSpec → Dict Value → Dict Value → JsString → JsString → Result Value
unfolding exec_value takes_json
resolve_exec_arg x inputs readable capability arg_name =
    Errors.◌>>=◌ (exec_value x inputs readable) λ value.
      Errors.◌>>◌
        (require (not (is_string value && takes_json capability arg_name)) data_unavailable)
        (ok value)

-- The fields of a result that is an object and no array. A function is no object here.
abbrev object_fields : Value → Option (Dict Value)
object_fields (obj i fs) = some (fields fs)
object_fields (host i fs) = some (fields fs)
object_fields v = none

-- The loop that keeps the declared names.
unfoldable pub project : List WriteSpec → Dict Value → Dict Value → Dict Value
project [] raw output = output
project (w ∷ ws) raw output =
    project ws raw (if has w.name raw then insert w.name (get w.name raw) output else output)

-- What the result is read as.
raw_output : List WriteSpec → Value → Option (Dict Value) → Result (Dict Value)
raw_output writes result (some fs) = ok fs
raw_output (w ∷ []) result none = ok ((w.name, result) ∷ [])
raw_output writes result none = err stage_output_validation

unfoldable pub normalize_for : List WriteSpec → Value → Result (Dict Value)
unfolding raw_output
normalize_for [] result = ok []
normalize_for (w ∷ ws) result =
    Errors.◌>>=◌ (raw_output (w ∷ ws) result (object_fields result))
      λ raw. ok (project (w ∷ ws) raw [])

unfoldable pub normalize_deterministic_output : StageSpec → Value → Result (Dict Value)
normalize_deterministic_output stage result = normalize_for stage.writes result

resolve_exec_args :
    Dict ExprSpec → Dict Value → Dict Value → JsString → Dict Value → Result (Dict Value)
unfolding resolve_exec_arg
resolve_exec_args [] inputs readable capability resolved = ok resolved
resolve_exec_args ((name, x) ∷ args) inputs readable capability resolved =
    Errors.◌>>=◌ (resolve_exec_arg x inputs readable capability name)
      λ value. resolve_exec_args args inputs readable capability (insert name value resolved)

abbrev args_or_none : Option (Dict ExprSpec) → Dict ExprSpec
args_or_none none = []
args_or_none (some args) = args

abbrev name_or_empty : Option JsString → JsString
name_or_empty none = []
name_or_empty (some name) = name

-- `if (!toolName) throw …`: an empty name counts as none
selected_tool : Option JsString → Result JsString
selected_tool none = err data_unavailable
selected_tool (some []) = err data_unavailable
selected_tool (some (c ∷ name)) = ok (c ∷ name)

-- `execute`, over the plan that gives each stage its tool.
unfoldable pub execute : Dict JsString → StageExecutor
unfolding resolve_exec_args selected_tool
execute tool_for_stage ctx =
    let capability = name_or_empty ctx.stage.execution.capability in
    lift (selected_tool (lookup ctx.stage.id tool_for_stage)) >>= λ tool_name.
    lift (
      resolve_exec_args (args_or_none ctx.stage.execution.args) ctx.inputs ctx.readable_context
        capability [])
    >>= λ args. ctx.call_tool capability args (some tool_name) >>= λ result.
        lift (normalize_deterministic_output ctx.stage result)

-- The tools all of whose parameters are arguments of the stage.
candidates : List JsString → List Tool → List Tool
candidates arg_names [] = []
candidates arg_names (t ∷ ts) =
    let rest = candidates arg_names ts in
    if every (contains arg_names) (keys t.input_schema) then t ∷ rest else rest

abbrev only_candidate : List Tool → Result (Option JsString)
only_candidate [] = ok none
only_candidate (t ∷ []) = ok (some t.name)
only_candidate (t ∷ u ∷ ts) = err other_error

abbrev select_among : List JsString → List Tool → Result (Option JsString)
select_among arg_names [] = ok none
select_among arg_names (t ∷ []) = ok (some t.name)
select_among arg_names ts = only_candidate (candidates arg_names ts)

unfoldable pub select_deterministic_tool : StageSpec → ToolRegistry → Result (Option JsString)
unfolding candidates
select_deterministic_tool stage tools =
    select_among (keys (args_or_none stage.execution.args))
      (tools_for_capabilities (name_or_empty stage.execution.capability ∷ []) tools)
