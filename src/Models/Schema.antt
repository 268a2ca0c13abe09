-- ===== src/Models/Schema.antt =====
-- models.ts: the schemas of a stage's output and of its tools.
use nemoir_web_runtime.Prelude.{Bool, false, Option, none, some, List, [], ◌∷◌, ◌++◌, if◌then◌else◌}
use nemoir_web_runtime.Errors.{Result, ok, err, model_output_validation}
use nemoir_web_runtime.Js.Text.{JsString, codes, ◌==◌}
use nemoir_web_runtime.Js.Dict.{Dict, insert}
use nemoir_web_runtime.Manifest.{WriteSpec, StageSpec}
use nemoir_web_runtime.Capabilities.{has_required_param, get_capability}
use nemoir_web_runtime.Tools.{Tool}

-- The JSON schemas of the write types.
pub data JsonSchema : Type 0 where
  string_schema boolean_schema number_schema any_schema string_array_schema : JsonSchema

-- `WRITE_TYPE_TO_JSON[type]`
unfoldable pub write_type_to_json : JsString → Option JsonSchema
write_type_to_json type =
    if type == codes "string"
    then some string_schema
    else if type == codes "bool"
    then some boolean_schema
    else if type == codes "path"
    then some string_schema
    else if type == codes "number"
    then some number_schema
    else if type == codes "json"
    then some any_schema
    else if type == codes "string[]"
    then some string_array_schema
    else none

-- `required` that is left out is an empty list.
pub record OutputSchema : Type 0 where
  pub properties : Dict JsonSchema
  pub required : List JsString

-- The loop over the writes, with the schema so far.
unfoldable pub add_properties : List WriteSpec → OutputSchema → Result OutputSchema
add_properties [] schema = ok schema
add_properties (w ∷ ws) schema = elim (write_type_to_json w.type) [
  | none ↦ err model_output_validation
  | some json_type ↦ add_properties ws (record {
    properties = insert w.name json_type schema.properties;
    required = if w.optional then schema.required else schema.required ++ w.name ∷ [];
  })
]

unfoldable pub output_schema_for_stage : StageSpec → Result OutputSchema
unfolding add_properties
output_schema_for_stage stage =
    add_properties stage.writes (record { properties = []; required = [] })

-- A tool's function schema: its name, the types of its parameters, and those that are required.
pub record ToolSchema : Type 0 where
  pub name : JsString
  pub properties : Dict JsString
  pub required : List JsString

-- `catalogRequiredNames.has(name)`
abbrev catalog_requires : Tool → JsString → Bool
catalog_requires tool name = elim (get_capability tool.capability) [
  | none ↦ false
  | some spec ↦ has_required_param spec name
]

unfoldable pub required_properties : (JsString → Bool) → Dict JsString → List JsString
required_properties requires [] = []
required_properties requires ((name, type) ∷ params) =
    let rest = required_properties requires params in if requires name then name ∷ rest else rest

unfoldable pub tool_json_schema : Tool → ToolSchema
unfolding required_properties
tool_json_schema tool = record {
  name = tool.name;
  properties = tool.input_schema;
  required = required_properties (catalog_requires tool) tool.input_schema;
}
