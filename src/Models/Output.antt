-- ===== src/Models/Output.antt =====
-- models.ts: the checks on a stage's output and on tool arguments that a model supplied.
pub mod Safe
pub mod Valid
use nemoir_web_runtime.Prelude.{
  ℕ, Bool, true, false, not, ◌&&◌, ◌||◌, List, [], ◌∷◌, map, if◌then◌else◌, every, some_of, none,
  some,
}
use nemoir_web_runtime.Errors.{Result, ok, err, ◌>>=◌, ◌>>◌, require, model_output_validation}
use nemoir_web_runtime.Js.Text.{JsString, codes, ◌==◌, ends_with, contains}
use nemoir_web_runtime.Js.Value.{Value, null, bool, str, arr, items, is_nullish, is_number}
use nemoir_web_runtime.Js.Dict.{Dict, get, insert, keys}
use nemoir_web_runtime.Manifest.{WriteSpec, StageSpec}
use nemoir_web_runtime.Capabilities.{CapabilityParam, is_required, get_capability}
use nemoir_web_runtime.Tools.{Tool}
use nemoir_web_runtime.Output.{write_name, is_null, is_empty_array}
use nemoir_web_runtime.Output.WriteType.{is_string}
use Safe.{has_lone_surrogate_model, is_model_json_safe_value}

-- `typeof v === "boolean"`
abbrev pub is_bool : Value → Bool
is_bool (bool b) = true
is_bool _ = false

-- `hasLoneSurrogateModel(v as string)`
abbrev pub lone_text : Value → Bool
lone_text (str s) = has_lone_surrogate_model s
lone_text _ = false

-- `Array.isArray(val)` with a test on all its items
abbrev pub every_item : (Value → Bool) → Value → Bool
every_item p (arr i xs) = every p (items xs)
every_item p _ = false

abbrev pub some_item : (Value → Bool) → Value → Bool
some_item p (arr i xs) = some_of p (items xs)
some_item p _ = false

abbrev pub check : Bool → Result (Unit {0})
check b = require b model_output_validation

-- The first loops of `normalizeStageOutput` and `normalizeToolArgs`: every key is a declared one.
unfoldable pub known_keys : List JsString → List JsString → Result (Unit {0})
known_keys known [] = ok tt
known_keys known (key ∷ later) = check (contains known key) >> known_keys known later

-- The second loop of `normalizeToolArgs`: no required parameter is missing.
unfoldable pub required_args : List CapabilityParam → Dict Value → Result (Unit {0})
required_args [] raw = ok tt
required_args (p ∷ ps) raw =
    let later = required_args ps raw in
    if not (is_required p) then later else (check (not (is_nullish (get p.name raw))) >> later)

unfoldable pub normalize_tool_args : Tool → Dict Value → Result (Dict Value)
unfolding known_keys required_args
normalize_tool_args tool raw =
    known_keys (keys tool.input_schema) (keys raw) >> elim (get_capability tool.capability) [
      | none ↦ ok raw
      | some spec ↦ required_args spec.required_params raw >> ok raw
    ]

-- `copied i` is the identity of the copy of the array `i`.
module _ (copied : ℕ → ℕ) where
  -- `[...val]`
  abbrev pub copy : Value → Value
  copy (arr i xs) = arr (copied i) xs
  copy v = v

  unfoldable pub normalize_write_value : WriteSpec → Value → Result Value
  normalize_write_value w val =
      if w.type == codes "string"
      then (check (is_string val) >> check (not (lone_text val)) >> ok val)
      else if w.type == codes "bool"
      then (check (is_bool val) >> ok val)
      else if w.type == codes "number"
      then (check (is_number val) >> ok val)
      else if w.type == codes "string[]"
      then (check (every_item is_string val)
          >> check (not (some_item lone_text val))
          >> ok (copy val))
      else if w.type == codes "json"
      then (check (is_model_json_safe_value val) >> ok val)
      else err model_output_validation

  -- `if (write.optional && Array.isArray(val) && val.length === 0 && write.type.endsWith("[]")) val = null`
  unfoldable pub empty_to_null : WriteSpec → Value → Value
  empty_to_null w val =
      if w.optional && (is_empty_array val && ends_with w.type (codes "[]")) then null else val

  -- What a round of the second loop stores, after the line above.
  unfoldable pub normalize_present : WriteSpec → Value → Result Value
  unfolding normalize_write_value
  normalize_present w val =
      if is_nullish val
      then (check (w.optional || (is_null val && (w.type == codes "json"))) >> ok null)
      else normalize_write_value w val

  -- The second loop of `normalizeStageOutput`, with `result` so far.
  unfoldable pub normalize_fields : List WriteSpec → Dict Value → Dict Value → Result (Dict Value)
  normalize_fields [] raw result = ok result
  normalize_fields (w ∷ ws) raw result =
      normalize_present w (empty_to_null w (get w.name raw)) >>= λ val.
      normalize_fields ws raw (insert w.name val result)

  unfoldable pub normalize_stage_output : StageSpec → Dict Value → Result (Dict Value)
  unfolding known_keys normalize_fields empty_to_null normalize_present
  normalize_stage_output stage raw =
      known_keys (map write_name stage.writes) (keys raw) >> normalize_fields stage.writes raw []
