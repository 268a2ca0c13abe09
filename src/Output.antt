-- ===== src/Output.antt =====
-- runtime.ts: validation and normalisation of a stage's output.
pub mod JsonSafe
pub mod WriteType
pub mod Validation
use nemoir_web_runtime.Prelude.{
  Bool, true, false, not, ◌&&◌, ◌||◌, List, [], ◌∷◌, map, if◌then◌else◌,
}
use nemoir_web_runtime.Errors.{Result, ok, err, ◌>>◌, require, stage_output_validation}
use nemoir_web_runtime.Js.Text.{JsString, codes, ◌==◌, ends_with, contains}
use nemoir_web_runtime.Js.Value.{Value, undefined, null, arr, nil, is_nullish}
use nemoir_web_runtime.Js.Dict.{Dict, get, insert, keys}
use nemoir_web_runtime.Manifest.{WriteSpec, StageSpec}
use WriteType.{validate_write_type}

abbrev pub is_undefined : Value → Bool
is_undefined undefined = true
is_undefined _ = false

abbrev pub is_null : Value → Bool
is_null null = true
is_null _ = false

abbrev pub write_name : WriteSpec → JsString
write_name w = w.name

-- The first loop of `validateOutput`: every key of the output is declared.
unfoldable pub validate_keys : List JsString → List JsString → Result (Unit {0})
validate_keys allowed [] = ok tt
validate_keys allowed (key ∷ rest) =
    require (contains allowed key) stage_output_validation >> validate_keys allowed rest

-- One round of the second loop.
unfoldable pub validate_write : WriteSpec → Value → Result (Unit {0})
validate_write w val =
    if not w.optional && (is_undefined val || (is_null val && not (w.type == codes "json")))
    then err stage_output_validation
    else if is_nullish val
    then ok tt
    else validate_write_type val w.type

unfoldable pub validate_writes : List WriteSpec → Dict Value → Result (Unit {0})
validate_writes [] output = ok tt
validate_writes (w ∷ ws) output = validate_write w (get w.name output) >> validate_writes ws output

unfoldable pub validate_output : StageSpec → Dict Value → Result (Unit {0})
unfolding validate_keys validate_writes validate_write
validate_output stage output =
    validate_keys (map write_name stage.writes) (keys output) >> validate_writes stage.writes output

abbrev pub is_empty_array : Value → Bool
is_empty_array (arr i nil) = true
is_empty_array _ = false

-- One round of the loop of `normalizeOptionalEmptyArrays`.
unfoldable pub normalize_write : WriteSpec → Dict Value → Dict Value
normalize_write w result =
    if not w.optional
    then result
    else if not (ends_with w.type (codes "[]"))
    then result
    else if is_empty_array (get w.name result)
    then insert w.name null result
    else result

normalize_writes : List WriteSpec → Dict Value → Dict Value
normalize_writes [] result = result
normalize_writes (w ∷ ws) result = normalize_writes ws (normalize_write w result)

unfoldable pub normalize_optional_empty_arrays : StageSpec → Dict Value → Dict Value
unfolding normalize_writes normalize_write
normalize_optional_empty_arrays stage output = normalize_writes stage.writes output
