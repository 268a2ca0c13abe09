-- ===== src/Publication.antt =====
-- publication.ts: the shapes of the values of a published ledger.
pub mod Keys
pub mod Shape
pub mod Project
pub mod Public
pub mod Refs
unfoldable pub use nemoir_web_runtime.Publication.Keys.{
  public_event_keys, metadata_keys, public_args_keys, args_marker_keys, non_annotation_keys,
  metadata_bools, metadata_enums, metadata_int_minimums,
}
use nemoir_web_runtime.Publication.Keys.{zero_bits}
use nemoir_web_runtime.Prelude.{
  ℕ, ◌-◌, ◌*◌, ◌/◌, ◌%◌, ◌^◌, Bool, true, false, not, ◌&&◌, ◌||◌, Option, none, some, [], ◌∷◌,
  length, leb, eqb, if◌then◌else◌, every,
}
use nemoir_web_runtime.Js.Text.{JsString, codes, ◌==◌, contains, starts_with}
use nemoir_web_runtime.Js.Number.{Double, magnitude, is_finite, number_le}
use nemoir_web_runtime.Js.Value.{Value, null, bool, num, str, arr, obj, host, items, fields}
use nemoir_web_runtime.Js.Dict.{Dict, get, lookup}

-- `Number.isInteger`, from the exponent and the fraction.
unfoldable pub is_integer : Double → Bool
is_integer b =
    let exponent = magnitude b / 2 ^ 52 in
    is_finite b
    && (eqb (magnitude b) 0
        || (leb 1075 exponent
            || (leb 1023 exponent && eqb (magnitude b % 2 ^ (1075 - exponent)) 0)))

-- The bits of `Number.MAX_SAFE_INTEGER`.
abbrev max_safe_bits : Double
max_safe_bits = 1076 * 2 ^ 52 - 1

-- The classes of characters of the patterns.
abbrev is_lower : ℕ → Bool
is_lower c = leb 97 c && leb c 122

abbrev is_upper : ℕ → Bool
is_upper c = leb 65 c && leb c 90

abbrev is_digit : ℕ → Bool
is_digit c = leb 48 c && leb c 57

-- `[a-z0-9_]`, `[A-Za-z0-9_]`, `[A-Za-z0-9._:-]`
abbrev in_slug : ℕ → Bool
in_slug c = is_lower c || (is_digit c || eqb c 95)

abbrev in_word : ℕ → Bool
in_word c = is_upper c || in_slug c

abbrev in_class : ℕ → Bool
in_class c = in_word c || (eqb c 46 || (eqb c 58 || eqb c 45))

-- A first character of one class, and others of another.
abbrev head_tail : (ℕ → Bool) → (ℕ → Bool) → JsString → Bool
head_tail first rest [] = false
head_tail first rest (c ∷ s) = first c && every rest s

-- What follows a prefix.
unfoldable pub after : JsString → JsString → Option JsString
after [] s = some s
after (c ∷ p) [] = none
after (c ∷ p) (d ∷ s) = if eqb c d then after p s else none

abbrev follows : JsString → (JsString → Bool) → JsString → Bool
follows prefix test s = elim (after prefix s) [ none ↦ false | some rest ↦ test rest ]

-- The patterns: `^[a-z][a-z0-9_]*$`, `^[A-Za-z][A-Za-z0-9_]*$`, `^[A-Z]+$`,
-- `^[A-Za-z0-9][A-Za-z0-9._:-]*$`, `^path-[1-9][0-9]*$`, `^p-[1-9][0-9]*$`, `^\$[a-z][a-z0-9_]*$` and
-- `^[1-5]xx$`.
abbrev slug_pattern : JsString → Bool
slug_pattern s = head_tail is_lower in_slug s

abbrev word_pattern : JsString → Bool
word_pattern s = head_tail (λ c. is_upper c || is_lower c) in_word s

abbrev upper_pattern : JsString → Bool
upper_pattern s = head_tail is_upper is_upper s

abbrev class_pattern : JsString → Bool
class_pattern s = head_tail (λ c. is_upper c || (is_lower c || is_digit c)) in_class s

abbrev count_pattern : JsString → Bool
count_pattern s = head_tail (λ c. leb 49 c && leb c 57) is_digit s

abbrev path_ref_pattern : JsString → Bool
path_ref_pattern s = follows (codes "path-") count_pattern s

abbrev root_pattern : JsString → Bool
root_pattern s = follows (codes "$") slug_pattern s

abbrev status_pattern : JsString → Bool
status_pattern (c ∷ rest) = (leb 49 c && leb c 53) && (rest == codes "xx")
status_pattern [] = false

unfoldable pub metadata_patterns : Dict (JsString → Bool)
unfolding after
metadata_patterns =
    (codes "category", slug_pattern)
    ∷ (codes "command_id", class_pattern)
    ∷ (codes "error_code", slug_pattern)
    ∷ (codes "error_type", word_pattern)
    ∷ (codes "method", upper_pattern)
    ∷ (codes "origin_class", class_pattern)
    ∷ (codes "path_ref", path_ref_pattern)
    ∷ (codes "policy_ref", λ s. follows (codes "p-") count_pattern s)
    ∷ (codes "result_status", slug_pattern)
    ∷ (codes "result_type", slug_pattern)
    ∷ (codes "root_class", root_pattern)
    ∷ (codes "status_class", status_pattern)
    ∷ []

unfoldable pub metadata_max_lengths : Dict ℕ
metadata_max_lengths =
    (codes "category", 64)
    ∷ (codes "command_id", 128)
    ∷ (codes "entry", 256)
    ∷ (codes "error_code", 64)
    ∷ (codes "error_type", 128)
    ∷ (codes "method", 16)
    ∷ (codes "origin_class", 128)
    ∷ (codes "result_status", 64)
    ∷ (codes "result_type", 64)
    ∷ (codes "workflow_id", 256)
    ∷ []

-- `typeof value === "string"` and a test on it
abbrev text_ok : (JsString → Bool) → Value → Bool
text_ok test (str s) = test s
text_ok test v = false

abbrev number_ok : (Double → Bool) → Value → Bool
number_ok test (num n) = test n
number_ok test v = false

-- An object that is not an array, as the dictionary of its fields.
abbrev pub record_of : Value → Option (Dict Value)
record_of (obj i fs) = some (fields fs)
record_of (host i fs) = some (fields fs)
record_of v = none

abbrev is_object : Value → Bool
is_object (obj i fs) = true
is_object (host i fs) = true
is_object (arr i xs) = true
is_object v = false

unfoldable pub is_marker : Value → Bool
is_marker v = elim (record_of v) [
  | none ↦ false
  | some marker ↦ is_object (get (codes "$redacted") marker)
]

unfoldable pub public_scalar_ok : Value → Bool
unfolding is_marker is_integer
public_scalar_ok null = true
public_scalar_ok (bool b) = true
public_scalar_ok (num n) = is_finite n && (not (is_integer n) || leb (magnitude n) max_safe_bits)
public_scalar_ok v = is_marker v

abbrev within : Option ℕ → JsString → Bool
within none s = true
within (some limit) s = leb (length s) limit

unfoldable pub capabilities_ok : Value → Bool
capabilities_ok (arr i xs) =
    every (text_ok (λ s. leb 1 (length s) && leb (length s) 128)) (items xs)
capabilities_ok v = false

unfoldable pub metadata_value_ok : JsString → Value → Bool
unfolding is_integer capabilities_ok
metadata_value_ok key value =
    if contains metadata_bools key then is_boolean value else elim (lookup key metadata_enums) [
      | some enums ↦ text_ok (contains enums) value
      | none ↦ elim (lookup key metadata_int_minimums) [
        | some minimum ↦ number_ok (λ n. is_integer n && number_le minimum n) value
        | none ↦
            if key == codes "cost_usd"
            then number_ok (λ n. is_finite n && number_le zero_bits n) value
            else if key == codes "required_capabilities"
            then capabilities_ok value
            else elim (lookup key metadata_patterns) [
              | some pattern ↦
                  text_ok (λ s. pattern s && within (lookup key metadata_max_lengths) s) value
              | none ↦ elim (lookup key metadata_max_lengths) [
                | some limit ↦ text_ok (λ s. leb 1 (length s) && leb (length s) limit) value
                | none ↦ false
              ]
            ]
      ]
    ]
  where
    is_boolean : Value → Bool
    is_boolean (bool b) = true
    is_boolean v = false

unfoldable pub arg_value_ok : JsString → Value → Bool
unfolding is_marker after
arg_value_ok key value =
    if contains args_marker_keys key
    then is_marker value
    else if key == codes "path"
    then text_ok (λ s. starts_with s (codes "$") && leb (length s) 512) value
    else if key == codes "root_class"
    then text_ok root_pattern value
    else if key == codes "path_ref"
    then text_ok path_ref_pattern value
    else if key == codes "method"
    then text_ok (λ s. upper_pattern s && leb (length s) 16) value
    else if key == codes "command_id" || key == codes "origin_class"
    then text_ok (λ s. class_pattern s && leb (length s) 128) value
    else false
