-- ===== src/Examples/Outputs.antt =====
-- Outputs of the example workflow, and strings and values that they hold.
use nemoir_web_runtime.Prelude.{◌≡◌, refl, ◌↔◌, true, false, List, [], ◌∷◌, All, map, ℕ, arith}
use nemoir_web_runtime.Errors.{ok, err, other_error}
use nemoir_web_runtime.Js.Text.{JsString, codes, contains, ◌==◌}
use nemoir_web_runtime.Js.Value.{Value, null, num, arr, obj, nil, cons, end}
use nemoir_web_runtime.Js.Dict.{Dict, get, keys}
use nemoir_web_runtime.Unicode.{has_lone_surrogate, assert_unicode_scalar_string}
use nemoir_web_runtime.Unicode.Scalars.{
  IsScalar, encode, has_lone_surrogate_iff, assert-eq-has_lone_surrogate,
}
use nemoir_web_runtime.Output.{write_name, validate_output, normalize_optional_empty_arrays}
use nemoir_web_runtime.Output.JsonSafe.{is_json_safe_value}
use nemoir_web_runtime.Output.JsonSafe.Identities.{
  is_json, identities, is_distinct, is_json_safe_value_iff,
}
use nemoir_web_runtime.Output.WriteType.{write_type, validate_write_type}
use nemoir_web_runtime.Output.Validation.{Satisfies, validate_output_iff, normalize-get}
use nemoir_web_runtime.Examples.Data.{draft, three}

abbrev no_notes : Dict Value
no_notes = (codes "score", num three) ∷ (codes "notes", arr 1 nil) ∷ []

-- An array that holds one object twice.
abbrev shared : Value
shared = arr 1 (cons (obj 2 end) (cons (obj 2 end) nil))

-- "A", a pair of surrogates, and a trail surrogate on its own.
abbrev pair : JsString
pair = 65 ∷ 0xd83d ∷ 0xde00 ∷ []

abbrev lone : JsString
lone = 65 ∷ 0xde00 ∷ []

validate_output_iff_example : (validate_output draft no_notes ≡ ok tt) ↔ (
    All (λ k. contains (map write_name draft.writes) k ≡ true) (keys no_notes)
    × All (λ w. Satisfies w (get w.name no_notes)) draft.writes)
validate_output_iff_example = validate_output_iff draft no_notes

normalize-get_example : get (codes "notes") (normalize_optional_empty_arrays draft no_notes) ≡ null
unfolding get ◌==◌ nemoir_web_runtime.Js.Text.ends_with nemoir_web_runtime.Js.Dict.lookup
normalize-get_example = normalize-get draft (codes "notes") no_notes

is_json_safe_value_iff_example : is_json_safe_value shared ≡ false
unfolding is_json identities is_distinct nemoir_web_runtime.Output.JsonSafe.seen_has
is_json_safe_value_iff_example = is_json_safe_value_iff shared

has_lone_surrogate_iff_example :
    (has_lone_surrogate pair ≡ false) ↔ ((xs : List ℕ) × All IsScalar xs × (encode xs ≡ pair))
has_lone_surrogate_iff_example =
    has_lone_surrogate_iff pair (omega arith, (omega arith, (omega arith, tt)))

assert-eq-has_lone_surrogate_example : assert_unicode_scalar_string lone ≡ err other_error
unfolding has_lone_surrogate nemoir_web_runtime.Unicode.is_lead nemoir_web_runtime.Unicode.is_trail
assert-eq-has_lone_surrogate_example = assert-eq-has_lone_surrogate lone

-- The output of the example is accepted.
validate_output_test : validate_output draft no_notes ≡ ok tt
unfolding validate_output keys contains ◌==◌ get nemoir_web_runtime.Js.Dict.lookup
    validate_write_type write_type nemoir_web_runtime.Js.Value.items
validate_output_test = refl
