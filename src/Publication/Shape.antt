-- ===== src/Publication/Shape.antt =====
-- publication.ts: `requireKeys` and `validateRecordShape`.
use nemoir_web_runtime.Prelude.{
  Bool, false, not, ◌||◌, none, some, List, [], ◌∷◌, ◌++◌, if◌then◌else◌, every, some_of,
}
use nemoir_web_runtime.Errors.{Result, ok, err, ◌>>=◌, ◌>>◌, require, other_error}
use nemoir_web_runtime.Js.Text.{JsString, codes, ◌==◌, contains}
use nemoir_web_runtime.Js.Value.{Value, str, arr, items, is_nullish}
use nemoir_web_runtime.Js.Dict.{Dict, get, has, keys}
use nemoir_web_runtime.Publication.{
  public_event_keys, metadata_keys, public_args_keys, non_annotation_keys, record_of,
  public_scalar_ok, metadata_value_ok, arg_value_ok,
}

-- A `PublicationError` is an `other_error`.
abbrev pub check : Bool → Result (Unit {0})
check b = require b other_error

unfoldable pub as_dict : Value → Result (Dict Value)
as_dict v = elim (record_of v) [ none ↦ err other_error | some d ↦ ok d ]

unfoldable pub as_list : Value → Result (List Value)
as_list (arr i xs) = ok (items xs)
as_list v = err other_error

unfoldable pub as_string : Value → Result JsString
as_string (str (c ∷ s)) = ok (c ∷ s)
as_string v = err other_error

unfoldable pub as_strings : List Value → Result (List JsString)
unfolding as_string
as_strings [] = ok []
as_strings (v ∷ vs) = as_string v >>= λ s. as_strings vs >>= λ ss. ok (s ∷ ss)

unfoldable pub as_string_list : Value → Result (List JsString)
unfolding as_list as_strings
as_string_list v = as_list v >>= as_strings

unfoldable pub require_keys : Dict Value → List JsString → List JsString → Result (Unit {0})
require_keys node allowed required =
    check (every (λ key. has key node) required) >> check (every (contains allowed) (keys node))

abbrev is_annotation : Value → Bool
is_annotation (str s) = s == codes "annotation"
is_annotation v = false

-- `/args/${key}`
abbrev pub args_pointer : JsString → JsString
args_pointer key = codes "/args/" ++ key

-- The loop over the arguments, with the pointers so far; they are sorted in the end.
unfoldable pub check_args : Dict Value → List JsString → Result (List JsString)
check_args [] redacted = ok redacted
check_args ((key, value) ∷ args) redacted =
    if not (contains public_args_keys key)
    then check_args args (redacted ++ args_pointer key ∷ [])
    else (check (arg_value_ok key value) >> check_args args redacted)

unfoldable pub check_values : (JsString → Value → Bool) → Dict Value → Result (Unit {0})
check_values test [] = ok tt
check_values test ((key, value) ∷ d) = check (test key value) >> check_values test d

unfoldable pub check_metadata : Value → Result (Unit {0})
unfolding as_dict require_keys check_values
check_metadata v =
    if is_nullish v
    then ok tt
    else (as_dict v >>= λ metadata.
        require_keys metadata metadata_keys [] >> check_values metadata_value_ok metadata)

unfoldable pub check_output : Value → Result (Unit {0})
unfolding as_dict check_values
check_output v =
    if is_nullish v then ok tt else (as_dict v >>= check_values (λ key. public_scalar_ok))

unfoldable pub check_arguments : Value → List JsString → Result (List JsString)
unfolding as_dict check_args
check_arguments v redacted =
    if is_nullish v then ok redacted else (as_dict v >>= λ args. check_args args redacted)

-- The pointers, with those of the dropped arguments.
unfoldable pub validate_record_shape : Dict Value → List JsString → Result (List JsString)
unfolding require_keys check_metadata check_output check_arguments
validate_record_shape event redacted =
    require_keys event public_event_keys
      (codes "kind" ∷ codes "run_id" ∷ codes "timestamp" ∷ codes "redacted_fields" ∷ [])
    >> check (
        is_annotation (get (codes "kind") event)
        || not (some_of (λ key. has key event) non_annotation_keys))
    >> check_metadata (get (codes "metadata") event)
    >> check_output (get (codes "output") event)
    >> check_arguments (get (codes "args") event) redacted
