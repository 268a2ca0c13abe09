-- ===== src/Output/WriteType.antt =====
-- `validateWriteType` of runtime.ts: a value against the type of a declared write.
use nemoir_web_runtime.Prelude.{
  ℕ, ◌≡◌, refl, inl, inr, ◌↔◌, Bool, true, false, not, ◌||◌, Option, none, some, List, [], ◌∷◌,
  arith, if◌then◌else◌, every, some_of, All, Option-cases,
}
use nemoir_web_runtime.Errors.{Error, Result, ok, err, ◌>>◌, require, stage_output_validation}
use nemoir_web_runtime.Js.Text.{JsString, codes, ◌==◌}
use nemoir_web_runtime.Js.Value.{Value, bool, num, str, arr, Items, items}
use nemoir_web_runtime.Unicode.{has_lone_surrogate}
use nemoir_web_runtime.Output.JsonSafe.{is_json_safe_value}

pub data WriteType : Type 0 where
  text boolean number strings json : WriteType

-- The ladder of tests on `writeType`; `path` values are checked as strings.
unfoldable pub write_type : JsString → Option WriteType
write_type t =
    if t == codes "string" || t == codes "path"
    then some text
    else if t == codes "bool"
    then some boolean
    else if t == codes "number"
    then some number
    else if t == codes "string[]"
    then some strings
    else if t == codes "json"
    then some json
    else none

-- `typeof v === "string"`
abbrev pub is_string : Value → Bool
is_string (str s) = true
is_string _ = false

-- `hasLoneSurrogate(v as string)`
abbrev lone_text : Value → Bool
lone_text (str s) = has_lone_surrogate s
lone_text _ = false

unfoldable pub validate_as : WriteType → Value → Result (Unit {0})
validate_as text (str s) = require (not (has_lone_surrogate s)) stage_output_validation
validate_as text v = err stage_output_validation
validate_as boolean (bool b) = ok tt
validate_as boolean v = err stage_output_validation
validate_as number (num n) = ok tt
validate_as number v = err stage_output_validation
validate_as strings (arr i xs) =
    require (every is_string (items xs)) stage_output_validation
    >> require (not (some_of lone_text (items xs))) stage_output_validation
validate_as strings v = err stage_output_validation
validate_as json v = require (is_json_safe_value v) stage_output_validation

unfoldable pub validate_write_type : Value → JsString → Result (Unit {0})
unfolding validate_as
validate_write_type v t = elim (write_type t) [
  | none ↦ err stage_output_validation
  | some w ↦ validate_as w v
]

-- A string without lone surrogates.
pub data IsText : Value → Type 0 where
  is_text : {s : JsString} → has_lone_surrogate s ≡ false → IsText (str s)

-- The values of each type.
pub data HasType : WriteType → Value → Type 0 where
  of_text : {v : Value} → IsText v → HasType text v
  of_bool : {b : Bool} → HasType boolean (bool b)
  of_number : {n : ℕ} → HasType number (num n)
  of_strings : {i : ℕ} {xs : Items} → All IsText (items xs) → HasType strings (arr i xs)
  of_json : {v : Value} → is_json_safe_value v ≡ true → HasType json v

require-ok : (b : Bool) → require b stage_output_validation ≡ ok tt → b ≡ true
require-ok true h = refl
require-ok false h = ground arith

texts_to :
    (vs : List Value) → every is_string vs ≡ true → some_of lone_text vs ≡ false → All IsText vs
texts_to [] h k = tt
texts_to (str s ∷ vs) h k = (is_text (ground arith), texts_to vs h (ground arith))
texts_to (v ∷ vs) h k = absurd (ground arith)

texts_from :
    (vs : List Value) → All IsText vs → (every is_string vs ≡ true) × (some_of lone_text vs ≡ false)
texts_from [] h = (refl, refl)
texts_from (v ∷ vs) (is_text {s} e, h) = let (p, q) = texts_from vs h in (p, rw e q)

validate_as_to : (w : WriteType) (v : Value) → validate_as w v ≡ ok tt → HasType w v
unfolding validate_as
validate_as_to text (str s) h = of_text (is_text (ground arith))
validate_as_to text v h = absurd (ground arith)
validate_as_to boolean (bool b) h = of_bool
validate_as_to boolean v h = absurd (ground arith)
validate_as_to number (num n) h = of_number
validate_as_to number v h = absurd (ground arith)
validate_as_to strings (arr i xs) h = of_strings (texts_to (items xs) (ground arith) (ground arith))
validate_as_to strings v h = absurd (ground arith)
validate_as_to json v h = of_json (require-ok _ h)

validate_as_from : (w : WriteType) (v : Value) → HasType w v → validate_as w v ≡ ok tt
unfolding validate_as
validate_as_from text v (of_text (is_text e)) = rw e
validate_as_from boolean v of_bool = refl
validate_as_from number v of_number = refl
validate_as_from strings v (of_strings {xs} h) = let (p, q) = texts_from (items xs) h in rw (p, q)
validate_as_from json v (of_json e) = rw e

-- A value is accepted for a declared type exactly when the type is a known one and the value is one
-- of its values.
pub validate_write_type_iff :
    (v : Value) (t : JsString)
    → (validate_write_type v t ≡ ok tt) ↔ ((w : WriteType) × (write_type t ≡ some w) × HasType w v)
unfolding validate_write_type
validate_write_type_iff v t = elim (Option-cases (write_type t)) [
  | inl unknown ↦ (λ h. absurd (ground arith), λ (w, e, h). absurd (ground arith))
  | inr (w, e) ↦ (
    λ h. (w, e, validate_as_to w v (ground arith)),
    λ (w', e', h). ground (arith, validate_as_from w' v h),
  )
]

require-error :
    (b : Bool) (e : Error) → require b stage_output_validation ≡ err e → e ≡ stage_output_validation
require-error true e h = absurd (ground arith)
require-error false e h = ground arith

validate_as-error :
    (w : WriteType) (v : Value) (e : Error) → validate_as w v ≡ err e → e ≡ stage_output_validation
unfolding validate_as
validate_as-error text (str s) e h = require-error _ e h
validate_as-error strings (arr i xs) e h = ground (
  arith,
  require-error (every is_string (items xs)) e,
  require-error (not (some_of lone_text (items xs))) e,
)
validate_as-error json v e h = require-error _ e h
validate_as-error w v e h = ground arith

pub validate_write_type-error :
    (v : Value) (t : JsString) (e : Error)
    → validate_write_type v t ≡ err e
    → e ≡ stage_output_validation
unfolding validate_write_type
validate_write_type-error v t e h = elim (Option-cases (write_type t)) [
  | inl unknown ↦ ground arith
  | inr (w, known) ↦ validate_as-error w v e (ground arith)
]
