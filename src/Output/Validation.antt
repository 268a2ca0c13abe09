-- ===== src/Output/Validation.antt =====
-- What `validateOutput` accepts and what `normalizeOptionalEmptyArrays` changes.
use nemoir_web_runtime.Prelude.{
  ◌≡◌, refl, ◌⊎◌, inl, inr, ◌↔◌, Bool, true, false, not, ◌&&◌, ◌||◌, some, List, [], ◌∷◌, map,
  arith, if◌then◌else◌, All, Bool-cases, some_of,
}
use nemoir_web_runtime.Errors.{Error, ok, err, require, stage_output_validation}
use nemoir_web_runtime.Js.Text.{JsString, codes, ◌==◌, ends_with, contains, eq_iff}
use nemoir_web_runtime.Js.Value.{Value, undefined, null, is_nullish}
use nemoir_web_runtime.Js.Dict.{Dict, get, keys, get-insert}
use nemoir_web_runtime.Manifest.{WriteSpec, StageSpec}
use nemoir_web_runtime.Output.{
  is_undefined, is_null, write_name, validate_keys, validate_write, validate_writes,
  validate_output, is_empty_array, normalize_write, normalize_writes,
  normalize_optional_empty_arrays,
}
use nemoir_web_runtime.Output.WriteType.{
  validate_write_type_iff, validate_write_type-error, WriteType, write_type, HasType,
}

-- A value that a stage may return for a write: a value of the declared type, null for a `json`
-- write, or nothing (undefined or null) for an optional one.
pub data Satisfies (w : WriteSpec) (val : Value) : Type 0 where
  typed :
      {t : WriteType}
      → is_nullish val ≡ false
      → write_type w.type ≡ some t
      → HasType t val
      → Satisfies w val
  json_null : val ≡ null → w.type ≡ codes "json" → Satisfies w val
  left_out : w.optional ≡ true → is_nullish val ≡ true → Satisfies w val

-- The condition under which the second loop reports a missing field.
abbrev is_missing : WriteSpec → Value → Bool
is_missing w val =
    not w.optional && (is_undefined val || (is_null val && not (w.type == codes "json")))

nullish_cases :
    (w : WriteSpec) (val : Value)
    → is_missing w val ≡ false
    → is_nullish val ≡ true
    → (w.optional ≡ true) ⊎ ((val ≡ null) × ((w.type == codes "json") ≡ true))
nullish_cases w undefined h k = inl (ground arith)
nullish_cases w null h k = elim (Bool-cases w.optional) [
  | inl o ↦ inl o
  | inr o ↦ inr (refl, ground arith)
]
nullish_cases w v h k = absurd (ground arith)

write_to : (w : WriteSpec) (val : Value) → validate_write w val ≡ ok tt → Satisfies w val
unfolding validate_write
write_to w val h = elim (Bool-cases (is_missing w val)) [
  | inl m ↦ absurd (ground arith)
  | inr m ↦ elim (Bool-cases (is_nullish val)) [
    | inl n ↦ elim (nullish_cases w val m n) [
      | inl o ↦ left_out o n
      | inr (e, j) ↦ json_null e ((eq_iff w.type (codes "json")).0 j)
    ]
    | inr n ↦
        let (t, known, typ) = (validate_write_type_iff val w.type).0 (rw (m, n) at h) in
        typed n known typ
  ]
]

not_missing-of_value :
    (w : WriteSpec) (val : Value) → is_nullish val ≡ false → is_missing w val ≡ false
not_missing-of_value w undefined h = absurd (ground arith)
not_missing-of_value w null h = absurd (ground arith)
not_missing-of_value w v h = ground arith

write_from : (w : WriteSpec) (val : Value) → Satisfies w val → validate_write w val ≡ ok tt
unfolding validate_write
write_from w val (typed {t} n known typ) =
    rw (not_missing-of_value w val n, n) ((validate_write_type_iff val w.type).1 (t, known, typ))
write_from w val (json_null e j) = let same = (eq_iff w.type (codes "json")).1 j in ground arith
write_from w val (left_out o n) = ground arith

writes_to :
    (ws : List WriteSpec) (output : Dict Value)
    → validate_writes ws output ≡ ok tt
    → All (λ w. Satisfies w (get w.name output)) ws
unfolding validate_writes
writes_to [] output h = tt
writes_to (w ∷ ws) output h =
    (write_to w (get w.name output) (ground arith), writes_to ws output (ground arith))

writes_from :
    (ws : List WriteSpec) (output : Dict Value)
    → All (λ w. Satisfies w (get w.name output)) ws
    → validate_writes ws output ≡ ok tt
unfolding validate_writes
writes_from [] output h = refl
writes_from (w ∷ ws) output (h, hs) =
    rw (write_from w (get w.name output) h) (writes_from ws output hs)

keys_to :
    (allowed ks : List JsString)
    → validate_keys allowed ks ≡ ok tt
    → All (λ k. contains allowed k ≡ true) ks
unfolding validate_keys
keys_to allowed [] h = tt
keys_to allowed (k ∷ ks) h = (ground arith, keys_to allowed ks (ground arith))

keys_from :
    (allowed ks : List JsString)
    → All (λ k. contains allowed k ≡ true) ks
    → validate_keys allowed ks ≡ ok tt
unfolding validate_keys
keys_from allowed [] h = refl
keys_from allowed (k ∷ ks) (h, hs) = rw h (keys_from allowed ks hs)

-- An output is accepted exactly when each of its keys names a declared write, and its value at each
-- write is of the declared type, or null for `json`, or missing for an optional write.
pub validate_output_iff :
    (stage : StageSpec) (output : Dict Value)
    → (validate_output stage output ≡ ok tt) ↔ (
        All (λ k. contains (map write_name stage.writes) k ≡ true) (keys output)
        × All (λ w. Satisfies w (get w.name output)) stage.writes)
unfolding validate_output
validate_output_iff stage output = (
  λ h. (keys_to _ (keys output) (ground arith), writes_to stage.writes output (ground arith)),
  λ (k, s). rw (keys_from _ (keys output) k) (writes_from stage.writes output s),
)

-- An optional write of an array type under this name.
abbrev pub is_optional_array : JsString → WriteSpec → Bool
is_optional_array k w = (w.name == k) && (w.optional && ends_with w.type (codes "[]"))

normalize_write-get :
    (w : WriteSpec) (k : JsString) (d : Dict Value)
    → get k (normalize_write w d)
      ≡ (if is_optional_array k w && is_empty_array (get k d) then null else get k d)
unfolding normalize_write
normalize_write-get w k d = ground (arith, get-insert w.name k null d, eq_iff w.name k)

normalize_writes-get :
    (ws : List WriteSpec) (k : JsString) (d : Dict Value)
    → get k (normalize_writes ws d)
      ≡ (if some_of (is_optional_array k) ws && is_empty_array (get k d) then null else get k d)
unfolding normalize_writes
normalize_writes-get [] k d = refl
normalize_writes-get (w ∷ ws) k d =
    ground (arith, normalize_writes-get ws k (normalize_write w d), normalize_write-get w k d)

-- Normalisation turns the empty arrays under optional array writes into null, and leaves every other
-- field as it was.
pub normalize-get :
    (stage : StageSpec) (k : JsString) (output : Dict Value)
    → get k (normalize_optional_empty_arrays stage output) ≡ (
        if some_of (is_optional_array k) stage.writes && is_empty_array (get k output)
        then null
        else get k output)
unfolding normalize_optional_empty_arrays
normalize-get stage k output = normalize_writes-get stage.writes k output

require-error :
    (b : Bool) (e : Error) → require b stage_output_validation ≡ err e → e ≡ stage_output_validation
require-error true e h = absurd (ground arith)
require-error false e h = ground arith

keys-error :
    (allowed ks : List JsString) (e : Error)
    → validate_keys allowed ks ≡ err e
    → e ≡ stage_output_validation
unfolding validate_keys
keys-error allowed [] e h = absurd (ground arith)
keys-error allowed (k ∷ ks) e h =
    ground (arith, keys-error allowed ks e, require-error (contains allowed k) e)

write-error :
    (w : WriteSpec) (v : Value) (e : Error)
    → validate_write w v ≡ err e
    → e ≡ stage_output_validation
unfolding validate_write
write-error w v e h = ground (arith, validate_write_type-error v w.type e)

writes-error :
    (ws : List WriteSpec) (output : Dict Value) (e : Error)
    → validate_writes ws output ≡ err e
    → e ≡ stage_output_validation
unfolding validate_writes
writes-error [] output e h = absurd (ground arith)
writes-error (w ∷ ws) output e h =
    ground (arith, writes-error ws output e, write-error w (get w.name output) e)

pub validate_output-error :
    (stage : StageSpec) (output : Dict Value) (e : Error)
    → validate_output stage output ≡ err e
    → e ≡ stage_output_validation
unfolding validate_output
validate_output-error stage output e h = ground (
  arith,
  keys-error (map write_name stage.writes) (keys output) e,
  writes-error stage.writes output e,
)
