-- ===== src/Output/JsonSafe.antt =====
-- `isJsonSafeValue` of runtime.ts. `none` is the answer `false`; `some seen` is the answer `true` with the
-- identities that the `WeakSet` holds then. Object.entries of a plain object are its fields.
pub mod Identities
use nemoir_web_runtime.Prelude.{
  ℕ, Bool, true, false, ◌||◌, Option, none, some, List, [], ◌∷◌, eqb, if◌then◌else◌,
}
use nemoir_web_runtime.Js.Number.{is_finite}
use nemoir_web_runtime.Js.Value.{
  Value, undefined, null, bool, num, str, arr, obj, host, fn, Items, nil, cons, Fields, end, field,
}
use nemoir_web_runtime.Unicode.{has_lone_surrogate}

-- `seen.has(value)`
unfoldable pub seen_has : List ℕ → ℕ → Bool
seen_has [] i = false
seen_has (j ∷ seen) i = eqb j i || seen_has seen i

infixl 5 ◌>>=◌
abbrev pub ◌>>=◌ : Option (List ℕ) → (List ℕ → Option (List ℕ)) → Option (List ℕ)
none >>= f = none
some seen >>= f = f seen

-- `seen?.has(value)` and `seen.add(value)`
unfoldable pub enter : ℕ → List ℕ → Option (List ℕ)
enter i seen = if seen_has seen i then none else some (i ∷ seen)

unfoldable mutual
  pub json_safe : Value → List ℕ → Option (List ℕ)
  json_safe null seen = some seen
  json_safe (str s) seen = if has_lone_surrogate s then none else some seen
  json_safe (bool b) seen = some seen
  json_safe (num n) seen = if is_finite n then some seen else none
  json_safe (arr i xs) seen = enter i seen >>= λ entered. json_safe_items xs entered
  json_safe (obj i fs) seen = enter i seen >>= λ entered. json_safe_fields fs entered
  json_safe (host i fs) seen = none
  json_safe (fn i) seen = none
  json_safe undefined seen = none

  pub json_safe_items : Items → List ℕ → Option (List ℕ)
  json_safe_items nil seen = some seen
  json_safe_items (cons x xs) seen = json_safe x seen >>= λ later. json_safe_items xs later

  pub json_safe_fields : Fields → List ℕ → Option (List ℕ)
  json_safe_fields end seen = some seen
  json_safe_fields (field k x fs) seen =
      if has_lone_surrogate k
      then none
      else (json_safe x seen >>= λ later. json_safe_fields fs later)

unfoldable pub is_json_safe_value : Value → Bool
is_json_safe_value v = elim (json_safe v []) [ none ↦ false | some seen ↦ true ]
