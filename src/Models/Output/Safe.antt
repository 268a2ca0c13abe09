-- ===== src/Models/Output/Safe.antt =====
-- `hasLoneSurrogateModel` and `isModelJsonSafeValue` of models.ts, which has its own copies of the
-- checks of runtime.ts.
use nemoir_web_runtime.Prelude.{
  ℕ, ◌≡◌, refl, ap, Bool, true, false, ◌||◌, Option, none, some, List, [], ◌∷◌, ltb, arith,
  if◌then◌else◌,
}
use nemoir_web_runtime.Js.Text.{JsString}
use nemoir_web_runtime.Js.Number.{is_finite}
use nemoir_web_runtime.Js.Value.{
  Value, undefined, null, bool, num, str, arr, obj, host, fn, Items, nil, cons, Fields, end, field,
}
use nemoir_web_runtime.Unicode.{is_lead, is_trail, has_lone_surrogate}
use nemoir_web_runtime.Output.JsonSafe.{
  ◌>>=◌, enter, json_safe, json_safe_items, json_safe_fields, is_json_safe_value,
}

-- A lead surrogate wants a next unit that is neither below nor above the trail surrogates.
unfoldable pub has_lone_surrogate_model : JsString → Bool
has_lone_surrogate_model [] = false
has_lone_surrogate_model (cu ∷ []) = if is_lead cu then true else is_trail cu
has_lone_surrogate_model (cu ∷ next ∷ rest) =
    let skipping = has_lone_surrogate_model rest in
    let going_on = has_lone_surrogate_model (next ∷ rest) in
    if is_lead cu
    then (if ltb next 0xdc00 || ltb 0xdfff next then true else skipping)
    else if is_trail cu
    then true
    else going_on

-- As in Output.JsonSafe, `none` is the answer `false`.
unfoldable mutual
  pub model_safe : List ℕ → Value → Option (List ℕ)
  model_safe seen null = some seen
  model_safe seen (str s) = if has_lone_surrogate_model s then none else some seen
  model_safe seen (bool b) = some seen
  model_safe seen (num n) = if is_finite n then some seen else none
  model_safe seen (arr i xs) = enter i seen >>= λ added. model_safe_items added xs
  model_safe seen (obj i fs) = enter i seen >>= λ added. model_safe_fields added fs
  model_safe seen undefined = none
  model_safe seen (host i fs) = none
  model_safe seen (fn i) = none

  pub model_safe_items : List ℕ → Items → Option (List ℕ)
  model_safe_items seen nil = some seen
  model_safe_items seen (cons x xs) = model_safe seen x >>= λ more. model_safe_items more xs

  pub model_safe_fields : List ℕ → Fields → Option (List ℕ)
  model_safe_fields seen end = some seen
  model_safe_fields seen (field k x fs) =
      if has_lone_surrogate_model k
      then none
      else (model_safe seen x >>= λ more. model_safe_fields more fs)

unfoldable pub is_model_json_safe_value : Value → Bool
is_model_json_safe_value v = elim (model_safe [] v) [ none ↦ false | some seen ↦ true ]

pub lone_surrogates_agree : (s : JsString) → has_lone_surrogate_model s ≡ has_lone_surrogate s
unfolding has_lone_surrogate_model has_lone_surrogate is_trail
lone_surrogates_agree [] = refl
lone_surrogates_agree (c ∷ []) = ground arith
lone_surrogates_agree (c ∷ d ∷ s) =
    ground (arith, lone_surrogates_agree s, lone_surrogates_agree (d ∷ s))

bind-ext :
    (o : Option (List ℕ)) (f g : List ℕ → Option (List ℕ))
    → ((seen : List ℕ) → f seen ≡ g seen)
    → (o >>= f) ≡ (o >>= g)
bind-ext none f g h = refl
bind-ext (some seen) f g h = h seen

mutual
  unfolding model_safe json_safe

  safe_agree : (v : Value) (seen : List ℕ) → model_safe seen v ≡ json_safe v seen
  safe_agree null seen = refl
  safe_agree (str s) seen = rw (lone_surrogates_agree s)
  safe_agree (bool b) seen = refl
  safe_agree (num n) seen = refl
  safe_agree (arr i xs) seen = bind-ext (enter i seen) _ _ (safe_items_agree xs)
  safe_agree (obj i fs) seen = bind-ext (enter i seen) _ _ (safe_fields_agree fs)
  safe_agree undefined seen = refl
  safe_agree (host i fs) seen = refl
  safe_agree (fn i) seen = refl

  safe_items_agree :
      (xs : Items) (seen : List ℕ) → model_safe_items seen xs ≡ json_safe_items xs seen
  safe_items_agree nil seen = refl
  safe_items_agree (cons x xs) seen =
      rw (safe_agree x seen) (bind-ext (json_safe x seen) _ _ (safe_items_agree xs))

  safe_fields_agree :
      (fs : Fields) (seen : List ℕ) → model_safe_fields seen fs ≡ json_safe_fields fs seen
  safe_fields_agree end seen = refl
  safe_fields_agree (field k x fs) seen =
      rw (lone_surrogates_agree k, safe_agree x seen)
        (ap (λ o. if has_lone_surrogate k then none else o)
          (bind-ext (json_safe x seen) _ _ (safe_fields_agree fs)))

-- The check for JSON-safe values of the model layer accepts the same values as that of the runtime.
pub is_model_json_safe_value-eq : (v : Value) → is_model_json_safe_value v ≡ is_json_safe_value v
unfolding is_model_json_safe_value is_json_safe_value
is_model_json_safe_value-eq v =
    ap (λ o. elim o [ none ↦ false | some seen ↦ true ]) (safe_agree v [])
