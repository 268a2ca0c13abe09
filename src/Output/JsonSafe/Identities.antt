-- ===== src/Output/JsonSafe/Identities.antt =====
-- `isJsonSafeValue` of runtime.ts, and the identities in a value.
use nemoir_web_runtime.Prelude.{
  ℕ, ◌≡◌, refl, Bool, true, false, not, ◌&&◌, Option, none, some, List, [], ◌∷◌, ◌++◌, arith,
  if◌then◌else◌,
}
use nemoir_web_runtime.Js.Number.{is_finite}
use nemoir_web_runtime.Js.Value.{
  Value, undefined, null, bool, num, str, arr, obj, host, fn, Items, nil, cons, Fields, end, field,
}
use nemoir_web_runtime.Unicode.{has_lone_surrogate}
use nemoir_web_runtime.Output.JsonSafe.{
  seen_has, ◌>>=◌, enter, json_safe, json_safe_items, json_safe_fields, is_json_safe_value,
}

-- JSON data, without regard to identities.
unfoldable mutual
  pub is_json : Value → Bool
  is_json null = true
  is_json (str s) = not (has_lone_surrogate s)
  is_json (bool b) = true
  is_json (num n) = is_finite n
  is_json (arr i xs) = is_json_items xs
  is_json (obj i fs) = is_json_fields fs
  is_json (host i fs) = false
  is_json (fn i) = false
  is_json undefined = false

  pub is_json_items : Items → Bool
  is_json_items nil = true
  is_json_items (cons x xs) = is_json x && is_json_items xs

  pub is_json_fields : Fields → Bool
  is_json_fields end = true
  is_json_fields (field k x fs) = not (has_lone_surrogate k) && (is_json x && is_json_fields fs)

-- The identities of the arrays and plain objects in a value, in the order of a traversal.
unfoldable mutual
  pub identities : Value → List ℕ
  identities (arr i xs) = i ∷ identities_items xs
  identities (obj i fs) = i ∷ identities_fields fs
  identities null = []
  identities (str s) = []
  identities (bool b) = []
  identities (num n) = []
  identities (host i fs) = []
  identities (fn i) = []
  identities undefined = []

  pub identities_items : Items → List ℕ
  identities_items nil = []
  identities_items (cons x xs) = identities x ++ identities_items xs

  pub identities_fields : Fields → List ℕ
  identities_fields end = []
  identities_fields (field k x fs) = identities x ++ identities_fields fs

-- No identity occurs twice.
unfoldable pub is_distinct : List ℕ → Bool
is_distinct [] = true
is_distinct (i ∷ is) = not (seen_has is i) && is_distinct is

-- Enters the identities of a list one after the other.
visit : List ℕ → List ℕ → Option (List ℕ)
visit [] seen = some seen
visit (i ∷ is) seen = enter i seen >>= λ entered. visit is entered

visit-append :
    (is js seen : List ℕ) → visit (is ++ js) seen ≡ (visit is seen >>= λ later. visit js later)
unfolding visit
visit-append [] js seen = refl
visit-append (i ∷ is) js seen = go (enter i seen) (λ (s : List ℕ). visit-append is js s)
  where
    go :
        (o : Option (List ℕ))
        → ((s : List ℕ) → visit (is ++ js) s ≡ (visit is s >>= λ later. visit js later))
        → (o >>= λ entered. visit (is ++ js) entered)
          ≡ ((o >>= λ entered. visit is entered) >>= λ later. visit js later)
    go none h = refl
    go (some s) h = h s

abbrev only_if : Bool → Option (List ℕ) → Option (List ℕ)
only_if b o = if b then o else none

only_if-bind :
    (a b : Bool) (o : Option (List ℕ)) (f g : List ℕ → Option (List ℕ))
    → ((s : List ℕ) → f s ≡ only_if b (g s))
    → (only_if a o >>= f) ≡ only_if (a && b) (o >>= g)
only_if-bind true b none f g h = ground arith
only_if-bind true b (some s) f g h = h s
only_if-bind false b o f g h = refl

only_if-enter :
    (b : Bool) (o : Option (List ℕ)) (f g : List ℕ → Option (List ℕ))
    → ((s : List ℕ) → f s ≡ only_if b (g s))
    → (o >>= f) ≡ only_if b (o >>= g)
only_if-enter b o f g h = only_if-bind true b o f g h

only_if-key :
    (k a : Bool) (o q : Option (List ℕ))
    → o ≡ only_if a q
    → (if k then none else o) ≡ only_if (not k && a) q
only_if-key true a o q h = refl
only_if-key false a o q h = h

mutual
  unfolding json_safe is_json identities visit

  json_safe-visit :
      (v : Value) (seen : List ℕ)
      → json_safe v seen ≡ only_if (is_json v) (visit (identities v) seen)
  json_safe-visit null seen = refl
  json_safe-visit (str s) seen = ground arith
  json_safe-visit (bool b) seen = refl
  json_safe-visit (num n) seen = refl
  json_safe-visit (arr i xs) seen =
      only_if-enter _ (enter i seen) _ _ (λ s. json_safe_items-visit xs s)
  json_safe-visit (obj i fs) seen =
      only_if-enter _ (enter i seen) _ _ (λ s. json_safe_fields-visit fs s)
  json_safe-visit (host i fs) seen = refl
  json_safe-visit (fn i) seen = refl
  json_safe-visit undefined seen = refl

  json_safe_items-visit :
      (xs : Items) (seen : List ℕ)
      → json_safe_items xs seen ≡ only_if (is_json_items xs) (visit (identities_items xs) seen)
  json_safe_items-visit nil seen = refl
  json_safe_items-visit (cons x xs) seen =
      rw (visit-append (identities x) (identities_items xs) seen, json_safe-visit x seen)
        (only_if-bind (is_json x) _ (visit (identities x) seen) _ _
          (λ s. json_safe_items-visit xs s))

  json_safe_fields-visit :
      (fs : Fields) (seen : List ℕ)
      → json_safe_fields fs seen ≡ only_if (is_json_fields fs) (visit (identities_fields fs) seen)
  json_safe_fields-visit end seen = refl
  json_safe_fields-visit (field k x fs) seen =
      rw (visit-append (identities x) (identities_fields fs) seen, json_safe-visit x seen)
        (only_if-key (has_lone_surrogate k) _ _ _ (
          only_if-bind (is_json x) _ (visit (identities x) seen) _ _
            (λ s. json_safe_fields-visit fs s)))

abbrev is_some : Option (List ℕ) → Bool
is_some none = false
is_some (some s) = true

-- No identity of the list is among those seen.
is_fresh : List ℕ → List ℕ → Bool
is_fresh [] seen = true
is_fresh (i ∷ is) seen = not (seen_has seen i) && is_fresh is seen

fresh-cons :
    (is seen : List ℕ) (i : ℕ) → is_fresh is (i ∷ seen) ≡ (not (seen_has is i) && is_fresh is seen)
unfolding is_fresh seen_has
fresh-cons [] seen i = refl
fresh-cons (j ∷ is) seen i = ground (arith, fresh-cons is seen i)

visit-distinct : (is seen : List ℕ) → is_some (visit is seen) ≡ (is_distinct is && is_fresh is seen)
unfolding visit is_distinct is_fresh enter
visit-distinct [] seen = refl
visit-distinct (i ∷ is) seen = ground (arith, visit-distinct is (i ∷ seen), fresh-cons is seen i)

fresh-nil : (is : List ℕ) → is_fresh is [] ≡ true
unfolding is_fresh seen_has
fresh-nil [] = refl
fresh-nil (i ∷ is) = fresh-nil is

-- A value passes exactly when it is JSON data in which no array or object occurs twice: a cycle is
-- refused, and so is a value that shares a part without a cycle.
pub is_json_safe_value_iff :
    (v : Value) → is_json_safe_value v ≡ (is_json v && is_distinct (identities v))
unfolding is_json_safe_value
is_json_safe_value_iff v =
    ground (arith, json_safe-visit v [], visit-distinct (identities v) [], fresh-nil (identities v))
