-- ===== src/Js/Dict.antt =====
-- Objects used as dictionaries (`Record<string, T>`) and `Map`s with string keys, as association
-- lists in insertion order.
use nemoir_web_runtime.Prelude.{
  ◌≡◌, refl, Bool, true, false, ◌||◌, List, [], ◌∷◌, arith, if◌then◌else◌, Option, none, some,
  Bool-cases, inl, inr, All,
}
use nemoir_web_runtime.Js.Text.{JsString, ◌==◌, eq_iff, eq_refl}
use nemoir_web_runtime.Js.Value.{Value, undefined}

abbrev pub Dict {ℓ} : Type ℓ → Type ℓ
Dict V = List (JsString × V)

module _ {ℓ} {V : Type ℓ} where
  unfoldable pub lookup : JsString → Dict V → Option V
  lookup k [] = none
  lookup k ((j, v) ∷ d) = if j == k then some v else lookup k d

  -- `k in d`, `map.has(k)`
  unfoldable pub has : JsString → Dict V → Bool
  has k [] = false
  has k ((j, v) ∷ d) = (j == k) || has k d

  -- `d[k] = v`, `map.set(k, v)`: a key that is there keeps its place
  unfoldable pub insert : JsString → V → Dict V → Dict V
  insert k v [] = (k, v) ∷ []
  insert k v ((j, w) ∷ d) = if j == k then (j, v) ∷ d else (j, w) ∷ insert k v d

  -- `Object.keys(d)`
  unfoldable pub keys : Dict V → List JsString
  keys [] = []
  keys ((k, v) ∷ d) = k ∷ keys d

  pub lookup-insert :
      (k j : JsString) (v : V) (d : Dict V)
      → lookup j (insert k v d) ≡ (if k == j then some v else lookup j d)
  unfolding lookup insert
  lookup-insert k j v [] = refl
  lookup-insert k j v ((i, w) ∷ d) =
      ground (arith, eq_iff k j, eq_iff i k, eq_iff i j, lookup-insert k j v d)

  pub lookup-insert_self : (k : JsString) (v : V) (d : Dict V) → lookup k (insert k v d) ≡ some v
  lookup-insert_self k v d = simp (lookup-insert, eq_refl)

  pub has-lookup : (k : JsString) (d : Dict V) → has k d ≡ true → (v : V) × (lookup k d ≡ some v)
  unfolding has lookup
  has-lookup k [] h = absurd (ground arith)
  has-lookup k ((j, v) ∷ d) h = elim (Bool-cases (j == k)) [
    | inl e ↦ (v, rw e)
    | inr e ↦ let (w, found) = has-lookup k d (rw e at h) in (w, rw e found)
  ]

  pub lookup-none-has : (k : JsString) (d : Dict V) → lookup k d ≡ none → has k d ≡ false
  unfolding has lookup
  lookup-none-has k [] h = refl
  lookup-none-has k ((j, v) ∷ d) h = ground (arith, lookup-none-has k d)

  pub lookup-of_not_has : (k : JsString) (d : Dict V) → has k d ≡ false → lookup k d ≡ none
  unfolding has lookup
  lookup-of_not_has k [] h = refl
  lookup-of_not_has k ((j, v) ∷ d) h = ground (arith, lookup-of_not_has k d)

  -- What holds of a new key and of the others holds of the keys after an insertion.
  pub keys-insert :
      (P : JsString → Type 0) (k : JsString) (v : V) (d : Dict V)
      → P k
      → All P (keys d)
      → All P (keys (insert k v d))
  unfolding keys insert
  keys-insert P k v [] p h = (p, tt)
  keys-insert P k v ((j, u) ∷ d) p (q, h) = elim (Bool-cases (j == k)) [
    | inl e ↦ rw e (q, h)
    | inr e ↦ rw e (q, keys-insert P k v d p h)
  ]

-- `d[k]`, which is `undefined` where the key is missing
unfoldable pub get : JsString → Dict Value → Value
get k d = elim (lookup k d) [ none ↦ undefined | some v ↦ v ]

pub get-insert :
    (k j : JsString) (v : Value) (d : Dict Value)
    → get j (insert k v d) ≡ (if k == j then v else get j d)
unfolding get
get-insert k j v d = ground (arith, lookup-insert k j v d)
