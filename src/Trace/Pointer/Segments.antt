-- ===== src/Trace/Pointer/Segments.antt =====
-- trace.ts: a pointer made of keys leads back to the keys.
use nemoir_web_runtime.Prelude.{
  ℕ, ◌≡◌, refl, sym, ap, ◌∙◌, false, inl, inr, Bool-cases, List, [], ◌∷◌, ◌++◌, map, arith,
  if◌then◌else◌, eqb, eqb_iff,
}
use nemoir_web_runtime.Js.Text.{JsString}
use nemoir_web_runtime.Trace.Pointer.{
  replace_unit, replace_pair, tilde, slash, digit_zero, digit_one, escape_pointer_segment,
  unescape_pointer_segment, child_pointer, split_slashes, pointer_keys,
}

-- The pointer of a value under keys, as the walk over a record builds it.
abbrev pub pointer_from : JsString → List JsString → JsString
pointer_from pointer [] = pointer
pointer_from pointer (key ∷ keys) = pointer_from (child_pointer pointer key) keys

abbrev tildes : JsString → JsString
tildes = replace_unit tilde (tilde ∷ digit_zero ∷ [])

abbrev slashes : JsString → JsString
slashes = replace_unit slash (tilde ∷ digit_one ∷ [])

-- A unit that does not begin the pair stays.
pair-other :
    (a b to x : ℕ) (s : JsString)
    → eqb x a ≡ false
    → replace_pair a b to (x ∷ s) ≡ x ∷ replace_pair a b to s
unfolding replace_pair
pair-other a b to x [] h = refl
pair-other a b to x (y ∷ s) h = rw h refl

pair-same :
    (a b to : ℕ) (s : JsString) → replace_pair a b to (a ∷ b ∷ s) ≡ to ∷ replace_pair a b to s
unfolding replace_pair
pair-same a b to s = ground arith

pair-half :
    (a b to y : ℕ) (s : JsString)
    → eqb y b ≡ false
    → replace_pair a b to (a ∷ y ∷ s) ≡ a ∷ replace_pair a b to (y ∷ s)
unfolding replace_pair
pair-half a b to y s h = ground arith

tildes-back : (s : JsString) → replace_pair tilde digit_zero tilde (tildes s) ≡ s
unfolding replace_unit
tildes-back [] = unfold replace_pair in refl
tildes-back (c ∷ s) = elim (Bool-cases (eqb c tilde)) [
  | inl t ↦ rw t (
      pair-same tilde digit_zero tilde (tildes s)
      ∙ ap (λ r. tilde ∷ r) (tildes-back s)
      ∙ ap (λ (n : ℕ). n ∷ s) (sym ((eqb_iff c tilde).0 t)))
  | inr o ↦
      rw o (pair-other tilde digit_zero tilde c (tildes s) o ∙ ap (λ r. c ∷ r) (tildes-back s))
]

-- The escaping of one unit.
abbrev escaped : ℕ → JsString
escaped c =
    if eqb c tilde
    then tilde ∷ digit_zero ∷ []
    else if eqb c slash
    then tilde ∷ digit_one ∷ []
    else c ∷ []

slashes-back : (s : JsString) → replace_pair tilde digit_one slash (slashes (tildes s)) ≡ tildes s
unfolding replace_unit
slashes-back [] = unfold replace_pair in refl
slashes-back (c ∷ s) = elim (Bool-cases (eqb c tilde)) [
  | inl t ↦ rw t (
      pair-half tilde digit_one slash digit_zero (slashes (tildes s)) refl
      ∙ ap (λ r. tilde ∷ r)
          (pair-other tilde digit_one slash digit_zero (slashes (tildes s)) refl
            ∙ ap (λ r. digit_zero ∷ r) (slashes-back s)))
  | inr o ↦ rw o (elim (Bool-cases (eqb c slash)) [
    | inl t ↦ rw t (
        pair-same tilde digit_one slash (slashes (tildes s))
        ∙ ap (λ r. slash ∷ r) (slashes-back s)
        ∙ ap (λ (n : ℕ). n ∷ tildes s) (sym ((eqb_iff c slash).0 t)))
    | inr n ↦ rw n (
        pair-other tilde digit_one slash c (slashes (tildes s)) o
        ∙ ap (λ r. c ∷ r) (slashes-back s))
  ])
]

unescape-escape : (s : JsString) → unescape_pointer_segment (escape_pointer_segment s) ≡ s
unfolding unescape_pointer_segment escape_pointer_segment
unescape-escape s = ap (replace_pair tilde digit_zero tilde) (slashes-back s) ∙ tildes-back s

-- A first part and the others, the first one longer.
abbrev longer : JsString → JsString × List JsString → JsString × List JsString
longer s parts = (s ++ parts.0, parts.1)

split-other :
    (c : ℕ) (s : JsString)
    → eqb c slash ≡ false
    → split_slashes (c ∷ s) ≡ longer (c ∷ []) (split_slashes s)
unfolding split_slashes
split-other c s h = rw h refl

split-slash :
    (s : JsString) → split_slashes (slash ∷ s) ≡ ([], (split_slashes s).0 ∷ (split_slashes s).1)
unfolding split_slashes
split-slash s = refl

-- An escaped key stays in one part.
split-escaped :
    (key rest : JsString)
    → split_slashes (escape_pointer_segment key ++ rest)
      ≡ longer (escape_pointer_segment key) (split_slashes rest)
unfolding escape_pointer_segment replace_unit
split-escaped [] rest = refl
split-escaped (c ∷ s) rest = elim (Bool-cases (eqb c tilde)) [
  | inl t ↦ rw t (
      split-other tilde _ refl
      ∙ ap (longer (tilde ∷ [])) (split-other digit_zero _ refl)
      ∙ ap (longer (tilde ∷ digit_zero ∷ [])) (split-escaped s rest))
  | inr o ↦ rw o (elim (Bool-cases (eqb c slash)) [
    | inl t ↦ rw t (
        split-other tilde _ refl
        ∙ ap (longer (tilde ∷ [])) (split-other digit_one _ refl)
        ∙ ap (longer (tilde ∷ digit_one ∷ [])) (split-escaped s rest))
    | inr n ↦ rw n (split-other c _ n ∙ ap (longer (c ∷ [])) (split-escaped s rest))
  ])
]

-- The text that keys add to a pointer.
abbrev below : List JsString → JsString
below [] = []
below (key ∷ keys) = (slash ∷ escape_pointer_segment key) ++ below keys

++-assoc : (r s t : JsString) → (r ++ s) ++ t ≡ r ++ (s ++ t)
++-assoc [] s t = refl
++-assoc (c ∷ r) s t = ap (λ x. c ∷ x) (++-assoc r s t)

++-nil : (s : JsString) → s ++ [] ≡ s
++-nil [] = refl
++-nil (c ∷ s) = ap (λ x. c ∷ x) (++-nil s)

pointer_from-below :
    (pointer : JsString) (keys : List JsString) → pointer_from pointer keys ≡ pointer ++ below keys
unfolding child_pointer
pointer_from-below pointer [] = sym (++-nil pointer)
pointer_from-below pointer (key ∷ keys) =
    pointer_from-below (child_pointer pointer key) keys
    ∙ ++-assoc pointer (slash ∷ escape_pointer_segment key) (below keys)

split-below :
    (keys : List JsString) → split_slashes (below keys) ≡ ([], map escape_pointer_segment keys)
split-below [] = unfold split_slashes in refl
split-below (key ∷ keys) =
    split-slash _
    ∙ rw (split-escaped key (below keys), split-below keys)
        (ap (λ k. ([], k ∷ map escape_pointer_segment keys)) (++-nil _))

keys-back :
    (keys : List JsString) → map unescape_pointer_segment (map escape_pointer_segment keys) ≡ keys
keys-back [] = refl
keys-back (key ∷ keys) = rw (unescape-escape key, keys-back keys) refl

-- The keys read from a pointer that was built from keys, whatever units they have, are those keys.
pub pointer_keys-pointer_from : (keys : List JsString) → pointer_keys (pointer_from [] keys) ≡ keys
unfolding pointer_keys
pointer_keys-pointer_from keys = rw (pointer_from-below [] keys, split-below keys) (keys-back keys)
