-- ===== src/Unicode/Scalars.antt =====
-- runtime.ts and canonical.ts: strings without lone surrogates, and Unicode scalar values.
use nemoir_web_runtime.Prelude.{
  ℕ, ◌+◌, ◌-◌, ◌*◌, ◌/◌, ◌%◌, ◌≤◌, ◌<◌, ◌≡◌, refl, ◌⊎◌, inl, inr, ◌↔◌, true, false, List, [], ◌∷◌,
  ◌++◌, arith, ltb, if◌then◌else◌, All, Bool-cases, ap, ◌∙◌,
}
use nemoir_web_runtime.Errors.{ok, err, other_error}
use nemoir_web_runtime.Js.Text.{JsString}
use nemoir_web_runtime.Unicode.{is_lead, is_trail, has_lone_surrogate, assert_unicode_scalar_string}

-- A Unicode scalar value: a code point that is no surrogate.
abbrev pub IsScalar : ℕ → Type 0
IsScalar x = (x < 0xd800) ⊎ ((0xe000 ≤ x) × (x < 0x110000))

-- One code unit below 0x10000, and a surrogate pair from there on.
abbrev pub encode_scalar : ℕ → JsString
encode_scalar x =
    if ltb x 0x10000
    then x ∷ []
    else (0xd800 + (x - 0x10000) / 0x400) ∷ (0xdc00 + (x - 0x10000) % 0x400) ∷ []

abbrev pub encode : List ℕ → JsString
encode [] = []
encode (x ∷ xs) = encode_scalar x ++ encode xs

abbrev pub IsUnit : ℕ → Type 0
IsUnit c = c < 0x10000

-- One step of the scan, past a unit that is no surrogate and past a pair.
lone-unit :
    (c : ℕ) (s : JsString)
    → is_lead c ≡ false
    → is_trail c ≡ false
    → has_lone_surrogate (c ∷ s) ≡ has_lone_surrogate s
unfolding has_lone_surrogate
lone-unit c [] l t = ground arith
lone-unit c (d ∷ s) l t = ground arith

lone-pair :
    (c d : ℕ) (s : JsString)
    → is_lead c ≡ true
    → is_trail d ≡ true
    → has_lone_surrogate (c ∷ d ∷ s) ≡ has_lone_surrogate s
unfolding has_lone_surrogate
lone-pair c d s l t = ground arith

encode-well_formed : (xs : List ℕ) → All IsScalar xs → has_lone_surrogate (encode xs) ≡ false
unfolding is_lead is_trail
encode-well_formed [] h = unfold has_lone_surrogate in refl
encode-well_formed (x ∷ xs) (scalar, h) = elim (Bool-cases (ltb x 0x10000)) [
  | inl small ↦
      rw small (lone-unit x (encode xs) (ground arith) (ground arith) ∙ encode-well_formed xs h)
  | inr large ↦
      rw large (lone-pair _ _ (encode xs) (ground arith) (ground arith) ∙ encode-well_formed xs h)
]

-- The scalar value of a surrogate pair.
abbrev pair_value : ℕ → ℕ → ℕ
pair_value c d = 0x10000 + (c - 0xd800) * 0x400 + (d - 0xdc00)

lead_bounds : (c : ℕ) → is_lead c ≡ true → (0xd800 ≤ c) × (c ≤ 0xdbff)
unfolding is_lead
lead_bounds c l = ground arith

trail_bounds : (c : ℕ) → is_trail c ≡ true → (0xdc00 ≤ c) × (c ≤ 0xdfff)
unfolding is_trail
trail_bounds c t = ground arith

unit-IsScalar : (c : ℕ) → IsUnit c → is_lead c ≡ false → is_trail c ≡ false → IsScalar c
unfolding is_lead is_trail
unit-IsScalar c u l t = ground arith

large_ltb : (x : ℕ) → 0x10000 ≤ x → ltb x 0x10000 ≡ false
large_ltb x h = ground arith

small_ltb : (x : ℕ) → x < 0x10000 → ltb x 0x10000 ≡ true
small_ltb x h = ground arith

pair_units :
    (c d : ℕ)
    → 0xd800 ≤ c
    → 0xdc00 ≤ d
    → d ≤ 0xdfff
    → (0xd800 + (pair_value c d - 0x10000) / 0x400 ≡ c)
      × (0xdc00 + (pair_value c d - 0x10000) % 0x400 ≡ d)
pair_units c d h k m = omega arith

pair-IsScalar : (c d : ℕ) → is_lead c ≡ true → is_trail d ≡ true → IsScalar (pair_value c d)
pair-IsScalar c d l t =
    let (h, k) = lead_bounds c l in
    let (h', k') = trail_bounds d t in inr (omega arith, omega arith)

pair-encode :
    (c d : ℕ) → is_lead c ≡ true → is_trail d ≡ true → encode_scalar (pair_value c d) ≡ c ∷ d ∷ []
pair-encode c d l t =
    let (h, k) = lead_bounds c l in
    let (h', k') = trail_bounds d t in
    let (p, q) = pair_units c d h h' k' in
    rw (large_ltb (pair_value c d) (omega arith)) (λ i. p i ∷ q i ∷ [])

-- The scalar values that a string without lone surrogates encodes.
decode :
    (s : JsString)
    → All IsUnit s
    → has_lone_surrogate s ≡ false
    → (xs : List ℕ) × All IsScalar xs × (encode xs ≡ s)
unfolding has_lone_surrogate
decode [] u h = ([], tt, refl)
decode (c ∷ []) (u, us) h =
    (c ∷ [], (unit-IsScalar c u (ground arith) (ground arith), tt), rw (small_ltb c u))
decode (c ∷ d ∷ s) (u, us) h = elim (Bool-cases (is_lead c)) [
  | inl lead ↦ elim (Bool-cases (is_trail d)) [
    | inl trail ↦
        let (xs, scalars, e) = decode s us.1 (ground arith) in
        (
          pair_value c d ∷ xs,
          (pair-IsScalar c d lead trail, scalars),
          rw (pair-encode c d lead trail) (ap (λ (t : JsString). c ∷ d ∷ t) e),
        )
    | inr single ↦ absurd (ground arith)
  ]
  | inr unit ↦
      let (xs, scalars, e) = decode (d ∷ s) us (ground arith) in
      (
        c ∷ xs,
        (unit-IsScalar c u unit (ground arith), scalars),
        rw (small_ltb c u) (ap (λ (t : JsString). c ∷ t) e),
      )
]

-- A string of 16-bit units has no lone surrogate exactly when it is the UTF-16 encoding of a
-- sequence of Unicode scalar values.
pub has_lone_surrogate_iff :
    (s : JsString)
    → All IsUnit s
    → (has_lone_surrogate s ≡ false) ↔ ((xs : List ℕ) × All IsScalar xs × (encode xs ≡ s))
has_lone_surrogate_iff s u =
    (decode s u, λ (xs, scalars, e). rw (← e) (encode-well_formed xs scalars))

-- canonical.ts accepts exactly the strings in which runtime.ts finds no lone surrogate.
pub assert-eq-has_lone_surrogate :
    (s : JsString)
    → assert_unicode_scalar_string s ≡ (if has_lone_surrogate s then err other_error else ok tt)
unfolding assert_unicode_scalar_string has_lone_surrogate
assert-eq-has_lone_surrogate [] = refl
assert-eq-has_lone_surrogate (c ∷ []) = ground arith
assert-eq-has_lone_surrogate (c ∷ d ∷ s) =
    ground (arith, assert-eq-has_lone_surrogate s, assert-eq-has_lone_surrogate (d ∷ s))
