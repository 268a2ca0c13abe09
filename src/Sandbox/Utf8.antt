-- ===== src/Sandbox/Utf8.antt =====
-- sandbox.ts: the byte counter against UTF-8 itself.
use nemoir_web_runtime.Prelude.{
  ℕ, ◌+◌, ◌/◌, ◌%◌, ◌≡◌, refl, sym, ◌∙◌, ap, true, false, inl, inr, Bool-cases, List, [], ◌∷◌, ◌++◌,
  length, arith, ltb, if◌then◌else◌, All,
}
use nemoir_web_runtime.Js.Text.{JsString}
use nemoir_web_runtime.Unicode.{is_lead, is_trail}
use nemoir_web_runtime.Unicode.Scalars.{IsScalar, encode_scalar, encode}
use nemoir_web_runtime.Sandbox.{utf8_byte_length}

-- The bytes of a scalar value in UTF-8.
abbrev pub utf8_scalar : ℕ → List ℕ
utf8_scalar x =
    if ltb x 0x80
    then x ∷ []
    else if ltb x 0x800
    then (0xc0 + x / 0x40) ∷ (0x80 + x % 0x40) ∷ []
    else if ltb x 0x10000
    then (0xe0 + x / 0x1000) ∷ (0x80 + x / 0x40 % 0x40) ∷ (0x80 + x % 0x40) ∷ []
    else (0xf0 + x / 0x40000)
      ∷ (0x80 + x / 0x1000 % 0x40)
      ∷ (0x80 + x / 0x40 % 0x40)
      ∷ (0x80 + x % 0x40)
      ∷ []

abbrev pub utf8 : List ℕ → List ℕ
utf8 [] = []
utf8 (x ∷ xs) = utf8_scalar x ++ utf8 xs

length-append : (xs ys : List ℕ) → length (xs ++ ys) ≡ length xs + length ys
length-append [] ys = omega arith
length-append (x ∷ xs) ys = omega (arith, length-append xs ys)

bytes-unit :
    (c : ℕ) (s : JsString)
    → is_lead c ≡ false
    → utf8_byte_length (c ∷ s)
      ≡ (if ltb c 0x80 then 1 else if ltb c 0x800 then 2 else 3) + utf8_byte_length s
unfolding utf8_byte_length
bytes-unit c [] l = ground arith
bytes-unit c (d ∷ s) l = ground arith

lead-large : (c : ℕ) → is_lead c ≡ true → (ltb c 0x80 ≡ false) × (ltb c 0x800 ≡ false)
unfolding is_lead
lead-large c l = (ground arith, ground arith)

bytes-pair :
    (c d : ℕ) (s : JsString)
    → is_lead c ≡ true
    → is_trail d ≡ true
    → utf8_byte_length (c ∷ d ∷ s) ≡ 4 + utf8_byte_length s
unfolding utf8_byte_length
bytes-pair c d s l t = rw ((lead-large c l).0, (lead-large c l).1, l, t) refl

bytes-scalar :
    (x : ℕ) (s : JsString)
    → IsScalar x
    → utf8_byte_length (encode_scalar x ++ s) ≡ length (utf8_scalar x) + utf8_byte_length s
unfolding is_lead is_trail
bytes-scalar x s h = elim (Bool-cases (ltb x 0x10000)) [
  | inl small ↦ rw small (bytes-unit x s (ground arith) ∙ ground arith)
  | inr large ↦ rw large (bytes-pair _ _ s (ground arith) (ground arith) ∙ ground arith)
]

-- The counter of bytes gives, for the UTF-16 code units of a text of Unicode scalar values, the length
-- of the text in UTF-8.
pub utf8_byte_length-encode :
    (xs : List ℕ) → All IsScalar xs → utf8_byte_length (encode xs) ≡ length (utf8 xs)
utf8_byte_length-encode [] h = unfold utf8_byte_length in refl
utf8_byte_length-encode (x ∷ xs) (scalar, h) =
    bytes-scalar x (encode xs) scalar
    ∙ ap (λ n. length (utf8_scalar x) + n) (utf8_byte_length-encode xs h)
    ∙ sym (length-append (utf8_scalar x) (utf8 xs))
