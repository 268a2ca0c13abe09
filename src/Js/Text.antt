-- ===== src/Js/Text.antt =====
-- JavaScript strings: sequences of UTF-16 code units, with the methods that the program uses.
use Prim.Native.Char.{code}
use nemoir_web_runtime.Prelude.{
  ℕ, String, ◌≡◌, refl, ◌↔◌, Bool, true, false, ◌&&◌, ◌||◌, List, [], ◌∷◌, arith, eqb, eqb_iff, ltb,
}

-- The code units of a string.
abbrev pub JsString : Type 0
JsString = List ℕ

-- The code units of an ASCII literal.
abbrev pub codes : String → JsString
codes String.[] = []
codes (String.◌∷◌ c s) = code c ∷ codes s

-- `a === b` on strings.
infix 50 ◌==◌
unfoldable pub ◌==◌ : JsString → JsString → Bool
[] == [] = true
[] == (y ∷ t) = false
(x ∷ s) == [] = false
(x ∷ s) == (y ∷ t) = eqb x y && (s == t)

pub eq_sound : (s t : JsString) → (s == t) ≡ true → s ≡ t
unfolding ◌==◌
eq_sound [] [] h = refl
eq_sound [] (y ∷ t) h = ground arith
eq_sound (x ∷ s) [] h = ground arith
eq_sound (x ∷ s) (y ∷ t) h = ground (arith, eq_sound s t, eqb_iff x y)

pub eq_refl : (s : JsString) → (s == s) ≡ true
unfolding ◌==◌
eq_refl [] = refl
eq_refl (x ∷ s) = ground (arith, eq_refl s)

pub eq_iff : (s t : JsString) → ((s == t) ≡ true) ↔ (s ≡ t)
eq_iff s t = (eq_sound s t, λ e. rw e (eq_refl t))

-- `s.startsWith(t)`
unfoldable pub starts_with : JsString → JsString → Bool
starts_with s [] = true
starts_with [] (y ∷ t) = false
starts_with (x ∷ s) (y ∷ t) = eqb x y && starts_with s t

-- `s.includes(t)`: `t` stands at some position of `s`
unfoldable pub includes : JsString → JsString → Bool
includes [] t = starts_with [] t
includes (x ∷ s) t = starts_with (x ∷ s) t || includes s t

-- `s.endsWith(t)`: a suffix of `s` is `t`
unfoldable pub ends_with : JsString → JsString → Bool
ends_with [] t = [] == t
ends_with (x ∷ s) t = ((x ∷ s) == t) || ends_with s t

-- `s < t` on strings: lexicographic by code units
unfoldable pub string_lt : JsString → JsString → Bool
string_lt s [] = false
string_lt [] (y ∷ t) = true
string_lt (x ∷ s) (y ∷ t) = ltb x y || (eqb x y && string_lt s t)

-- `strings.includes(s)`, `set.has(s)` over strings
unfoldable pub contains : List JsString → JsString → Bool
contains [] a = false
contains (x ∷ xs) a = (x == a) || contains xs a
