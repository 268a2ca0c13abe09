-- ===== src/Unicode.antt =====
-- Well-formed UTF-16: `hasLoneSurrogate` of runtime.ts and `assertUnicodeScalarString` of
-- canonical.ts.
pub mod Scalars
use nemoir_web_runtime.Prelude.{ℕ, Bool, true, false, not, ◌&&◌, ◌||◌, [], ◌∷◌, leb, if◌then◌else◌}
use nemoir_web_runtime.Errors.{Result, ok, err, other_error}
use nemoir_web_runtime.Js.Text.{JsString}

-- `unit >= 0xd800 && unit <= 0xdbff`
unfoldable pub is_lead : ℕ → Bool
is_lead c = leb 0xd800 c && leb c 0xdbff

-- `unit >= 0xdc00 && unit <= 0xdfff`
unfoldable pub is_trail : ℕ → Bool
is_trail c = leb 0xdc00 c && leb c 0xdfff

-- A lead surrogate at the end of the string has no trail.
unfoldable pub has_lone_surrogate : JsString → Bool
has_lone_surrogate [] = false
has_lone_surrogate (c ∷ []) = is_lead c || is_trail c
has_lone_surrogate (c ∷ d ∷ s) =
    let after_pair = has_lone_surrogate s in
    let after_unit = has_lone_surrogate (d ∷ s) in
    if is_lead c
    then (if not (is_trail d) then true else after_pair)
    else if is_trail c
    then true
    else after_unit

-- The `TypeError`s of canonical.ts are `other_error`s. Past the end `charCodeAt` is NaN, which is
-- no trail surrogate.
unfoldable pub assert_unicode_scalar_string : JsString → Result (Unit {0})
assert_unicode_scalar_string [] = ok tt
assert_unicode_scalar_string (c ∷ []) =
    if is_lead c then err other_error else if is_trail c then err other_error else ok tt
assert_unicode_scalar_string (c ∷ d ∷ s) =
    let after_pair = assert_unicode_scalar_string s in
    let after_unit = assert_unicode_scalar_string (d ∷ s) in
    if is_lead c
    then (if is_trail d then after_pair else err other_error)
    else if is_trail c
    then err other_error
    else after_unit
