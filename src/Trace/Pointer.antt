-- ===== src/Trace/Pointer.antt =====
-- trace.ts: `escapePointerSegment`, `unescapePointerSegment` and the segments of a pointer.
pub mod Segments
use nemoir_web_runtime.Prelude.{ℕ, ◌&&◌, List, [], ◌∷◌, ◌++◌, map, if◌then◌else◌, eqb}
use nemoir_web_runtime.Js.Text.{JsString}

-- `s.replace(/c/g, to)` for one code unit
unfoldable pub replace_unit : ℕ → JsString → JsString → JsString
replace_unit c to [] = []
replace_unit c to (x ∷ s) =
    let rest = replace_unit c to s in if eqb x c then to ++ rest else x ∷ rest

-- `s.replace(/ab/g, to)` for two code units, and one in their place
unfoldable pub replace_pair : ℕ → ℕ → ℕ → JsString → JsString
replace_pair a b to [] = []
replace_pair a b to (x ∷ []) = x ∷ []
replace_pair a b to (x ∷ y ∷ s) =
    let after_pair = replace_pair a b to s in
    let after_unit = replace_pair a b to (y ∷ s) in
    if eqb x a && eqb y b then to ∷ after_pair else x ∷ after_unit

abbrev pub tilde : ℕ
tilde = 126

abbrev pub slash : ℕ
slash = 47

abbrev pub digit_zero : ℕ
digit_zero = 48

abbrev pub digit_one : ℕ
digit_one = 49

unfoldable pub escape_pointer_segment : JsString → JsString
unfolding replace_unit
escape_pointer_segment segment =
    replace_unit slash (tilde ∷ digit_one ∷ [])
      (replace_unit tilde (tilde ∷ digit_zero ∷ []) segment)

unfoldable pub unescape_pointer_segment : JsString → JsString
unfolding replace_pair
unescape_pointer_segment segment =
    replace_pair tilde digit_zero tilde (replace_pair tilde digit_one slash segment)

-- `${pointer}/${escapePointerSegment(key)}`
unfoldable pub child_pointer : JsString → JsString → JsString
unfolding escape_pointer_segment
child_pointer pointer key = pointer ++ slash ∷ escape_pointer_segment key

-- `pointer.split("/")`: the first part, and the others, which `slice(1)` keeps
unfoldable pub split_slashes : JsString → JsString × List JsString
split_slashes [] = ([], [])
split_slashes (c ∷ s) =
    let (first, others) = split_slashes s in
    if eqb c slash then ([], first ∷ others) else (c ∷ first, others)

-- The keys that `nodeAtPointer` follows.
unfoldable pub pointer_keys : JsString → List JsString
unfolding split_slashes unescape_pointer_segment
pointer_keys pointer = map unescape_pointer_segment (split_slashes pointer).1
