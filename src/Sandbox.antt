-- ===== src/Sandbox.antt =====
-- sandbox.ts: the size of a source in UTF-8.
pub mod Utf8
use nemoir_web_runtime.Prelude.{ℕ, ◌+◌, [], ◌∷◌, ltb, if◌then◌else◌}
use nemoir_web_runtime.Js.Text.{JsString}
use nemoir_web_runtime.Unicode.{is_lead, is_trail}

-- Past the end `charCodeAt` is NaN, which is no trail surrogate.
unfoldable pub utf8_byte_length : JsString → ℕ
utf8_byte_length [] = 0
utf8_byte_length (code ∷ []) = if ltb code 0x80 then 1 else if ltb code 0x800 then 2 else 3
utf8_byte_length (code ∷ next ∷ s) =
    let after_pair = utf8_byte_length s in
    let after_unit = utf8_byte_length (next ∷ s) in
    if ltb code 0x80
    then 1 + after_unit
    else if ltb code 0x800
    then 2 + after_unit
    else if is_lead code
    then (if is_trail next then 4 + after_pair else 3 + after_unit)
    else 3 + after_unit
