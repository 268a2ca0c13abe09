-- ===== src/Examples/Texts.antt =====
-- Texts: a source with characters of every size, and keys with a slash and a tilde.
use nemoir_web_runtime.Prelude.{◌≡◌, inl, inr, [], ◌∷◌, arith}
use nemoir_web_runtime.Js.Text.{codes}
use nemoir_web_runtime.Unicode.Scalars.{encode}
use nemoir_web_runtime.Sandbox.{utf8_byte_length}
use nemoir_web_runtime.Sandbox.Utf8.{utf8_byte_length-encode}
use nemoir_web_runtime.Trace.Pointer.{pointer_keys}
use nemoir_web_runtime.Trace.Pointer.Segments.{pointer_keys-pointer_from}

utf8_byte_length-encode_example :
    utf8_byte_length (encode (0x61 ∷ 0xe9 ∷ 0x20ac ∷ 0x1f600 ∷ [])) ≡ 10
unfolding utf8_byte_length nemoir_web_runtime.Unicode.is_lead nemoir_web_runtime.Unicode.is_trail
utf8_byte_length-encode_example = utf8_byte_length-encode (0x61 ∷ 0xe9 ∷ 0x20ac ∷ 0x1f600 ∷ []) (
  inl (omega arith),
  (inl (omega arith), (inl (omega arith), (inr (omega arith, omega arith), tt))),
)

pointer_keys-pointer_from_example : pointer_keys (codes "/a~1b/~0") ≡ codes "a/b" ∷ codes "~" ∷ []
unfolding nemoir_web_runtime.Trace.Pointer.child_pointer
pointer_keys-pointer_from_example = pointer_keys-pointer_from (codes "a/b" ∷ codes "~" ∷ [])
