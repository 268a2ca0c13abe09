-- ===== src/Canonical.antt =====
-- canonical.ts: `canonicalStringify`, the text of a JSON value in the order of RFC 8785.
pub mod Order
pub mod Reordered
use nemoir_web_runtime.Prelude.{List, [], ◌∷◌, ◌++◌, if◌then◌else◌}
use nemoir_web_runtime.Errors.{Result, ok, err, ◌>>=◌, ◌>>◌, other_error}
use nemoir_web_runtime.Js.Text.{JsString, codes, string_lt}
use nemoir_web_runtime.Js.Number.{Double, is_finite}
use nemoir_web_runtime.Js.Value.{
  Value, undefined, null, bool, num, str, arr, obj, host, fn, Items, nil, cons, Fields, end, field,
}
use nemoir_web_runtime.Unicode.{assert_unicode_scalar_string}

-- A field's key, and the text of its value or the error of making it.
abbrev pub Entry : Type 0
Entry = JsString × Result JsString

-- The default order of `sort()`: by the UTF-16 code units of the keys.
unfoldable pub insert_entry : Entry → List Entry → List Entry
insert_entry a [] = a ∷ []
insert_entry a (b ∷ es) =
    let later = insert_entry a es in if string_lt a.0 b.0 then a ∷ b ∷ es else b ∷ later

unfoldable pub sort_entries : List Entry → List Entry
unfolding insert_entry
sort_entries [] = []
sort_entries (a ∷ es) = insert_entry a (sort_entries es)

-- `texts.join(",")`
unfoldable pub join : List JsString → JsString
join [] = []
join (s ∷ []) = s
join (s ∷ t ∷ ts) = s ++ (44 ∷ join (t ∷ ts))

unfoldable pub assert_keys : List Entry → Result (Unit {0})
assert_keys [] = ok tt
assert_keys (e ∷ es) = assert_unicode_scalar_string e.0 >> assert_keys es

-- `JSON.stringify` of a string and of a number are `quoted` and `shown`.
module _ (quoted : JsString → JsString) (shown : Double → JsString) where
  unfoldable pub entry_texts : List Entry → Result (List JsString)
  entry_texts [] = ok []
  entry_texts (e ∷ es) =
      e.1 >>= λ text. entry_texts es >>= λ texts. ok ((quoted e.0 ++ (58 ∷ text)) ∷ texts)

  -- The branch of objects, from the fields with the texts of their values.
  unfoldable pub object_text : List Entry → Result JsString
  unfolding assert_keys entry_texts
  object_text entries =
      assert_keys entries >> entry_texts entries >>= λ texts. ok (123 ∷ (join texts ++ 125 ∷ []))

  unfoldable mutual
    unfolding sort_entries object_text

    pub canonical_stringify : Value → Result JsString
    canonical_stringify null = ok (codes "null")
    canonical_stringify (bool b) = ok (if b then codes "true" else codes "false")
    canonical_stringify (num n) = if is_finite n then ok (shown n) else err other_error
    canonical_stringify (str s) = assert_unicode_scalar_string s >> ok (quoted s)
    canonical_stringify (arr i xs) =
        canonical_items xs >>= λ texts. ok (91 ∷ (join texts ++ 93 ∷ []))
    canonical_stringify (obj i fs) = object_text (sort_entries (canonical_fields fs))
    canonical_stringify (host i fs) = object_text (sort_entries (canonical_fields fs))
    canonical_stringify undefined = err other_error
    canonical_stringify (fn i) = err other_error

    pub canonical_items : Items → Result (List JsString)
    canonical_items nil = ok []
    canonical_items (cons x xs) =
        canonical_stringify x >>= λ text. canonical_items xs >>= λ texts. ok (text ∷ texts)

    -- The texts of the values, before the keys are sorted.
    pub canonical_fields : Fields → List Entry
    canonical_fields end = []
    canonical_fields (field k x fs) = (k, canonical_stringify x) ∷ canonical_fields fs
