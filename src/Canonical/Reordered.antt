-- ===== src/Canonical/Reordered.antt =====
-- canonical.ts: values that differ in the order of their fields and in the identities of their arrays
-- and objects.
use nemoir_web_runtime.Prelude.{ℕ, ◌≡◌, refl, ap, ◌∙◌}
use nemoir_web_runtime.Js.Text.{JsString}
use nemoir_web_runtime.Js.Number.{Double}
use nemoir_web_runtime.Js.Value.{Value, arr, obj, Items, nil, cons, Fields, end, field}
use nemoir_web_runtime.Canonical.{
  insert_entry, sort_entries, object_text, canonical_stringify, canonical_items, canonical_fields,
}
use nemoir_web_runtime.Canonical.Order.{insert_entry_comm}

mutual
  pub data Reordered : Value → Value → Type 0 where
    same : {v : Value} → Reordered v v
    arrays : {i j : ℕ} {xs ys : Items} → ReorderedItems xs ys → Reordered (arr i xs) (arr j ys)
    objects : {i j : ℕ} {fs gs : Fields} → ReorderedFields fs gs → Reordered (obj i fs) (obj j gs)

  pub data ReorderedItems : Items → Items → Type 0 where
    none_left : ReorderedItems nil nil
    item :
        {v w : Value} {xs ys : Items}
        → Reordered v w
        → ReorderedItems xs ys
        → ReorderedItems (cons v xs) (cons w ys)

  pub data ReorderedFields : Fields → Fields → Type 0 where
    no_fields : ReorderedFields end end
    under_key :
        {k : JsString} {v w : Value} {fs gs : Fields}
        → Reordered v w
        → ReorderedFields fs gs
        → ReorderedFields (field k v fs) (field k w gs)
    -- two neighbours of different keys
    swapped :
        {j k : JsString} {v w : Value} {fs : Fields}
        → (j ≡ k → ⊥)
        → ReorderedFields (field j v (field k w fs)) (field k w (field j v fs))
    and_then :
        {fs gs hs : Fields} → ReorderedFields fs gs → ReorderedFields gs hs → ReorderedFields fs hs

module _ (quoted : JsString → JsString) (shown : Double → JsString) where
  mutual
    unfolding canonical_stringify

    values_same :
        {v w : Value}
        → Reordered v w
        → canonical_stringify quoted shown v ≡ canonical_stringify quoted shown w
    values_same same = refl
    values_same (arrays h) = rw (items_same h) refl
    values_same (objects h) = ap (object_text quoted shown) (fields_same h)

    items_same :
        {xs ys : Items}
        → ReorderedItems xs ys
        → canonical_items quoted shown xs ≡ canonical_items quoted shown ys
    items_same none_left = refl
    items_same (item h hs) = rw (values_same h, items_same hs) refl

    fields_same :
        {fs gs : Fields}
        → ReorderedFields fs gs
        → sort_entries (canonical_fields quoted shown fs)
          ≡ sort_entries (canonical_fields quoted shown gs)
    fields_same no_fields = refl
    fields_same (under_key {k} h hs) =
        rw (values_same h) (ap (insert_entry (k, _)) (fields_same hs))
    fields_same (swapped d) = insert_entry_comm _ _ _ d
    fields_same (and_then h k) = fields_same h ∙ fields_same k

  -- Values that differ in the order of fields of different keys, at any depth, and in identities have
  -- the same canonical text, or both have none.
  pub canonical_stringify-Reordered :
      {v w : Value}
      → Reordered v w
      → canonical_stringify quoted shown v ≡ canonical_stringify quoted shown w
  canonical_stringify-Reordered h = values_same h
