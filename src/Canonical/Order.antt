-- ===== src/Canonical/Order.antt =====
-- canonical.ts: the order of keys, and the sorting of the fields of an object.
use nemoir_web_runtime.Prelude.{◌≡◌, refl, true, false, List, [], ◌∷◌, arith}
use nemoir_web_runtime.Js.Text.{JsString, string_lt}
use nemoir_web_runtime.Canonical.{Entry, insert_entry}

pub string_lt-asymm : (s t : JsString) → string_lt s t ≡ true → string_lt t s ≡ false
unfolding string_lt
string_lt-asymm s [] h = absurd (ground arith)
string_lt-asymm [] (y ∷ t) h = refl
string_lt-asymm (x ∷ s) (y ∷ t) h = ground (arith, string_lt-asymm s t)

pub string_lt_trans :
    (r s t : JsString) → string_lt r s ≡ true → string_lt s t ≡ true → string_lt r t ≡ true
unfolding string_lt
string_lt_trans r [] t h k = absurd (ground arith)
string_lt_trans r (y ∷ s) [] h k = absurd (ground arith)
string_lt_trans [] (y ∷ s) (z ∷ t) h k = refl
string_lt_trans (x ∷ r) (y ∷ s) (z ∷ t) h k = ground (arith, string_lt_trans r s t)

pub string_lt-total : (s t : JsString) → string_lt s t ≡ false → string_lt t s ≡ false → s ≡ t
unfolding string_lt
string_lt-total [] [] h k = refl
string_lt-total [] (y ∷ t) h k = absurd (ground arith)
string_lt-total (x ∷ s) [] h k = absurd (ground arith)
string_lt-total (x ∷ s) (y ∷ t) h k = ground (arith, string_lt-total s t)

-- Entries of different keys may be inserted in either order.
pub insert_entry_comm :
    (a b : Entry) (es : List Entry)
    → (a.0 ≡ b.0 → ⊥)
    → insert_entry a (insert_entry b es) ≡ insert_entry b (insert_entry a es)
unfolding insert_entry
insert_entry_comm a b [] h = ground (arith, string_lt-asymm a.0 b.0, string_lt-total a.0 b.0)
insert_entry_comm a b (c ∷ es) h = ground (
  arith,
  insert_entry_comm a b es h,
  string_lt-asymm a.0 b.0,
  string_lt-total a.0 b.0,
  string_lt_trans a.0 b.0 c.0,
  string_lt_trans b.0 a.0 c.0,
)
