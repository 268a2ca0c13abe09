-- ===== src/Js/Group.antt =====
-- A `Map` from keys to lists, filled by `push`, as the program groups tools by capability and
-- policies by trigger.
use nemoir_web_runtime.Prelude.{
  ◌≡◌, refl, none, some, List, [], ◌∷◌, ◌++◌, arith, if◌then◌else◌, append_assoc, append-nil, sym,
  ◌∙◌,
}
use nemoir_web_runtime.Js.Text.{JsString, ◌==◌, eq_iff}
use nemoir_web_runtime.Js.Dict.{Dict, lookup, insert, lookup-insert}

module _ {ℓ} {A : Type ℓ} where
  -- `map.get(k) ?? []`
  unfoldable pub get_list : JsString → Dict (List A) → List A
  get_list k d = elim (lookup k d) [ none ↦ [] | some xs ↦ xs ]

  -- `map.get(k)`, an empty list put there first where there is none, then `push(x)`
  unfoldable pub push_under : JsString → A → Dict (List A) → Dict (List A)
  unfolding get_list
  push_under k x d = insert k (get_list k d ++ x ∷ []) d

  -- The elements under a key, in order.
  unfoldable pub under : (A → JsString) → JsString → List A → List A
  under key k [] = []
  under key k (x ∷ xs) = let rest = under key k xs in if key x == k then x ∷ rest else rest

  unfoldable pub group_onto : (A → JsString) → List A → Dict (List A) → Dict (List A)
  group_onto key [] d = d
  group_onto key (x ∷ xs) d = group_onto key xs (push_under (key x) x d)

  get_list-push :
      (k j : JsString) (x : A) (d : Dict (List A))
      → get_list j (push_under k x d) ≡ (if k == j then get_list j d ++ x ∷ [] else get_list j d)
  unfolding get_list push_under
  get_list-push k j x d = ground (arith, eq_iff k j, lookup-insert k j (get_list k d ++ x ∷ []) d)

  pub get_list-group_onto :
      (key : A → JsString) (k : JsString) (xs : List A) (d : Dict (List A))
      → get_list k (group_onto key xs d) ≡ get_list k d ++ under key k xs
  unfolding group_onto under
  get_list-group_onto key k [] d = sym (append-nil _)
  get_list-group_onto key k (x ∷ xs) d = ground (
    arith,
    get_list-group_onto key k xs (push_under (key x) x d),
    get_list-push (key x) k x d,
    append_assoc (get_list k d) (x ∷ []) (under key k xs),
  )

  -- Grouping files every element under its key, in order.
  pub get_list-group :
      (key : A → JsString) (k : JsString) (xs : List A)
      → get_list k (group_onto key xs []) ≡ under key k xs
  get_list-group key k xs = get_list-group_onto key k xs [] ∙ (unfold get_list lookup in refl)
