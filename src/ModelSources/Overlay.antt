-- ===== src/ModelSources/Overlay.antt =====
-- model-sources.ts: which record an id finds after the overlay.
use nemoir_web_runtime.Prelude.{
  ◌≡◌, refl, sym, ap, ◌∙◌, Bool, true, false, Option, none, some, List, [], ◌∷◌, ◌++◌, map, arith,
  if◌then◌else◌, Bool-cases, inl, inr,
}
use nemoir_web_runtime.Js.Text.{JsString, ◌==◌, eq_iff, contains}
use nemoir_web_runtime.ModelSources.{
  ModelRecord, MirroredModelRecord, ModelSourceProfile, to_mirrored_model_record, Merging, id_of,
  push_new, overlay_models, overlay_profiles, overlay_model_records,
}

-- The first record of an id.
abbrev pub find_record : JsString → List ModelRecord → Option ModelRecord
find_record id [] = none
find_record id (r ∷ rs) = if r.model_id == id then some r else find_record id rs

abbrev or_else : Option ModelRecord → Option ModelRecord → Option ModelRecord
or_else none o = o
or_else (some r) o = some r

abbrev is_some : Option ModelRecord → Bool
is_some none = false
is_some (some r) = true

-- All mirrored records, in the order of the profiles.
abbrev pub mirrored : List ModelSourceProfile → List ModelRecord
mirrored [] = []
mirrored (p ∷ ps) =
    map (λ (m : MirroredModelRecord). to_mirrored_model_record m p) p.models ++ mirrored ps

find-append :
    (id : JsString) (xs ys : List ModelRecord)
    → find_record id (xs ++ ys) ≡ or_else (find_record id xs) (find_record id ys)
find-append id [] ys = refl
find-append id (x ∷ xs) ys = ground (arith, find-append id xs ys)

or_else_assoc : (a b c : Option ModelRecord) → or_else (or_else a b) c ≡ or_else a (or_else b c)
or_else_assoc none b c = refl
or_else_assoc (some r) b c = refl

-- The set holds the ids of the list.
abbrev IsTracked : Merging → Type 0
IsTracked m = (id : JsString) → contains m.seen id ≡ is_some (find_record id m.merged)

ids-contains :
    (rs : List ModelRecord) (id : JsString)
    → contains (map id_of rs) id ≡ is_some (find_record id rs)
unfolding contains
ids-contains [] id = refl
ids-contains (r ∷ rs) id = ground (arith, ids-contains rs id)

push-IsTracked : (r : ModelRecord) (m : Merging) → IsTracked m → IsTracked (push_new r m)
unfolding push_new contains
push-IsTracked r m tracked id = elim (Bool-cases (contains m.seen r.model_id)) [
  | inl old ↦ rw old (tracked id)
  | inr new ↦ rw new (ground (arith, tracked id, find-append id m.merged (r ∷ [])))
]

push-find :
    (r : ModelRecord) (m : Merging) (id : JsString)
    → IsTracked m
    → find_record id (push_new r m).merged
      ≡ or_else (find_record id m.merged) (find_record id (r ∷ []))
unfolding push_new
push-find r m id tracked = elim (Bool-cases (contains m.seen r.model_id)) [
  | inl old ↦ rw old (ground (arith, tracked id, eq_iff r.model_id id))
  | inr new ↦ rw new (find-append id m.merged (r ∷ []))
]

models-lem :
    (p : ModelSourceProfile) (ms : List MirroredModelRecord) (m : Merging)
    → IsTracked m
    → IsTracked (overlay_models p ms m)
      × ((id : JsString)
          → find_record id (overlay_models p ms m).merged
            ≡ or_else (find_record id m.merged) (
                find_record id
                  (map (λ (x : MirroredModelRecord). to_mirrored_model_record x p) ms)))
unfolding overlay_models
models-lem p [] m tracked = (tracked, λ id. ground arith)
models-lem p (x ∷ xs) m tracked =
    let r = to_mirrored_model_record x p in
    let (tracked', found) = models-lem p xs (push_new r m) (push-IsTracked r m tracked) in
    (tracked', λ id. ground (arith, found id, push-find r m id tracked))

profiles-find :
    (ps : List ModelSourceProfile) (m : Merging) (id : JsString)
    → IsTracked m
    → find_record id (overlay_profiles ps m).merged
      ≡ or_else (find_record id m.merged) (find_record id (mirrored ps))
unfolding overlay_profiles
profiles-find [] m id tracked = ground arith
profiles-find (p ∷ ps) m id tracked =
    let (tracked', found) = models-lem p p.models m tracked in
    profiles-find ps (overlay_models p p.models m) id tracked'
    ∙ ap (λ (o : Option ModelRecord). or_else o (find_record id (mirrored ps))) (found id)
    ∙ or_else_assoc (find_record id m.merged) _ _
    ∙ ap (or_else (find_record id m.merged)) (sym (find-append id _ (mirrored ps)))

-- After the overlay an id finds the first record that has it, in the order of the prebuilt records and
-- then the profiles: a prebuilt record is never replaced, and of mirrored records with one id the first
-- is kept.
pub overlay_model_records-find :
    (prebuilt : List ModelRecord) (profiles : List ModelSourceProfile) (id : JsString)
    → find_record id (overlay_model_records prebuilt profiles)
      ≡ find_record id (prebuilt ++ mirrored profiles)
unfolding overlay_model_records
overlay_model_records-find prebuilt profiles id =
    profiles-find profiles _ id (ids-contains prebuilt)
    ∙ sym (find-append id prebuilt (mirrored profiles))
