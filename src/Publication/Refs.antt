-- ===== src/Publication/Refs.antt =====
-- publication.ts: the references that stand for paths, over the records of a trace.
pub mod Numbering
pub mod Shown
use nemoir_web_runtime.Prelude.{
  ℕ, ◌≡◌, refl, subst, ap, inl, inr, Option, none, some, List, [], ◌∷◌, Bool-cases, Bool, true,
  false, if◌then◌else◌,
}
use nemoir_web_runtime.Errors.{ok, bind-eq-ok}
use nemoir_web_runtime.Js.Text.{JsString, codes, contains}
use nemoir_web_runtime.Js.Value.{Value, str, obj, host, fields}
use nemoir_web_runtime.Js.Dict.{Dict, get, lookup, insert}
use nemoir_web_runtime.Publication.Shape.{as_string_list, validate_record_shape}
use nemoir_web_runtime.Publication.Project.{
  ProjectionState, path_ref, recognised, hide_path, on_path, project_args, project_tool,
  project_arguments, finish_record, project_record, project_records,
}
use nemoir_web_runtime.Publication.Refs.Shown.{event_path, ShowsPath, Shows, record-Shows}
use nemoir_web_runtime.Publication.Refs.Numbering.{
  found-or_not, Numbered, injective, Grows, Grows-refl, Grows-trans, insert-Grows,
}

ok-same : {A : Type 0} {a b : A} → ok a ≡ ok b → a ≡ b
ok-same h = cc

module _ (decimal : ℕ → JsString) (copied : ℕ → ℕ) (listed : ℕ) where
  abbrev After : ProjectionState → Dict Value × List JsString × ProjectionState → Type 0
  After state r = Grows decimal state.path_refs r.2.path_refs

  path_ref-Grows :
      (path : JsString) (state : ProjectionState)
      → Grows decimal state.path_refs (path_ref decimal copied listed path state).1.path_refs
  unfolding path_ref
  path_ref-Grows path state = elim (found-or_not path state.path_refs) [
    | inl e ↦ rw (path_ref, e) (insert-Grows decimal path state.path_refs e)
    | inr (r, e) ↦ rw (path_ref, e) (Grows-refl decimal state.path_refs)
  ]

  path-Grows :
      (v : Value) (d : Dict Value) (state : ProjectionState) (pointers : List JsString)
      → After state (on_path decimal copied listed v d state pointers)
  unfolding on_path hide_path
  path-Grows (str path) d state pointers = branch state.keep_relative_paths
    where
      branch :
          (b : Bool)
          → After state (
              if b
              then (d, pointers, state)
              else hide_path decimal copied listed path d state pointers)
      branch true = Grows-refl decimal state.path_refs
      branch false = path_ref-Grows path state
  path-Grows v d state pointers = Grows-refl decimal state.path_refs

  tool-refs :
      (v : Value) (d : Dict Value) (state : ProjectionState) (pointers : List JsString)
      → (project_tool decimal copied listed v d state pointers).2.path_refs ≡ state.path_refs
  unfolding project_tool
  tool-refs (str n) d state pointers = elim (Bool-cases (contains state.allow_tool_names n)) [
    | inl a ↦ rw a refl
    | inr a ↦ rw a refl
  ]
  tool-refs v d state pointers = refl

  args-Grows :
      (v : Value) (d : Dict Value) (state : ProjectionState) (pointers : List JsString)
      → After state (project_arguments decimal copied listed v d state pointers)
  unfolding project_arguments project_args
  args-Grows (obj i fs) d state pointers = path-Grows _ (recognised (fields fs) []) state pointers
  args-Grows (host i fs) d state pointers = path-Grows _ (recognised (fields fs) []) state pointers
  args-Grows v d state pointers = Grows-refl decimal state.path_refs

  record-Grows :
      (event out : Dict Value) (state after : ProjectionState) (run_id : JsString)
      → project_record decimal copied listed event state run_id ≡ ok (out, after)
      → Grows decimal state.path_refs after.path_refs
  unfolding project_record finish_record
  record-Grows event out state after run_id h =
      let (pointers, read, h1) = bind-eq-ok (as_string_list _) _ h in
      let (more, shaped, h2) = bind-eq-ok (validate_record_shape event pointers) _ h1 in
      let started : Dict Value = insert (codes "run_id") (str run_id) event in
      let named =
        project_tool decimal copied listed (get (codes "tool_name") started) started state more in
      subst (λ (r : ProjectionState). Grows decimal state.path_refs r.path_refs)
        (ap (λ (r : Dict Value × ProjectionState). r.1) (ok-same h2))
        (subst
          (λ refs.
            Grows decimal refs
              (project_arguments decimal copied listed (get (codes "args") named.0) named.0 named.2
                named.1).2.path_refs)
          (tool-refs (get (codes "tool_name") started) started state more)
          (args-Grows (get (codes "args") named.0) named.0 named.2 named.1))

  records-Grows :
      (events outs : List (Dict Value)) (state after : ProjectionState) (run_id : JsString)
      → project_records decimal copied listed events state run_id ≡ ok (outs, after)
      → Grows decimal state.path_refs after.path_refs
  unfolding project_records
  records-Grows [] outs state after run_id h =
      subst (λ (r : ProjectionState). Grows decimal state.path_refs r.path_refs)
        (ap (λ (r : List (Dict Value) × ProjectionState). r.1) (ok-same h))
        (Grows-refl decimal state.path_refs)
  records-Grows (event ∷ events) outs state after run_id h =
      let ((out, state1), first, h1) =
        bind-eq-ok (project_record decimal copied listed event state run_id) _ h in
      let ((others, state2), rest, h2) =
        bind-eq-ok (project_records decimal copied listed events state1 run_id) _ h1 in
      Grows-trans decimal state.path_refs state1.path_refs after.path_refs
        (record-Grows event out state state1 run_id first)
        (subst (λ (r : ProjectionState). Grows decimal state1.path_refs r.path_refs)
          (ap (λ (r : List (Dict Value) × ProjectionState). r.1) (ok-same h2))
          (records-Grows events others state1 state2 run_id rest))

  -- Each record shows the reference for its event's path.
  abbrev pub AllShow : Dict JsString → List (Dict Value) → List (Dict Value) → Type 0
  AllShow refs [] [] = Unit
  AllShow refs (event ∷ events) (out ∷ outs) = Shows refs event out × AllShow refs events outs
  AllShow refs events outs = ⊥

  Shows-kept :
      (d later : Dict JsString) (path : Option JsString) (out : Dict Value)
      → Grows decimal d later
      → ShowsPath d path out
      → ShowsPath later path out
  Shows-kept d later none out g h = tt
  Shows-kept d later (some path) out g (ref, shown, found, kept, there) =
      (ref, shown, g.kept path ref found, kept, there)

  records-AllShow :
      (events outs : List (Dict Value)) (state after : ProjectionState) (run_id : JsString)
      → state.keep_relative_paths ≡ false
      → project_records decimal copied listed events state run_id ≡ ok (outs, after)
      → AllShow after.path_refs events outs
  unfolding project_records
  records-AllShow [] outs state after run_id keep h =
      subst (λ (r : List (Dict Value) × ProjectionState). AllShow r.1.path_refs [] r.0) (ok-same h)
        tt
  records-AllShow (event ∷ events) outs state after run_id keep h =
      let ((out, state1), first, h1) =
        bind-eq-ok (project_record decimal copied listed event state run_id) _ h in
      let ((others, state2), rest, h2) =
        bind-eq-ok (project_records decimal copied listed events state1 run_id) _ h1 in
      let (shows, kept) =
        record-Shows decimal copied listed event out state state1 run_id keep first in
      subst
        (λ (r : List (Dict Value) × ProjectionState). AllShow r.1.path_refs (event ∷ events) r.0)
        (ok-same h2)
        (
          Shows-kept state1.path_refs state2.path_refs (event_path event) out
              (records-Grows events others state1 state2 run_id rest) shows,
          records-AllShow events others state1 state2 run_id kept rest,
        )

  -- Where paths are hidden, the decimal texts of two numbers differ, and the references so far are
  -- numbered in order: once the records of a trace are projected, there is a reference for each path
  -- that the recognised arguments of a record have, and the projected record shows it; no two paths have the same reference; and
  -- a path that had a reference before has kept it.
  pub project_records-AllShow :
      ((m n : ℕ) → decimal m ≡ decimal n → m ≡ n)
      → (events outs : List (Dict Value)) (state after : ProjectionState) (run_id : JsString)
      → state.keep_relative_paths ≡ false
      → Numbered decimal 0 state.path_refs
      → project_records decimal copied listed events state run_id ≡ ok (outs, after)
      → AllShow after.path_refs events outs
        × ((p q r : JsString)
            → lookup p after.path_refs ≡ some r
            → lookup q after.path_refs ≡ some r
            → p ≡ q)
        × ((p r : JsString) → lookup p state.path_refs ≡ some r → lookup p after.path_refs ≡ some r)
  project_records-AllShow inj events outs state after run_id keep start h =
      let grown = records-Grows events outs state after run_id h in
      (
        records-AllShow events outs state after run_id keep h,
        λ p q r. injective decimal inj 0 after.path_refs p q r (grown.numbered start),
        grown.kept,
      )
