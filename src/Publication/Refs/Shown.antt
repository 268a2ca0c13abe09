-- ===== src/Publication/Refs/Shown.antt =====
-- publication.ts: the reference that a projected record shows in place of its path.
use nemoir_web_runtime.Prelude.{
  ℕ, ◌≡◌, refl, sym, ap, ◌∙◌, subst, inl, inr, Option, none, some, List, [], ◌∷◌, Bool, Bool-cases,
  true, false, if◌then◌else◌, arith,
}
use nemoir_web_runtime.Errors.{ok, bind-eq-ok}
use nemoir_web_runtime.Js.Text.{JsString, codes, contains, ◌==◌}
use nemoir_web_runtime.Js.Value.{Value, str, obj, host, fields}
use nemoir_web_runtime.Js.Dict.{Dict, get, lookup, insert, lookup-insert_self}
use nemoir_web_runtime.Publication.{record_of}
use nemoir_web_runtime.Publication.Shape.{as_string_list, validate_record_shape}
use nemoir_web_runtime.Publication.Project.{
  ProjectionState, path_ref, make_fields, recognised, hide_path, on_path, project_args,
  project_tool, project_arguments, finish_record, with_pointers, project_record,
}
use nemoir_web_runtime.Publication.Public.Parts.{
  fields-make_fields, get-insert_other, get-insert_same, get-delete_other, ok-same,
}
use nemoir_web_runtime.Publication.Refs.Numbering.{found-or_not}

abbrev text_of : Value → Option JsString
text_of (str s) = some s
text_of v = none

-- The path among the recognised arguments.
abbrev path_among : Option (Dict Value) → Option JsString
path_among none = none
path_among (some args) = text_of (get (codes "path") (recognised args []))

abbrev pub event_path : Dict Value → Option JsString
event_path event = path_among (record_of (get (codes "args") event))

-- Where there is a path, the references have one for it, and the record's arguments show it.
abbrev pub ShowsPath : Dict JsString → Option JsString → Dict Value → Type 0
ShowsPath refs none out = Unit
ShowsPath refs (some path) out =
    (ref : JsString) × (shown : Dict Value) × (lookup path refs ≡ some ref)
    × (record_of (get (codes "args") out) ≡ some shown)
    × (get (codes "path_ref") shown ≡ str ref)

abbrev pub Shows : Dict JsString → Dict Value → Dict Value → Type 0
Shows refs event out = ShowsPath refs (event_path event) out

text-str : (v : Value) (path : JsString) → text_of v ≡ some path → v ≡ str path
text-str (str s) path h = ground (arith, h)
text-str v path h = absurd (ground arith)

-- A path that an event has stands among its arguments.
path-args :
    (o : Option (Dict Value)) (path : JsString)
    → path_among o ≡ some path
    → (args : Dict Value) × (o ≡ some args) × (get (codes "path") (recognised args []) ≡ str path)
path-args none path h = absurd (ground arith)
path-args (some args) path h = (args, refl, text-str _ path h)

module _ (decimal : ℕ → JsString) (copied : ℕ → ℕ) (listed : ℕ) where
  path_ref-found :
      (path : JsString) (state : ProjectionState)
      → lookup path (path_ref decimal copied listed path state).1.path_refs
        ≡ some (path_ref decimal copied listed path state).0
  unfolding path_ref lookup
  path_ref-found path state = elim (found-or_not path state.path_refs) [
    | inl e ↦ rw (path_ref, e) (lookup-insert_self path _ state.path_refs)
    | inr (r, e) ↦ rw (path_ref, e) e
  ]

  -- A state in which paths are hidden stays one.
  path_ref-hides :
      (path : JsString) (state : ProjectionState)
      → (path_ref decimal copied listed path state).1.keep_relative_paths
        ≡ state.keep_relative_paths
  unfolding path_ref
  path_ref-hides path state = elim (found-or_not path state.path_refs) [
    | inl e ↦ rw (path_ref, e) refl
    | inr (r, e) ↦ rw (path_ref, e) refl
  ]

  path-hides :
      (v : Value) (d : Dict Value) (state : ProjectionState) (pointers : List JsString)
      → (on_path decimal copied listed v d state pointers).2.keep_relative_paths
        ≡ state.keep_relative_paths
  unfolding on_path hide_path
  path-hides (str path) d state pointers = branch state.keep_relative_paths
    where
      branch :
          (b : Bool)
          → (if b
              then (d, pointers, state)
              else hide_path decimal copied listed path d state pointers).2.keep_relative_paths
            ≡ state.keep_relative_paths
      branch true = refl
      branch false = path_ref-hides path state
  path-hides v d state pointers = refl

  args-hides :
      (v : Value) (d : Dict Value) (state : ProjectionState) (pointers : List JsString)
      → (project_arguments decimal copied listed v d state pointers).2.keep_relative_paths
        ≡ state.keep_relative_paths
  unfolding project_arguments project_args
  args-hides (obj i fs) d state pointers = path-hides _ (recognised (fields fs) []) state pointers
  args-hides (host i fs) d state pointers = path-hides _ (recognised (fields fs) []) state pointers
  args-hides v d state pointers = refl

  tool-same :
      (v : Value) (d : Dict Value) (state : ProjectionState) (pointers : List JsString)
      → ((project_tool decimal copied listed v d state pointers).2.keep_relative_paths
          ≡ state.keep_relative_paths)
        × (get (codes "args") (project_tool decimal copied listed v d state pointers).0
            ≡ get (codes "args") d)
  unfolding project_tool ◌==◌
  tool-same (str n) d state pointers = elim (Bool-cases (contains state.allow_tool_names n)) [
    | inl a ↦ rw a (refl, refl)
    | inr a ↦ rw a (refl, get-delete_other (codes "tool_name") (codes "args") d refl)
  ]
  tool-same v d state pointers = (refl, refl)

  -- A path that is hidden: the references have one for it, and the arguments show it.
  abbrev Hidden : JsString → Dict Value × List JsString × ProjectionState → Type 0
  Hidden path r =
      (ref : JsString) × (lookup path r.2.path_refs ≡ some ref)
      × (get (codes "path_ref") r.0 ≡ str ref)

  path-Hidden :
      (path : JsString) (v : Value) (d : Dict Value) (state : ProjectionState)
      (pointers : List JsString)
      → state.keep_relative_paths ≡ false
      → v ≡ str path
      → Hidden path (on_path decimal copied listed v d state pointers)
  unfolding on_path hide_path
  path-Hidden path v d state pointers keep e =
      subst (λ w. Hidden path (on_path decimal copied listed w d state pointers)) (sym e)
        (branch state.keep_relative_paths keep)
    where
      branch :
          (b : Bool)
          → b ≡ false
          → Hidden path (
              if b
              then (d, pointers, state)
              else hide_path decimal copied listed path d state pointers)
      branch true h = absurd (ground arith)
      branch false h = (_, path_ref-found path state, get-insert_same (codes "path_ref") _ _)

  -- The arguments of a projected record show the reference.
  abbrev Shown : JsString → Dict Value × List JsString × ProjectionState → Type 0
  Shown path r =
      (ref : JsString) × (shown : Dict Value) × (lookup path r.2.path_refs ≡ some ref)
      × (record_of (get (codes "args") r.0) ≡ some shown)
      × (get (codes "path_ref") shown ≡ str ref)

  made-Shown :
      (path : JsString) (i : ℕ) (d : Dict Value) (r : Dict Value × List JsString × ProjectionState)
      → Hidden path r
      → Shown path (insert (codes "args") (obj i (make_fields r.0)) d, r.1, r.2)
  made-Shown path i d r (ref, found, there) = (
    ref,
    r.0,
    found,
    ap record_of (get-insert_same (codes "args") _ d) ∙ ap some (fields-make_fields r.0),
    there,
  )

  some-same : {A : Type 0} {a b : A} → some a ≡ some b → a ≡ b
  some-same h = cc

  args-Shown :
      (v : Value) (d : Dict Value) (state : ProjectionState) (pointers : List JsString)
      (args : Dict Value) (path : JsString)
      → state.keep_relative_paths ≡ false
      → record_of v ≡ some args
      → get (codes "path") (recognised args []) ≡ str path
      → Shown path (project_arguments decimal copied listed v d state pointers)
  unfolding project_arguments project_args
  args-Shown (obj i fs) d state pointers args path keep e there =
      made-Shown path (copied i) d (project_args decimal copied listed (fields fs) state pointers) (
        path-Hidden path _ _ state pointers keep
          (ap (λ (a : Dict Value). get (codes "path") (recognised a [])) (some-same e) ∙ there))
  args-Shown (host i fs) d state pointers args path keep e there =
      made-Shown path (copied i) d (project_args decimal copied listed (fields fs) state pointers) (
        path-Hidden path _ _ state pointers keep
          (ap (λ (a : Dict Value). get (codes "path") (recognised a [])) (some-same e) ∙ there))
  args-Shown v d state pointers args path keep e there = absurd (ground arith)

  pointers-args :
      (pointers : List JsString) (d : Dict Value)
      → get (codes "args") (with_pointers decimal copied listed pointers d) ≡ get (codes "args") d
  unfolding ◌==◌
  pointers-args [] d = refl
  pointers-args (p ∷ ps) d = get-insert_other (codes "redacted_fields") (codes "args") _ d refl

  -- The arguments of a record, as its event had them, and its reference once it is finished.
  shows_path :
      (event d : Dict Value) (state : ProjectionState) (pointers : List JsString)
      → state.keep_relative_paths ≡ false
      → get (codes "args") d ≡ get (codes "args") event
      → (o : Option JsString) → event_path event ≡ o
      → ShowsPath
          (project_arguments decimal copied listed
            (get (codes "args") d)
            d
            state
            pointers).2.path_refs
          o
          (with_pointers decimal copied listed
            (project_arguments decimal copied listed (get (codes "args") d) d state pointers).1
            (project_arguments decimal copied listed (get (codes "args") d) d state pointers).0)
  shows_path event d state pointers keep same none h = tt
  shows_path event d state pointers keep same (some path) h =
      let (args, e, there) = path-args (record_of (get (codes "args") event)) path h in
      let (ref, shown, found, kept, shows) =
        args-Shown (get (codes "args") d) d state pointers args path keep (ap record_of same ∙ e)
          there in
      let argued =
        project_arguments decimal copied listed (get (codes "args") d) d state pointers in
      (ref, shown, found, ap record_of (pointers-args argued.1 argued.0) ∙ kept, shows)

  -- Of a record that is projected where paths are hidden.
  pub record-Shows :
      (event out : Dict Value) (state after : ProjectionState) (run_id : JsString)
      → state.keep_relative_paths ≡ false
      → project_record decimal copied listed event state run_id ≡ ok (out, after)
      → Shows after.path_refs event out × (after.keep_relative_paths ≡ false)
  unfolding project_record finish_record ◌==◌
  record-Shows event out state after run_id keep h =
      let (pointers, read, h1) = bind-eq-ok (as_string_list _) _ h in
      let (more, shaped, h2) = bind-eq-ok (validate_record_shape event pointers) _ h1 in
      let started : Dict Value = insert (codes "run_id") (str run_id) event in
      let named =
        project_tool decimal copied listed (get (codes "tool_name") started) started state more in
      let same = tool-same (get (codes "tool_name") started) started state more in
      let argued =
        project_arguments decimal copied listed (get (codes "args") named.0) named.0 named.2
          named.1 in
      let hidden : named.2.keep_relative_paths ≡ false = same.0 ∙ keep in
      let made = ok-same h2 in
      subst
        (λ (r : Dict Value × ProjectionState).
          Shows r.1.path_refs event r.0 × (r.1.keep_relative_paths ≡ false))
        made
        (
          shows_path event named.0 named.2 named.1 hidden
              (same.1 ∙ get-insert_other (codes "run_id") (codes "args") _ event refl)
              (event_path event) refl,
          args-hides (get (codes "args") named.0) named.0 named.2 named.1 ∙ hidden,
        )
