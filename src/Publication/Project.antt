-- ===== src/Publication/Project.antt =====
-- publication.ts: `ProjectionState`, `projectArgs` and `projectRecord`.
use nemoir_web_runtime.Prelude.{
  ℕ, ◌+◌, Bool, false, none, some, List, [], ◌∷◌, ◌++◌, length, if◌then◌else◌,
}
use nemoir_web_runtime.Errors.{Result, ok, ◌>>=◌}
use nemoir_web_runtime.Js.Text.{JsString, codes, ◌==◌, contains, string_lt}
use nemoir_web_runtime.Js.Value.{
  Value, undefined, null, str, arr, obj, host, Items, nil, cons, Fields, end, field, fields,
}
use nemoir_web_runtime.Js.Dict.{Dict, get, has, lookup, insert}
use nemoir_web_runtime.Publication.{public_args_keys}
use nemoir_web_runtime.Publication.Shape.{as_string_list, validate_record_shape}

pub record ProjectionState : Type 0 where
  pub allow_tool_names : List JsString
  pub keep_relative_paths : Bool
  pub path_refs : Dict JsString
  pub tool_names_removed : ℕ
  pub tool_names_retained : ℕ
  pub paths_opaque : ℕ
  pub redaction_markers : ℕ
  pub annotations : ℕ

-- `delete d[key]`
unfoldable pub delete {ℓ} : {V : Type ℓ} → JsString → Dict V → Dict V
delete key [] = []
delete key ((k, v) ∷ d) = let rest = delete key d in if k == key then rest else (k, v) ∷ rest

unfoldable pub make_fields : Dict Value → Fields
make_fields [] = end
make_fields ((k, v) ∷ d) = field k v (make_fields d)

unfoldable pub make_items : List JsString → Items
make_items [] = nil
make_items (s ∷ ss) = cons (str s) (make_items ss)

-- `[...new Set(strings)].sort()`
unfoldable pub insert_once : JsString → List JsString → List JsString
insert_once s [] = s ∷ []
insert_once s (t ∷ ts) =
    let later = insert_once s ts in
    if s == t then t ∷ ts else if string_lt s t then s ∷ t ∷ ts else t ∷ later

unfoldable pub sorted_set : List JsString → List JsString
unfolding insert_once
sorted_set [] = []
sorted_set (s ∷ ss) = insert_once s (sorted_set ss)

unfoldable mutual
  pub count_markers : Value → ℕ
  count_markers (arr i xs) = count_items xs
  count_markers (obj i fs) = if has (codes "$redacted") (fields fs) then 1 else count_fields fs
  count_markers (host i fs) = if has (codes "$redacted") (fields fs) then 1 else count_fields fs
  count_markers v = 0

  pub count_items : Items → ℕ
  count_items nil = 0
  count_items (cons x xs) = count_markers x + count_items xs

  pub count_fields : Fields → ℕ
  count_fields end = 0
  count_fields (field k x fs) = count_markers x + count_fields fs

-- The loop that keeps the recognised arguments.
unfoldable pub recognised : Dict Value → Dict Value → Dict Value
recognised [] projected = projected
recognised ((key, value) ∷ args) projected =
    recognised args
      (if contains public_args_keys key then insert key value projected else projected)

-- `decimal n` is the text of the number `n`; `copied i` and `listed` are the identities of the copy of
-- an object and of a new array.
module _ (decimal : ℕ → JsString) (copied : ℕ → ℕ) (listed : ℕ) where
  -- `path-${n}`
  abbrev pub path_name : ℕ → JsString
  path_name n = codes "path-" ++ decimal n

  unfoldable pub path_ref : JsString → ProjectionState → JsString × ProjectionState
  path_ref path state = elim (lookup path state.path_refs) [
    | some existing ↦ (existing, state)
    | none ↦
        let ref = path_name (length state.path_refs + 1) in
        (ref, record state { path_refs = insert path ref state.path_refs })
  ]

  -- The branch of a path that becomes opaque.
  unfoldable pub hide_path :
      JsString
      → Dict Value
      → ProjectionState
      → List JsString
      → Dict Value × List JsString × ProjectionState
  unfolding path_ref delete
  hide_path path projected state redacted =
      let (ref, state') = path_ref path state in
      (
        insert (codes "path_ref") (str ref) (delete (codes "path") projected),
        redacted ++ codes "/args/path" ∷ [],
        record state' { paths_opaque = state'.paths_opaque + 1 },
      )

  unfoldable pub on_path :
      Value
      → Dict Value
      → ProjectionState
      → List JsString
      → Dict Value × List JsString × ProjectionState
  unfolding hide_path
  on_path (str path) projected state redacted =
      if state.keep_relative_paths
      then (projected, redacted, state)
      else hide_path path projected state redacted
  on_path v projected state redacted = (projected, redacted, state)

  unfoldable pub project_args :
      Dict Value → ProjectionState → List JsString → Dict Value × List JsString × ProjectionState
  unfolding recognised on_path
  project_args args state redacted =
      let projected = recognised args [] in
      on_path (get (codes "path") projected) projected state redacted

  -- The lines on `tool_name`.
  unfoldable pub project_tool :
      Value
      → Dict Value
      → ProjectionState
      → List JsString
      → Dict Value × List JsString × ProjectionState
  unfolding delete
  project_tool (str name) projected state pointers =
      if contains state.allow_tool_names name
      then (
        projected,
        pointers,
        record state { tool_names_retained = state.tool_names_retained + 1 },
      )
      else (
        delete (codes "tool_name") projected,
        pointers ++ codes "/tool_name" ∷ [],
        record state { tool_names_removed = state.tool_names_removed + 1 },
      )
  project_tool v projected state pointers = (projected, pointers, state)

  -- The lines on `args`.
  unfoldable pub project_arguments :
      Value
      → Dict Value
      → ProjectionState
      → List JsString
      → Dict Value × List JsString × ProjectionState
  unfolding project_args
  project_arguments (obj i fs) projected state pointers =
      let (args, pointers', state') = project_args (fields fs) state pointers in
      (insert (codes "args") (obj (copied i) (make_fields args)) projected, pointers', state')
  project_arguments (host i fs) projected state pointers =
      let (args, pointers', state') = project_args (fields fs) state pointers in
      (insert (codes "args") (obj (copied i) (make_fields args)) projected, pointers', state')
  project_arguments v projected state pointers = (projected, pointers, state)

  abbrev is_annotation : Value → Bool
  is_annotation (str s) = s == codes "annotation"
  is_annotation v = false

  abbrev pub with_pointers : List JsString → Dict Value → Dict Value
  with_pointers [] projected = projected
  with_pointers (p ∷ ps) projected =
      insert (codes "redacted_fields") (arr listed (make_items (sorted_set (p ∷ ps)))) projected

  -- The end of `projectRecord`: the pointers and the counts.
  unfoldable pub finish_record :
      Dict Value × List JsString × ProjectionState → Dict Value × ProjectionState
  unfolding count_markers sorted_set make_items
  finish_record (projected, pointers, state) =
      let result = with_pointers pointers projected in
      (
        result,
        record state {
          annotations =
              state.annotations + (if is_annotation (get (codes "kind") result) then 1 else 0);
          redaction_markers =
              state.redaction_markers + count_markers (obj listed (make_fields result));
        },
      )

  -- `record["redacted_fields"] ?? []`
  abbrev or_empty : Value → Value
  or_empty undefined = arr listed nil
  or_empty null = arr listed nil
  or_empty v = v

  unfoldable pub project_record :
      Dict Value → ProjectionState → JsString → Result (Dict Value × ProjectionState)
  unfolding as_string_list validate_record_shape project_tool project_arguments finish_record
  project_record event state run_id =
      as_string_list (or_empty (get (codes "redacted_fields") event)) >>= λ pointers.
      validate_record_shape event pointers >>= λ all_pointers.
      let started = insert (codes "run_id") (str run_id) event in
      let (named, named_pointers, state1) =
        project_tool (get (codes "tool_name") started) started state all_pointers in
      ok (finish_record (project_arguments (get (codes "args") named) named state1 named_pointers))

  -- `records.map(...)` of `scanPublication`, in order, the state shared; `run_id` is the source trace's
  unfoldable pub project_records :
      List (Dict Value) → ProjectionState → JsString → Result (List (Dict Value) × ProjectionState)
  unfolding project_record
  project_records [] state run_id = ok ([], state)
  project_records (event ∷ events) state run_id =
      project_record event state run_id >>= λ (reviewed, state1).
      project_records events state1 run_id >>= λ (others, state2). ok (reviewed ∷ others, state2)

-- `{ ...record, run_id: traceId }`, with the identity of the publication
unfoldable pub with_run_id : JsString → Dict Value → Dict Value
with_run_id trace_id reviewed = insert (codes "run_id") (str trace_id) reviewed
