-- ===== src/Examples/Published.antt =====
-- A record of a tool call, and what a publication makes of it.
use nemoir_web_runtime.Prelude.{ℕ, List, ◌+◌, ◌≡◌, refl, arith, false, some, [], ◌∷◌}
use nemoir_web_runtime.Js.Text.{JsString, codes}
use nemoir_web_runtime.Js.Value.{Value, str, arr, obj, nil, cons, field, end}
use nemoir_web_runtime.Js.Dict.{Dict, lookup}
use nemoir_web_runtime.Publication.Project.{ProjectionState, with_run_id}
use nemoir_web_runtime.Publication.Public.{with_run_id-IsPublic}
use nemoir_web_runtime.Publication.Refs.{AllShow, project_records-AllShow}
use nemoir_web_runtime.Publication.Public.Parts.{IsPublic}

abbrev event_at : JsString → Dict Value
event_at path =
    (codes "kind", str (codes "tool_call_started"))
    ∷ (codes "run_id", str (codes "r1"))
    ∷ (codes "timestamp", str (codes "t"))
    ∷ (codes "tool_name", str (codes "secret"))
    ∷ (codes "args", obj 1 (field (codes "path") (str path) end))
    ∷ (codes "redacted_fields", arr 2 nil)
    ∷ []

abbrev event : Dict Value
event = event_at (codes "$docs/a")

abbrev fresh_state : ProjectionState
fresh_state = record {
  allow_tool_names = [];
  keep_relative_paths = false;
  path_refs = [];
  tool_names_removed = 0;
  tool_names_retained = 0;
  paths_opaque = 0;
  redaction_markers = 0;
  annotations = 0;
}

abbrev published_at : JsString → Dict Value
published_at ref =
    (codes "kind", str (codes "tool_call_started"))
    ∷ (codes "run_id", str (codes "public"))
    ∷ (codes "timestamp", str (codes "t"))
    ∷ (codes "args", obj 2 (field (codes "path_ref") (str ref) end))
    ∷ (
      codes "redacted_fields",
      arr 9 (cons (str (codes "/args/path")) (cons (str (codes "/tool_name")) nil)),
    )
    ∷ []

abbrev published : Dict Value
published = published_at (codes "path-1")

abbrev later_state : ProjectionState
later_state = record {
  allow_tool_names = [];
  keep_relative_paths = false;
  path_refs = (codes "$docs/a", codes "path-1") ∷ [];
  tool_names_removed = 1;
  tool_names_retained = 0;
  paths_opaque = 1;
  redaction_markers = 0;
  annotations = 0;
}

with_run_id-IsPublic_example :
    IsPublic [] false (codes "publication") (with_run_id (codes "publication") published)
unfolding nemoir_web_runtime.Publication.Project.project_record nemoir_web_runtime.Js.Dict.get
    nemoir_web_runtime.Js.Dict.lookup nemoir_web_runtime.Js.Text.◌==◌
    nemoir_web_runtime.Js.Value.items nemoir_web_runtime.Js.Dict.has nemoir_web_runtime.Js.Dict.keys
    nemoir_web_runtime.Js.Text.contains nemoir_web_runtime.Publication.public_event_keys
    nemoir_web_runtime.Publication.non_annotation_keys nemoir_web_runtime.Js.Value.fields
    nemoir_web_runtime.Publication.public_args_keys nemoir_web_runtime.Publication.arg_value_ok
    nemoir_web_runtime.Publication.args_marker_keys nemoir_web_runtime.Js.Text.starts_with
    nemoir_web_runtime.Js.Dict.insert nemoir_web_runtime.Publication.Project.make_fields
    nemoir_web_runtime.Js.Text.string_lt
with_run_id-IsPublic_example =
    with_run_id-IsPublic (λ n. (n + 48) ∷ []) (λ i. i + 1) 9 event fresh_state (codes "public")
      published later_state (codes "publication") refl

abbrev last_refs : Dict JsString
last_refs = (codes "$docs/a", codes "path-1") ∷ (codes "$docs/b", codes "path-2") ∷ []

abbrev last_state : ProjectionState
last_state = record later_state { path_refs = last_refs; tool_names_removed = 2; paths_opaque = 2 }

digit-injective : (m n : ℕ) → (m + 48) ∷ [] ≡ (n + 48) ∷ [] → m ≡ n
digit-injective m n e = ground (arith, e)

abbrev two_events : List (Dict Value)
two_events = event ∷ event_at (codes "$docs/b") ∷ []

abbrev two_published : List (Dict Value)
two_published = published ∷ published_at (codes "path-2") ∷ []

project_records-AllShow_example :
    AllShow (λ n. (n + 48) ∷ []) (λ i. i + 1) 9 last_refs two_events two_published
    × ((p q r : JsString) → lookup p last_refs ≡ some r → lookup q last_refs ≡ some r → p ≡ q)
    × ((p r : JsString) → lookup p [] ≡ some r → lookup p last_refs ≡ some r)
unfolding nemoir_web_runtime.Publication.Refs.Numbering.Numbered
    nemoir_web_runtime.Publication.Project.project_records nemoir_web_runtime.Js.Dict.get lookup
    nemoir_web_runtime.Js.Text.◌==◌ nemoir_web_runtime.Js.Value.items nemoir_web_runtime.Js.Dict.has
    nemoir_web_runtime.Js.Dict.keys nemoir_web_runtime.Js.Text.contains
    nemoir_web_runtime.Publication.public_event_keys
    nemoir_web_runtime.Publication.non_annotation_keys nemoir_web_runtime.Js.Value.fields
    nemoir_web_runtime.Publication.public_args_keys nemoir_web_runtime.Publication.arg_value_ok
    nemoir_web_runtime.Publication.args_marker_keys nemoir_web_runtime.Js.Text.starts_with
    nemoir_web_runtime.Js.Dict.insert nemoir_web_runtime.Publication.Project.make_fields
    nemoir_web_runtime.Js.Text.string_lt
project_records-AllShow_example =
    project_records-AllShow (λ n. (n + 48) ∷ []) (λ i. i + 1) 9 digit-injective two_events
      two_published fresh_state last_state (codes "public") refl tt refl
