-- ===== src/Examples/Results.antt =====
-- A tool stage's result, and mirrored models.
use nemoir_web_runtime.Prelude.{◌≡◌, refl, none, some, List, [], ◌∷◌, ◌++◌}
use nemoir_web_runtime.Js.Text.{codes}
use nemoir_web_runtime.Js.Value.{undefined, str, num, obj, end, field}
use nemoir_web_runtime.Js.Dict.{Dict, lookup}
use nemoir_web_runtime.Deterministic.Projection.{normalize_deterministic_output-lookup}
use nemoir_web_runtime.ModelSources.{MirroredModelRecord, ModelSourceProfile, overlay_model_records}
use nemoir_web_runtime.ModelSources.Overlay.{find_record, mirrored, overlay_model_records-find}
use nemoir_web_runtime.Examples.Data.{draft, three}

normalize_deterministic_output-lookup_example :
    lookup (codes "score") ((codes "score", num three) ∷ []) ≡ some (num three)
unfolding nemoir_web_runtime.Js.Value.fields
    nemoir_web_runtime.Deterministic.normalize_deterministic_output
    nemoir_web_runtime.Deterministic.normalize_for nemoir_web_runtime.Deterministic.project
    nemoir_web_runtime.Js.Dict.has nemoir_web_runtime.Js.Text.◌==◌ nemoir_web_runtime.Js.Dict.insert
    nemoir_web_runtime.Js.Dict.get lookup nemoir_web_runtime.Js.Text.contains
normalize_deterministic_output-lookup_example =
    normalize_deterministic_output-lookup draft
      (obj 1 (field (codes "score") (num three) (field (codes "log") (str []) end)))
      ((codes "score", num three) ∷ (codes "log", str []) ∷ []) ((codes "score", num three) ∷ [])
      (codes "score") refl refl

abbrev mirror : MirroredModelRecord
mirror = record {
  base_model_id = codes "llama";
  model = codes "https://mirror/llama";
  model_lib = codes "https://mirror/llama.wasm";
  vram_required_mb = none;
  low_resource_required = none;
  required_features = none;
  overrides = undefined;
  integrity = undefined;
}

-- The same model, from another place, under the same source.
abbrev profiles : List ModelSourceProfile
profiles =
    record { name = codes "first"; source_id = codes "cdn"; models = mirror ∷ [] }
    ∷ record {
      name = codes "second";
      source_id = codes "cdn";
      models = record mirror { model = codes "https://other/llama" } ∷ [];
    }
    ∷ []

overlay_model_records-find_example :
    find_record (codes "llama@cdn") (overlay_model_records [] profiles)
    ≡ find_record (codes "llama@cdn") ([] ++ mirrored profiles)
overlay_model_records-find_example = overlay_model_records-find [] profiles (codes "llama@cdn")
