-- ===== src/ModelSources.antt =====
-- model-sources.ts: mirrored model records laid over the prebuilt ones.
pub mod Overlay
use nemoir_web_runtime.Prelude.{Bool, Option, List, [], ◌∷◌, ◌++◌, map, if◌then◌else◌}
use nemoir_web_runtime.Js.Text.{JsString, codes, contains}
use nemoir_web_runtime.Js.Number.{Double}
use nemoir_web_runtime.Js.Value.{Value}

-- The fields of WebLLM's `ModelRecord` that are set here; `overrides` and `integrity` are passed on.
pub record ModelRecord : Type 0 where
  pub model : JsString
  pub model_id : JsString
  pub model_lib : JsString
  pub vram_required_mb : Option Double
  pub low_resource_required : Option Bool
  pub required_features : Option (List JsString)
  pub overrides : Value
  pub integrity : Value

pub record MirroredModelRecord : Type 0 where
  pub base_model_id : JsString
  pub model : JsString
  pub model_lib : JsString
  pub vram_required_mb : Option Double
  pub low_resource_required : Option Bool
  pub required_features : Option (List JsString)
  pub overrides : Value
  pub integrity : Value

pub record ModelSourceProfile : Type 0 where
  pub name : JsString
  pub source_id : JsString
  pub models : List MirroredModelRecord

unfoldable pub mirror_model_id : JsString → JsString → JsString
mirror_model_id base_model_id source_id = base_model_id ++ codes "@" ++ source_id

unfoldable pub to_mirrored_model_record : MirroredModelRecord → ModelSourceProfile → ModelRecord
to_mirrored_model_record mirror profile = record {
  model = mirror.model;
  model_id = mirror_model_id mirror.base_model_id profile.source_id;
  model_lib = mirror.model_lib;
  vram_required_mb = mirror.vram_required_mb;
  low_resource_required = mirror.low_resource_required;
  required_features = mirror.required_features;
  overrides = mirror.overrides;
  integrity = mirror.integrity;
}

-- The list `merged` and the set `seen`.
pub record Merging : Type 0 where
  pub merged : List ModelRecord
  pub seen : List JsString

abbrev pub id_of : ModelRecord → JsString
id_of r = r.model_id

unfoldable pub push_new : ModelRecord → Merging → Merging
push_new r m =
    if contains m.seen r.model_id
    then m
    else record { merged = m.merged ++ r ∷ []; seen = r.model_id ∷ m.seen }

-- The inner loop, over the models of a profile.
unfoldable pub overlay_models : ModelSourceProfile → List MirroredModelRecord → Merging → Merging
overlay_models profile [] m = m
overlay_models profile (mirror ∷ mirrors) m =
    overlay_models profile mirrors (push_new (to_mirrored_model_record mirror profile) m)

unfoldable pub overlay_profiles : List ModelSourceProfile → Merging → Merging
overlay_profiles [] m = m
overlay_profiles (profile ∷ profiles) m =
    overlay_profiles profiles (overlay_models profile profile.models m)

unfoldable pub overlay_model_records : List ModelRecord → List ModelSourceProfile → List ModelRecord
overlay_model_records prebuilt profiles =
    (overlay_profiles profiles (record { merged = prebuilt; seen = map id_of prebuilt })).merged
