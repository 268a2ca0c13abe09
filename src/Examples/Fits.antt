-- ===== src/Examples/Fits.antt =====
-- Canonical texts, and a model on a small device.
use nemoir_web_runtime.Prelude.{
  ℕ, ◌+◌, ◌*◌, ◌^◌, ◌⊎◌, Bool, ◌≡◌, true, false, none, some, [], arith,
}
use nemoir_web_runtime.Js.Text.{JsString, codes}
use nemoir_web_runtime.Js.Value.{Value, null, bool, arr, obj, nil, cons, field, end}
use nemoir_web_runtime.Canonical.{canonical_stringify}
use nemoir_web_runtime.Canonical.Reordered.{
  arrays, item, none_left, objects, swapped, canonical_stringify-Reordered,
}
use nemoir_web_runtime.DeviceCapabilities.{
  WebLlmModelInfo, DeviceCapabilityReport, ModelFitAssessment, assess_model_fit,
}
use nemoir_web_runtime.DeviceCapabilities.Fit.{IsRefused, IsFit, assess_model_fit-cached}

-- `[{"a":null,"b":true}]`, and the same with the fields swapped
abbrev ordered : Value
ordered = arr 1 (cons (obj 2 (field (codes "a") null (field (codes "b") (bool true) end))) nil)

abbrev exchanged : Value
exchanged = arr 3 (cons (obj 4 (field (codes "b") (bool true) (field (codes "a") null end))) nil)

abbrev quoted : JsString → JsString
quoted s = s

canonical_stringify-Reordered_example :
    canonical_stringify quoted (λ n. []) ordered ≡ canonical_stringify quoted (λ n. []) exchanged
canonical_stringify-Reordered_example =
    canonical_stringify-Reordered quoted (λ n. [])
      (arrays (item (objects (swapped (λ e. ground arith))) none_left))

-- 2 ^ 33
abbrev large : ℕ
large = (1023 + 33) * 2 ^ 52

abbrev small_model : WebLlmModelInfo
small_model = record {
  model_id = codes "small";
  vram_required_mb = some (1032 * 2 ^ 52);
  low_resource_required = false;
  required_features = [];
}

abbrev full_device : DeviceCapabilityReport
full_device = record {
  shader_f16_supported = some true;
  adapter_info = none;
  storage_supported = true;
  storage_available = some 0;
}

abbrev assessed : Bool → ModelFitAssessment
assessed is_cached =
    assess_model_fit (λ a b. b) (λ n. n) small_model full_device is_cached (some large)

-- A model of 512 MB of memory and 8 GB to load, on a device with no storage left.
assess_model_fit-cached_example :
    ((assessed true).category
      ≡ (assess_model_fit
          (λ a b. b)
          (λ n. n)
          small_model
          (record full_device { storage_supported = false; storage_available = none })
          true
          none).category)
    × (IsFit (assessed true).category
        ⊎ (IsRefused (assessed true).category
            × ((assessed false).category ≡ (assessed true).category)))
assess_model_fit-cached_example =
    assess_model_fit-cached (λ a b. b) (λ n. n) small_model full_device false none (some large) none
