-- ===== src/DeviceCapabilities/Fit.antt =====
-- device-capabilities.ts: what the cache overrides in the fit of a model.
use nemoir_web_runtime.Prelude.{◌≡◌, ◌⊎◌, Bool, true, false, Option, arith}
use nemoir_web_runtime.Js.Number.{Double}
use nemoir_web_runtime.DeviceCapabilities.{
  FitCategory, recommended, likely_ok, oversized_vram, missing_feature, WebLlmModelInfo,
  DeviceCapabilityReport, assess_model_fit,
}

-- The model is refused for a feature or for its size.
abbrev pub IsRefused : FitCategory → Type 0
IsRefused c = (c ≡ missing_feature) ⊎ (c ≡ oversized_vram)

-- The model is expected to run.
abbrev pub IsFit : FitCategory → Type 0
IsFit c = (c ≡ recommended) ⊎ (c ≡ likely_ok)

module _ (add : Double → Double → Double) (fifth : Double → Double) where
  -- The cache overrides the concerns about the download but no limit of the device: the category of a
  -- cached model is the same whatever the storage and the size of the download; and the model is then
  -- either expected to run, or refused, and that with the same category as when it is not cached.
  pub assess_model_fit-cached :
      (model : WebLlmModelInfo) (device : DeviceCapabilityReport) (supported : Bool)
      (available bytes other : Option Double)
      → ((assess_model_fit add fifth model device true bytes).category
          ≡ (assess_model_fit add fifth model
              (record device { storage_supported = supported; storage_available = available })
              true
              other).category)
        × (IsFit (assess_model_fit add fifth model device true bytes).category
            ⊎ (IsRefused (assess_model_fit add fifth model device true bytes).category
                × ((assess_model_fit add fifth model device false bytes).category
                    ≡ (assess_model_fit add fifth model device true bytes).category)))
  unfolding assess_model_fit nemoir_web_runtime.DeviceCapabilities.lacks_feature
      nemoir_web_runtime.DeviceCapabilities.lacks_gpu
  assess_model_fit-cached model device supported available bytes other =
      (ground arith, ground arith)
