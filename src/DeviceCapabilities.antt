-- ===== src/DeviceCapabilities.antt =====
-- device-capabilities.ts: `assessModelFit`. Messages are left out.
pub mod Fit
use nemoir_web_runtime.Prelude.{
  ℕ, ◌+◌, ◌*◌, ◌^◌, Bool, ◌||◌, true, false, not, ◌&&◌, Option, none, some, List, if◌then◌else◌,
}
use nemoir_web_runtime.Js.Number.{Double, is_nan, is_zero, number_lt, number_le}
use nemoir_web_runtime.Js.Text.{JsString, codes, includes, contains}

pub data FitCategory : Type 0 where
  recommended likely_ok needs_download oversized_vram missing_feature unknown : FitCategory

pub record WebLlmModelInfo : Type 0 where
  pub model_id : JsString
  -- `undefined` is `none`
  pub vram_required_mb : Option Double
  pub low_resource_required : Bool
  pub required_features : List JsString

pub record DeviceCapabilityReport : Type 0 where
  -- `null` is `none`
  pub shader_f16_supported : Option Bool
  -- in lower case
  pub adapter_info : Option JsString
  pub storage_supported : Bool
  pub storage_available : Option Double

pub record ModelFitAssessment : Type 0 where
  pub model_id : JsString
  pub category : FitCategory
  pub is_cached : Bool

-- A power of two.
abbrev two_to : ℕ → Double
two_to n = (1023 + n) * 2 ^ 52

-- 2048
abbrev pub small_model_vram_mb : Double
small_model_vram_mb = two_to 11

-- `model.vramRequiredMb ?? 0`
abbrev vram_mb : WebLlmModelInfo → Double
vram_mb model = elim model.vram_required_mb [ none ↦ 0 | some mb ↦ mb ]

abbrev is_refused : Option Bool → Bool
is_refused (some false) = true
is_refused supported = false

abbrev is_known : Option Bool → Bool
is_known none = false
is_known (some b) = true

-- The loop over the required features.
unfoldable pub lacks_feature : WebLlmModelInfo → DeviceCapabilityReport → Bool
lacks_feature model device =
    contains model.required_features (codes "shader-f16") && is_refused device.shader_f16_supported

-- A large model on a software renderer.
unfoldable pub lacks_gpu : WebLlmModelInfo → DeviceCapabilityReport → Bool
lacks_gpu model device =
    number_lt 0 (vram_mb model)
    && (is_known device.shader_f16_supported
        && (on_software device.adapter_info && number_lt (two_to 11) (vram_mb model)))
  where
    on_software : Option JsString → Bool
    on_software none = false
    on_software (some info) = includes info (codes "swiftshader")

-- `Math.max(a, b)` of a number `a` that is neither NaN nor a zero
abbrev max_of : Double → Double → Double
max_of a b = if is_nan b then b else if number_lt a b then b else a

-- A size that is there and is neither zero nor NaN.
abbrev is_given : Option Double → Bool
is_given none = false
is_given (some bytes) = not (is_nan bytes || is_zero bytes)

abbrev given_above : Double → Option Double → Bool
given_above limit none = false
given_above limit (some bytes) = number_lt limit bytes

-- `add` is the sum of two numbers, and `fifth n` is `Math.round(n * 0.2)`.
module _ (add : Double → Double → Double) (fifth : Double → Double) where
  abbrev exceeds : Double → Option Double → Bool
  exceeds available none = false
  exceeds available (some bytes) =
      number_lt available (add bytes (max_of (two_to 29) (fifth bytes)))

  unfoldable pub lacks_storage : DeviceCapabilityReport → Option Double → Bool
  lacks_storage device bytes = device.storage_supported && elim device.storage_available [
    | none ↦ false
    | some available ↦ is_given bytes && exceeds available bytes
  ]

  -- The categories, in the order of the tests. `bytes` is `estimatedDownloadBytes`.
  unfoldable pub fit_category :
      WebLlmModelInfo → DeviceCapabilityReport → Bool → Option Double → FitCategory
  unfolding lacks_feature lacks_gpu lacks_storage
  fit_category model device is_cached bytes =
      if lacks_feature model device
      then missing_feature
      else if lacks_gpu model device
      then oversized_vram
      else if not is_cached && lacks_storage device bytes
      then oversized_vram
      else if not is_cached && (is_given bytes && given_above (two_to 32) bytes)
      then needs_download
      else if model.low_resource_required
          && (number_lt 0 (vram_mb model) && number_le (vram_mb model) small_model_vram_mb)
      then recommended
      else if number_lt 0 (vram_mb model) && number_le (vram_mb model) small_model_vram_mb
      then likely_ok
      else if is_cached
      then likely_ok
      else if number_lt (two_to 13) (vram_mb model)
      then needs_download
      else unknown

  unfoldable pub assess_model_fit :
      WebLlmModelInfo → DeviceCapabilityReport → Bool → Option Double → ModelFitAssessment
  unfolding fit_category
  assess_model_fit model device is_cached bytes = record {
    model_id = model.model_id;
    category = fit_category model device is_cached bytes;
    is_cached = is_cached;
  }
