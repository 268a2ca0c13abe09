-- ===== src/Errors.antt =====
-- errors.ts: the error classes, and results that may carry one. Messages are not modelled.
use nemoir_web_runtime.Prelude.{◌≡◌, refl, Bool, true, false}

pub data Error : Type 0 where
  -- the subclasses of `NemoIRRuntimeError`
  tool_validation missing_capability tool_invocation policy_denied policy_evaluation
        stage_output_validation data_unavailable no_transition_matched max_steps_exceeded
        workflow_timeout workflow_validation model_provider model_output_validation :
      Error
  -- `NemoIRRuntimeError` itself
  runtime_error : Error
  -- a DOMException named AbortError, and any other thrown value
  abort_error other_error : Error

-- `e instanceof NemoIRRuntimeError`
abbrev pub is_runtime_error : Error → Bool
is_runtime_error abort_error = false
is_runtime_error other_error = false
is_runtime_error _ = true

pub data Result {ℓ} (A : Type ℓ) : Type ℓ where
  ok : A → Result A
  err : Error → Result A

-- `if (!test) throw new E()`
abbrev pub require : Bool → Error → Result (Unit {0})
require false e = err e
require true e = ok tt

module _ {ℓ κ} {A : Type ℓ} {B : Type κ} where
  infixl 5 ◌>>=◌ ◌>>◌
  abbrev pub ◌>>=◌ : Result A → (A → Result B) → Result B
  err thrown >>= next = err thrown
  ok value >>= next = next value

  abbrev pub ◌>>◌ : Result A → Result B → Result B
  first >> second = first >>= λ _. second

  -- A successful chain of two steps comes apart.
  pub bind-eq-ok :
      (first : Result A) (next : A → Result B) {end_value : B}
      → (first >>= next) ≡ ok end_value
      → (value : A) × (first ≡ ok value) × (next value ≡ ok end_value)
  bind-eq-ok (err thrown) next h = cc
  bind-eq-ok (ok value) next h = (value, refl, h)
