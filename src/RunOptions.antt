-- ===== src/RunOptions.antt =====
-- runtime-types.ts: the options of a run and their defaults. `timeoutSeconds` and `metadata`, which
-- nothing reads, and the generation parameters, which adapters read, are left out.
use nemoir_web_runtime.Prelude.{ℕ, Option, none, some}
use nemoir_web_runtime.Js.Text.{JsString, codes}
use nemoir_web_runtime.Models.Executor.{Validators}

-- `null` for `maxToolRounds` is `none` too.
pub record PartialRunOptions : Type 0 where
  pub max_steps : Option ℕ
  pub max_model_retries : Option ℕ
  pub max_tool_rounds : Option ℕ
  pub reasoning : Option JsString
  pub model_output_validators : Option Validators

pub record RunOptions : Type 0 where
  pub max_steps : ℕ
  pub max_model_retries : ℕ
  pub max_tool_rounds : ℕ
  pub reasoning : JsString
  pub model_output_validators : Option Validators

abbrev pub default_run_options : RunOptions
default_run_options = record {
  max_steps = 64;
  max_model_retries = 3;
  max_tool_rounds = 32;
  reasoning = codes "none";
  model_output_validators = none;
}

-- `a ?? b`
abbrev pub or_else {ℓ} : {A : Type ℓ} → Option A → A → A
or_else none b = b
or_else (some a) b = a

unfoldable pub resolve_run_options : Option PartialRunOptions → RunOptions
resolve_run_options none = default_run_options
resolve_run_options (some opts) = record {
  max_steps = or_else opts.max_steps 64;
  max_model_retries = or_else opts.max_model_retries 3;
  max_tool_rounds = or_else opts.max_tool_rounds 32;
  reasoning = or_else opts.reasoning (codes "none");
  model_output_validators = opts.model_output_validators;
}
