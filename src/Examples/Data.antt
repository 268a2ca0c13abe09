-- ===== src/Examples/Data.antt =====
-- A small workflow: a stage that drafts a score, with sandboxed code behind a confirmation, and an exit.
use nemoir_web_runtime.Prelude.{ℕ, ◌+◌, ◌*◌, ◌^◌, true, false, none, some, [], ◌∷◌}
use nemoir_web_runtime.Errors.{ok}
use nemoir_web_runtime.Js.Text.{codes}
use nemoir_web_runtime.Js.Value.{Value, bool, num, str, obj, end, Engine}
use nemoir_web_runtime.Js.Dict.{Dict}
use nemoir_web_runtime.Manifest.{
  RefSpec, input, node_output, bound, ref, literal, compare, method_call, GuardSpec, always, if_,
  WriteSpec, TransitionSpec, model, StageSpec, before, deny, PolicySpec, WorkflowManifest,
}
use nemoir_web_runtime.Manifest
use nemoir_web_runtime.Tools.{Tool, ToolRegistry}
use nemoir_web_runtime.Events.{State, pure}
use nemoir_web_runtime.Policy.{Env}
use nemoir_web_runtime.Runtime.{StageExecutor, WorkflowRuntime, RunEnv}

-- An engine whose arithmetic stands in for rounding arithmetic.
abbrev pub engine : Engine
engine = record {
  add = λ a b. a;
  sub = λ a b. a;
  mul = λ a b. a;
  div = λ a b. a;
  string_to_number = λ s. 0;
  number_to_string = λ n. [];
  object_to_primitive = λ hint v. ok (str []);
}

-- The doubles 1, 2 and 3.
abbrev pub one : ℕ
one = 1023 * 2 ^ 52

abbrev pub two : ℕ
two = 1024 * 2 ^ 52

abbrev pub three : ℕ
three = 1024 * 2 ^ 52 + 2 ^ 51

abbrev pub score_write : WriteSpec
score_write = record { name = codes "score"; type = codes "number"; optional = false }

abbrev pub notes_write : WriteSpec
notes_write = record { name = codes "notes"; type = codes "string[]"; optional = true }

abbrev pub score_ref : RefSpec
score_ref = node_output (codes "draft") (codes "score")

-- `score > 1`
abbrev pub good_score : GuardSpec
good_score = if_ (compare (codes "gt") (ref score_ref) (literal (codes "number") (num one)))

abbrev pub to_done : TransitionSpec
to_done = record { to = codes "done"; priority = one; reason = []; guard = good_score }

abbrev pub to_draft : TransitionSpec
to_draft = record { to = codes "draft"; priority = two; reason = []; guard = always }

abbrev pub draft : StageSpec
draft = record {
  id = codes "draft";
  prompt = [];
  reads = record { ref = input (codes "topic"); optional = false } ∷ [];
  writes = score_write ∷ notes_write ∷ [];
  requires = codes "user.confirm" ∷ codes "browser.js.sandbox" ∷ [];
  transitions = to_draft ∷ to_done ∷ [];
  execution = record { kind = model; capability = none; args = none };
}

abbrev pub done : StageSpec
done = record {
  id = codes "done";
  prompt = [];
  reads = [];
  writes = score_write ∷ [];
  requires = [];
  transitions = [];
  execution = record { kind = model; capability = none; args = none };
}

-- `before browser.js.sandbox(code) requires user.confirm`
abbrev pub approval : PolicySpec
approval = record {
  id = codes "approval";
  kind = before;
  trigger = record {
    capability = codes "browser.js.sandbox";
    bind = (codes "code", codes "code") ∷ [];
  };
  requires = record { capability = codes "user.confirm"; args = [] } ∷ [];
  condition = none;
}

-- `deny browser.js.sandbox(code) when code.eq("eval")`
abbrev pub no_eval : PolicySpec
no_eval = record {
  id = codes "no_eval";
  kind = deny;
  trigger = record {
    capability = codes "browser.js.sandbox";
    bind = (codes "code", codes "code") ∷ [];
  };
  requires = [];
  condition = some (
      method_call (ref (bound (codes "code"))) (codes "eq")
        (Manifest.cons (literal (codes "string") (str (codes "eval"))) Manifest.nil));
}

abbrev pub confirm_tool : Tool
confirm_tool = record {
  name = codes "confirm";
  capability = codes "user.confirm";
  input_schema = (codes "message", codes "string") ∷ [];
  handler = λ n args. ok (bool true);
  preflight = none;
}

abbrev pub sandbox_tool : Tool
sandbox_tool = record {
  name = codes "sandbox";
  capability = codes "browser.js.sandbox";
  input_schema = (codes "code", codes "string") ∷ (codes "input", codes "json") ∷ [];
  handler = λ n args. ok (num three);
  preflight = none;
}

abbrev pub registry : ToolRegistry
registry = record {
  by_capability =
      (codes "user.confirm", confirm_tool ∷ [])
      ∷ (codes "browser.js.sandbox", sandbox_tool ∷ [])
      ∷ [];
  by_name = (codes "confirm", confirm_tool) ∷ (codes "sandbox", sandbox_tool) ∷ [];
}

abbrev pub manifest : WorkflowManifest
manifest = record {
  workflow_id = codes "judge";
  entry_stage_id = codes "draft";
  exit_stage_ids = codes "done" ∷ [];
  inputs = record { id = codes "topic"; type = codes "string" } ∷ [];
  capabilities = codes "user.confirm" ∷ codes "browser.js.sandbox" ∷ [];
  policies = no_eval ∷ approval ∷ [];
  stages = draft ∷ done ∷ [];
}

abbrev pub inputs : Dict Value
inputs = (codes "topic", str (codes "proofs")) ∷ []

-- An executor that gives every stage the score 3.
abbrev pub score_executor : StageExecutor
score_executor ctx = pure ((codes "score", num three) ∷ [])

abbrev pub runtime : WorkflowRuntime
runtime = record {
  manifest = manifest;
  tools = registry;
  stage_executor = score_executor;
  stage_map = (codes "draft", draft) ∷ (codes "done", done) ∷ [];
}

abbrev pub run_env : RunEnv
run_env = record {
  engine = engine;
  inputs = inputs;
  max_steps = 64;
  live = true;
  tape = λ n id. none;
  aborted = λ n. false;
  options = record { max_model_retries = 3; reasoning = codes "none"; has_live_sink = false };
}

abbrev pub env : Env
env = record {
  engine = engine;
  registry = registry;
  policies = no_eval ∷ approval ∷ [];
  inputs = inputs;
  live = true;
  tape = λ n id. none;
}

abbrev pub start : State
start = record { sequence = 0; log = []; calls = [] }

abbrev pub sandbox_args : Dict Value
sandbox_args = (codes "code", str (codes "return {}")) ∷ (codes "input", obj 1 end) ∷ []

abbrev pub eval_args : Dict Value
eval_args = (codes "code", str (codes "eval")) ∷ (codes "input", obj 1 end) ∷ []
