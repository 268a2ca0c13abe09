-- ===== src/Examples/Decoding.antt =====
-- A decoded workflow with one tool stage that runs sandboxed code behind a confirmation.
use nemoir_web_runtime.Prelude.{◌≡◌, refl, true, false, none, some, List, [], ◌∷◌, ◌++◌}
use nemoir_web_runtime.Js.Text.{codes, ◌==◌}
use nemoir_web_runtime.Js.Dict.{lookup}
use nemoir_web_runtime.Capabilities.{browser_js_sandbox}
use nemoir_web_runtime.Manifest.{tool}
use nemoir_web_runtime.Events.{Call}
use nemoir_web_runtime.Policy.{Env, enforce_and_call}
use nemoir_web_runtime.Policy.Gate.{requirements}
use nemoir_web_runtime.Ir.{input, ref, WorkflowIrJson}
use nemoir_web_runtime.Ir.Conversion.{build_workflow_manifest}
use nemoir_web_runtime.Ir.Web.{validate_for_web, sandbox_is_used}
use nemoir_web_runtime.Ir.Approval.{Approved, validate_for_web-Approved}
use nemoir_web_runtime.Examples.Data.{engine, registry, inputs, draft, start, sandbox_args}

abbrev ir : WorkflowIrJson
ir = record {
  workflow_id = codes "run_code";
  entry = codes "run";
  exits = codes "run" ∷ [];
  inputs = record { id = codes "source"; type = codes "string" } ∷ [];
  capabilities = codes "user.confirm" ∷ codes "browser.js.sandbox" ∷ [];
  policies =
      record {
        id = codes "approval";
        kind = codes "before";
        trigger = record {
          capability = codes "browser.js.sandbox";
          bind = (codes "code", record { kind = codes "arg"; name = codes "code" }) ∷ [];
        };
        requires = some (record { capability = codes "user.confirm"; args = [] } ∷ []);
        condition = none;
      }
      ∷ [];
  nodes =
      record {
        id = codes "run";
        annotations = [];
        prompt = [];
        reads = [];
        writes = record { name = codes "result"; type = codes "json"; optional = false } ∷ [];
        requires = record { capability = codes "browser.js.sandbox" } ∷ [];
        transitions = [];
        execution = record {
          kind = tool;
          capability = some (codes "browser.js.sandbox");
          args = some ((codes "code", ref (input (codes "source"))) ∷ []);
        };
      }
      ∷ [];
}

abbrev decoded_env : Env
decoded_env = record {
  engine = engine;
  registry = registry;
  policies = (build_workflow_manifest ir).policies;
  inputs = inputs;
  live = true;
  tape = λ n id. none;
}

validate_for_web-Approved_example :
    (made : List Call) × ((enforce_and_call decoded_env draft browser_js_sandbox sandbox_args none
        start).1.calls
      ≡ [] ++ made)
    × Approved
        (requirements decoded_env draft browser_js_sandbox sandbox_args)
        (enforce_and_call decoded_env draft browser_js_sandbox sandbox_args none start).0
        made
unfolding validate_for_web nemoir_web_runtime.Ir.Web.part_issues
    nemoir_web_runtime.Capabilities.is_web_allowed_capability nemoir_web_runtime.Js.Text.contains
    nemoir_web_runtime.Capabilities.web_allowed_capabilities nemoir_web_runtime.Js.Text.◌==◌
    nemoir_web_runtime.Ir.Web.type_uses_path nemoir_web_runtime.Js.Text.includes
    nemoir_web_runtime.Js.Text.starts_with nemoir_web_runtime.Ir.Web.node_issues
    nemoir_web_runtime.Js.Dict.lookup nemoir_web_runtime.Js.Dict.insert
    nemoir_web_runtime.Ir.Web.policy_issues nemoir_web_runtime.Capabilities.is_deterministic_only
    nemoir_web_runtime.Capabilities.web_deterministic_only_capabilities
    nemoir_web_runtime.Ir.Web.is_sandbox_approval_policy
    nemoir_web_runtime.Ir.Web.no_approval_issues nemoir_web_runtime.Ir.Web.sandbox_is_used
    nemoir_web_runtime.Capabilities.browser_js_run
    nemoir_web_runtime.Capabilities.browser_js_sandbox nemoir_web_runtime.Capabilities.user_confirm
    nemoir_web_runtime.Capabilities.user_elicit nemoir_web_runtime.Ir.Web.no_confirm_issues
    nemoir_web_runtime.Ir.Web.runs_sandbox
validate_for_web-Approved_example =
    validate_for_web-Approved ir decoded_env draft sandbox_args none start refl refl refl
