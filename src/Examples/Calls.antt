-- ===== src/Examples/Calls.antt =====
-- Calls of the example workflow's tools, behind its policies.
use nemoir_web_runtime.Prelude.{map, ◌≡◌, refl, ◌++◌, inr, true, none, List, [], ◌∷◌, All, here}
use nemoir_web_runtime.Errors.{Error, ok, err}
use nemoir_web_runtime.Js.Text.{JsString, codes, ◌==◌}
use nemoir_web_runtime.Js.Group.{under}
use nemoir_web_runtime.Js.Value.{Value, bool, str}
use nemoir_web_runtime.Js.Dict.{Dict, lookup, insert, has}
use nemoir_web_runtime.Evaluator.{eval_expr}
use nemoir_web_runtime.Evaluator.Refs.{resolve_policy_ref}
use nemoir_web_runtime.Tools.{
  tool_capability, first_of_list, validate_tool, get_tool, get_by_name, new_registry,
}
use nemoir_web_runtime.Tools.Lookup.{named, new_registry-finds}
use nemoir_web_runtime.Events.{Call}
use nemoir_web_runtime.Policy.{eval_condition, enforce_and_call}
use nemoir_web_runtime.Policy.Args.{policies_for, bind_trigger_args}
use nemoir_web_runtime.Policy.Gate.{Enforced, requirements, enforce_and_call-Enforced}
use nemoir_web_runtime.Policy.Deny.{Denies, enforce_and_call-denied}
use nemoir_web_runtime.Examples.Data.{
  draft, no_eval, env, start, sandbox_args, eval_args, registry, confirm_tool, sandbox_tool,
}

enforce_and_call-Enforced_example :
    (made : List Call) × ((enforce_and_call env draft
        (codes "browser.js.sandbox")
        sandbox_args
        none
        start).1.calls
      ≡ [] ++ made)
    × Enforced
        (requirements env draft (codes "browser.js.sandbox") sandbox_args)
        (codes "browser.js.sandbox")
        sandbox_args
        (enforce_and_call env draft (codes "browser.js.sandbox") sandbox_args none start).0
        made
enforce_and_call-Enforced_example =
    enforce_and_call-Enforced env draft (codes "browser.js.sandbox") sandbox_args none start

no_eval-Denies : Denies env draft (codes "browser.js.sandbox") eval_args no_eval
unfolding eval_condition bind_trigger_args has ◌==◌ insert nemoir_web_runtime.Js.Dict.get lookup
    eval_expr resolve_policy_ref nemoir_web_runtime.Evaluator.eval_method_call
    nemoir_web_runtime.Evaluator.method_eq nemoir_web_runtime.Js.Value.strict_eq
    nemoir_web_runtime.Js.Value.to_boolean
no_eval-Denies = record {
  condition = _;
  bound_args = (codes "code", str (codes "eval")) ∷ [];
  verdict = bool true;
  is_deny = refl;
  has_condition = refl;
  binds = refl;
  holds = inr (λ n. refl, refl, refl);
}

enforce_and_call-denied_example :
    (e : Error) × ((enforce_and_call env draft (codes "browser.js.sandbox") eval_args none start).0
      ≡ err e)
    × ((enforce_and_call env draft (codes "browser.js.sandbox") eval_args none start).1.calls ≡ [])
unfolding policies_for nemoir_web_runtime.Js.Group.get_list lookup
    nemoir_web_runtime.Js.Group.group_onto nemoir_web_runtime.Js.Group.push_under insert ◌==◌
enforce_and_call-denied_example =
    enforce_and_call-denied env draft (codes "browser.js.sandbox") eval_args none start
      (here no_eval-Denies)

new_registry-finds_example :
    ((cap : JsString)
      → get_tool cap registry
        ≡ first_of_list (under tool_capability cap (confirm_tool ∷ sandbox_tool ∷ [])))
    × ((name : JsString)
        → get_by_name name registry ≡ named name (confirm_tool ∷ sandbox_tool ∷ []))
    × All (λ t. validate_tool t ≡ ok tt) (confirm_tool ∷ sandbox_tool ∷ [])
unfolding new_registry nemoir_web_runtime.Tools.register_all nemoir_web_runtime.Tools.register has
    insert ◌==◌ nemoir_web_runtime.Tools.validate_tools validate_tool
    nemoir_web_runtime.Capabilities.get_capability lookup
    nemoir_web_runtime.Tools.catalog_type_to_param_type nemoir_web_runtime.Js.Group.push_under
new_registry-finds_example = new_registry-finds (confirm_tool ∷ sandbox_tool ∷ []) registry refl

-- The sandbox runs once, after one confirmation.
sandbox_test :
    map
      (λ (c : Call). c.capability)
      (enforce_and_call env draft (codes "browser.js.sandbox") sandbox_args none start).1.calls
    ≡ codes "user.confirm" ∷ codes "browser.js.sandbox" ∷ []
unfolding nemoir_web_runtime.Js.Text.contains nemoir_web_runtime.Js.Value.to_boolean
    nemoir_web_runtime.Js.Value.strict_eq nemoir_web_runtime.Js.Dict.lookup
    nemoir_web_runtime.Js.Dict.has nemoir_web_runtime.Js.Dict.insert nemoir_web_runtime.Js.Dict.get
    nemoir_web_runtime.Js.Group.push_under nemoir_web_runtime.Js.Group.group_onto
    nemoir_web_runtime.Capabilities.bound_var_type nemoir_web_runtime.Tools.get_tool
    nemoir_web_runtime.Tools.tool_to_call nemoir_web_runtime.Tools.wrap_outcome
    nemoir_web_runtime.Evaluator.bin_op nemoir_web_runtime.Evaluator.method_eq
    nemoir_web_runtime.Evaluator.eval_method_call
    nemoir_web_runtime.Evaluator.Refs.resolve_policy_ref nemoir_web_runtime.Events.◌>>=◌
    nemoir_web_runtime.Events.emit nemoir_web_runtime.Events.record_entry
    nemoir_web_runtime.Policy.Args.bind_trigger_args
    nemoir_web_runtime.Policy.Args.resolve_required_args
    nemoir_web_runtime.Policy.Args.check_required_args_present
    nemoir_web_runtime.Policy.Args.with_default_message nemoir_web_runtime.Policy.Args.policies_for
    nemoir_web_runtime.Policy.pick_tool nemoir_web_runtime.Policy.run_preflight
    nemoir_web_runtime.Policy.deny_verdict nemoir_web_runtime.Policy.deny_outcome
    nemoir_web_runtime.Policy.eval_condition nemoir_web_runtime.Policy.deny_decided
    nemoir_web_runtime.Policy.deny_condition nemoir_web_runtime.Policy.deny_policy
    nemoir_web_runtime.Policy.deny_policies nemoir_web_runtime.Policy.run_handler
    nemoir_web_runtime.Policy.registry_call nemoir_web_runtime.Policy.settle
    nemoir_web_runtime.Policy.tool_call nemoir_web_runtime.Policy.with_policies
    nemoir_web_runtime.Policy.required_call nemoir_web_runtime.Policy.after_required
    nemoir_web_runtime.Policy.require_one nemoir_web_runtime.Policy.require_all
    nemoir_web_runtime.Policy.before_checked_event nemoir_web_runtime.Policy.before_policy
    nemoir_web_runtime.Policy.before_policies nemoir_web_runtime.Policy.enforce_and_call eval_expr
sandbox_test = refl
