-- ===== src/Policy.antt =====
-- runtime.ts: policy enforcement around a tool call (`enforceAndCall` and
-- `enforceAndCallWithPolicies`).
pub mod Args
pub mod ToolCall
pub mod Keeps
pub mod Granted
pub mod Gate
pub mod Deny
use nemoir_web_runtime.Prelude.{
  ℕ, Bool, true, false, ◌&&◌, Option, none, some, List, [], ◌∷◌, ◌++◌, map, length, if◌then◌else◌,
}
use nemoir_web_runtime.Errors.{
  Result, ok, err, policy_denied, policy_evaluation, data_unavailable, missing_capability,
}
use nemoir_web_runtime.Js.Text.{JsString, ◌==◌, contains}
use nemoir_web_runtime.Js.Value.{Value, bool, to_boolean, Engine}
use nemoir_web_runtime.Js.Dict.{Dict}
use nemoir_web_runtime.Capabilities.{user_confirm}
use nemoir_web_runtime.Manifest.{
  ExprSpec, StageSpec, RequiredCapabilitySpec, PolicyKind, before, deny, other_kind, PolicySpec,
  RefSpec,
}
use nemoir_web_runtime.Evaluator.{eval_expr}
use nemoir_web_runtime.Evaluator.Refs.{resolve_policy_ref}
use nemoir_web_runtime.Tools.{Tool, ToolRegistry, get_tool, get_by_name, tool_to_call, wrap_outcome}
use nemoir_web_runtime.Events.{
  Exec, State, pure, throw, lift, ◌>>=◌, ◌>>◌, emit, record_entry, deny_checked, before_checked,
  tool_call_started, tool_call_completed, tool_call_failed, policy_recorded, tool_begun,
  tool_result, tool_error,
}
use nemoir_web_runtime.Events as Ev
use Args.{
  bind_trigger_args, resolve_required_args, check_required_args_present, with_default_message,
  policies_for,
}

-- What the enforcement of one run reads: the engine, the registry, the manifest's policies, the inputs,
-- whether the emitter has a sink or an observer, and the recorded verdicts of a replayed trace. `tape
-- n id` is what the recorder answers for a policy when its log has `n` entries; a recorder that is no
-- replay answers `none`.
pub record Env : Type 0 where
  pub engine : Engine
  pub registry : ToolRegistry
  pub policies : List PolicySpec
  pub inputs : Dict Value
  pub live : Bool
  pub tape : ℕ → JsString → Option Bool

-- `if (toolName) byName(toolName) else get(capability)`: an empty name counts as none
unfoldable pub pick_tool : ToolRegistry → JsString → Option JsString → Option Tool
pick_tool reg capability none = get_tool capability reg
pick_tool reg capability (some []) = get_tool capability reg
pick_tool reg capability (some (c ∷ name)) = get_by_name (c ∷ name) reg

unfoldable pub run_preflight : Option Tool → Dict Value → Result (Unit {0})
run_preflight none args = ok tt
run_preflight (some tool) args = elim tool.preflight [ none ↦ ok tt | some check ↦ check args ]

abbrev pub tool_name_or : Option Tool → JsString → JsString
tool_name_or none capability = capability
tool_name_or (some tool) capability = tool.name

abbrev pub is_false : Value → Bool
is_false (bool false) = true
is_false _ = false

module _ (env : Env) (stage : StageSpec) (capability : JsString) (args : Dict Value) where
  -- The events, the record and the exception of a verdict, live or replayed.
  unfoldable pub deny_verdict : PolicySpec → Bool → Exec (Unit {0})
  deny_verdict policy denied =
      emit (deny_checked stage.id capability policy.id denied)
      >> record_entry (policy_recorded policy.id denied)
      >> (if denied
          then emit (Ev.policy_denied stage.id capability policy.id) >> throw policy_denied
          else pure tt)

  -- The condition's value; data that is not available counts as denied and is an evaluation error.
  unfoldable pub deny_outcome : PolicySpec → Result Value → Exec (Unit {0})
  deny_outcome policy (ok v) = deny_verdict policy (to_boolean v)
  deny_outcome policy (err data_unavailable) =
      emit (deny_checked stage.id capability policy.id true)
      >> record_entry (policy_recorded policy.id true)
      >> throw policy_evaluation
  deny_outcome policy (err e) = throw e

  unfoldable pub eval_condition : ExprSpec → Dict Value → Result Value
  eval_condition condition bound_args =
      eval_expr env.engine (λ (r : RefSpec). resolve_policy_ref r env.inputs bound_args) condition

  unfoldable pub deny_decided : PolicySpec → ExprSpec → Dict Value → Option Bool → Exec (Unit {0})
  deny_decided policy condition bound_args (some denied) = deny_verdict policy denied
  deny_decided policy condition bound_args none =
      deny_outcome policy (eval_condition condition bound_args)

  unfoldable pub deny_condition : PolicySpec → ExprSpec → Exec (Unit {0})
  deny_condition policy condition = lift (bind_trigger_args policy.trigger args) >>= λ bound_args.
      λ (s : State). deny_decided policy condition bound_args (env.tape (length s.log) policy.id) s

  -- One round of the loop over deny policies.
  unfoldable pub deny_policy : PolicySpec → PolicyKind → Option ExprSpec → Exec (Unit {0})
  deny_policy policy deny (some condition) = deny_condition policy condition
  deny_policy policy deny none = pure tt
  deny_policy policy before condition = pure tt
  deny_policy policy (other_kind k) condition = pure tt

  unfoldable pub deny_policies : List PolicySpec → Exec (Unit {0})
  deny_policies [] = pure tt
  deny_policies (p ∷ ps) = deny_policy p p.kind p.condition >> deny_policies ps

  unfoldable pub run_handler : Result Tool → Exec Value
  run_handler (err e) s = (err e, s)
  run_handler (ok tool) s =
      let outcome = tool.handler (length s.calls) args in
      (
        wrap_outcome outcome,
        record s {
          calls =
              s.calls
              ++ record {
                capability = capability;
                tool = tool.name;
                args = args;
                outcome = outcome;
              }
                ∷ [];
        },
      )

  -- The registry's `call`, which finds the tool and runs its handler.
  unfoldable pub registry_call : Option JsString → Exec Value
  registry_call tool_name = run_handler (tool_to_call capability tool_name env.registry)

  -- `JSON.stringify` in `safeResultPreview` does not throw: a `Value` is a finite tree, without cycles,
  -- bigints and `toJSON` methods.
  unfoldable pub settle : JsString → Result Value → Exec Value
  settle name (ok v) =
      record_entry (tool_result args v)
      >> emit (tool_call_completed stage.id capability name)
      >> pure v
  settle name (err e) =
      record_entry (tool_error e) >> emit (tool_call_failed stage.id capability name) >> throw e

  unfoldable pub tool_call : Option JsString → Exec Value
  tool_call tool_name =
      let name = tool_name_or (pick_tool env.registry capability tool_name) capability in
      record_entry (tool_begun stage.id)
      >> emit (tool_call_started stage.id capability name args)
      >> λ (s : State). let (r, s') = registry_call tool_name s in settle name r s'

  -- `enforceAndCallWithPolicies`, over its section of before policies.
  unfoldable pub with_policies : Option JsString → (List PolicySpec → Exec (Unit {0})) → Exec Value
  with_policies tool_name before_section =
      let policies = policies_for capability env.policies in
      lift (run_preflight (pick_tool env.registry capability tool_name) args)
      >> deny_policies policies
      >> before_section policies
      >> tool_call tool_name

-- A call that a policy requires: deny policies apply to it, and no before policies; it may be of any
-- capability.
unfoldable pub required_call : Env → StageSpec → JsString → Dict Value → Exec Value
required_call env stage capability args =
    with_policies env stage capability args none (λ policies. pure tt)

module _ (env : Env) (stage : StageSpec) (capability : JsString) (args : Dict Value) where
  -- A required `user.confirm` that answers false denies the call.
  unfoldable pub after_required : PolicySpec → RequiredCapabilitySpec → Value → Exec (Unit {0})
  after_required policy req result =
      if req.capability == user_confirm && is_false result
      then emit (Ev.policy_denied stage.id capability policy.id)
        >> record_entry (policy_recorded policy.id true)
        >> throw policy_denied
      else pure tt

  -- One round of the loop over `policy.requires`.
  unfoldable pub require_one : PolicySpec → Dict Value → RequiredCapabilitySpec → Exec (Unit {0})
  require_one policy bound_args req =
      lift (resolve_required_args req env.inputs bound_args) >>= λ resolved.
      let req_args = with_default_message req.capability capability args resolved in
      lift (check_required_args_present req.capability req_args)
      >> required_call env stage req.capability req_args
      >>= λ result. after_required policy req result

  unfoldable pub require_all :
      PolicySpec → Dict Value → List RequiredCapabilitySpec → Exec (Unit {0})
  require_all policy bound_args [] = pure tt
  require_all policy bound_args (req ∷ reqs) =
      require_one policy bound_args req >> require_all policy bound_args reqs

  unfoldable pub before_checked_event : PolicySpec → Exec (Unit {0})
  before_checked_event policy =
      if env.live
      then emit (
          before_checked stage.id capability policy.id
            (map (λ (r : RequiredCapabilitySpec). r.capability) policy.requires))
      else pure tt

  -- One round of the loop over before policies.
  unfoldable pub before_policy : PolicySpec → PolicyKind → Exec (Unit {0})
  before_policy policy deny = pure tt
  before_policy policy (other_kind k) = pure tt
  before_policy policy before = lift (bind_trigger_args policy.trigger args) >>= λ bound_args.
      before_checked_event policy
      >> require_all policy bound_args policy.requires
      >> record_entry (policy_recorded policy.id false)

  unfoldable pub before_policies : List PolicySpec → Exec (Unit {0})
  before_policies [] = pure tt
  before_policies (p ∷ ps) = before_policy p p.kind >> before_policies ps

  -- `enforceAndCall` of a stage's own call.
  unfoldable pub enforce_and_call : Option JsString → Exec Value
  enforce_and_call tool_name =
      if contains stage.requires capability
      then with_policies env stage capability args tool_name before_policies
      else throw missing_capability
