-- ===== src/Policy/Args.antt =====
-- runtime.ts: the arguments that a policy binds and requires, and the policies of a capability.
use nemoir_web_runtime.Prelude.{
  Bool, true, false, not, ◌&&◌, none, some, List, [], ◌∷◌, ◌++◌, if◌then◌else◌,
}
use nemoir_web_runtime.Errors.{Result, ok, err, require, policy_evaluation}
use nemoir_web_runtime.Errors
use nemoir_web_runtime.Js.Text.{JsString, codes, ◌==◌}
use nemoir_web_runtime.Js.Value.{Value, str, is_nullish}
use nemoir_web_runtime.Js.Dict.{Dict, get, has, insert}
use nemoir_web_runtime.Js.Group.{get_list, group_onto}
use nemoir_web_runtime.Capabilities.{
  CapabilityParam, is_required, get_capability, user_confirm, browser_js_sandbox,
}
use nemoir_web_runtime.Manifest.{RefSpec, TriggerSpec, RequiredCapabilitySpec, PolicySpec}
use nemoir_web_runtime.Evaluator.Refs.{resolve_policy_ref}

-- The loop of `bindTriggerArgs` over the bound variables.
bind_from : Dict JsString → Dict Value → Dict Value → Result (Dict Value)
bind_from [] args result = ok result
bind_from ((bound_var, arg_name) ∷ rest) args result =
    if has arg_name args
    then bind_from rest args (insert bound_var (get arg_name args) result)
    else err policy_evaluation

unfoldable pub bind_trigger_args : TriggerSpec → Dict Value → Result (Dict Value)
unfolding bind_from
bind_trigger_args trigger args = bind_from trigger.bind args []

resolve_args_from : Dict RefSpec → Dict Value → Dict Value → Dict Value → Result (Dict Value)
resolve_args_from [] inputs bound_args result = ok result
resolve_args_from ((arg_name, ref) ∷ rest) inputs bound_args result =
    Errors.◌>>=◌ (resolve_policy_ref ref inputs bound_args)
      (λ v. resolve_args_from rest inputs bound_args (insert arg_name v result))

unfoldable pub resolve_required_args :
    RequiredCapabilitySpec → Dict Value → Dict Value → Result (Dict Value)
unfolding resolve_args_from
resolve_required_args req inputs bound_args = resolve_args_from req.args inputs bound_args []

check_params : List CapabilityParam → Dict Value → Result (Unit {0})
check_params [] req_args = ok tt
check_params (p ∷ ps) req_args =
    Errors.◌>>◌
      (require (not (is_required p && is_nullish (get p.name req_args))) policy_evaluation)
      (check_params ps req_args)

unfoldable pub check_required_args_present : JsString → Dict Value → Result (Unit {0})
unfolding check_params
check_required_args_present req_capability req_args = elim (get_capability req_capability) [
  | none ↦ err policy_evaluation
  | some spec ↦ check_params spec.required_params req_args
]

-- `typeof args.code === "string" ? args.code : ""`
abbrev code_text : Value → JsString
code_text (str s) = s
code_text _ = []

-- The two fixed lines of the message, which has the source below them.
approval_heading : JsString
approval_heading = codes "Run sandboxed JavaScript?"

approval_note : JsString
approval_note =
    codes "It receives only this workflow stage's declared JSON input. "
    ++ codes "Network APIs are restricted by CSP; host-page, host-origin storage, "
    ++ codes "and NemoIR tool access are not exposed."

abbrev new_line : JsString
new_line = 10 ∷ []

unfoldable pub sandbox_approval_message : Dict Value → JsString
unfolding approval_heading approval_note
sandbox_approval_message args =
    approval_heading
    ++ new_line
    ++ approval_note
    ++ new_line
    ++ new_line
    ++ codes "Source:"
    ++ new_line
    ++ code_text (get (codes "code") args)

is_empty : Dict Value → Bool
is_empty [] = true
is_empty (x ∷ xs) = false

-- The message of a `user.confirm` that a policy requires with no arguments.
unfoldable pub with_default_message : JsString → JsString → Dict Value → Dict Value → Dict Value
unfolding is_empty
with_default_message req_capability capability args req_args =
    if is_empty req_args && req_capability == user_confirm
    then insert (codes "message")
        (str (
          if capability == browser_js_sandbox
          then sandbox_approval_message args
          else codes "Allow policy-required call before " ++ capability ++ codes "?"))
        req_args
    else req_args

-- `this.policiesByTrigger.get(capability) ?? []`
abbrev pub trigger_capability : PolicySpec → JsString
trigger_capability p = p.trigger.capability

unfoldable pub policies_for : JsString → List PolicySpec → List PolicySpec
policies_for capability policies = get_list capability (group_onto trigger_capability policies [])
