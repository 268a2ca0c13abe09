-- ===== src/Evaluator/Refs.antt =====
-- evaluator.ts: what a reference stands for, in a guard and in a policy.
use nemoir_web_runtime.Prelude.{none, some, if◌then◌else◌}
use nemoir_web_runtime.Errors.{Result, ok, err, data_unavailable, policy_evaluation}
use nemoir_web_runtime.Js.Value.{Value, undefined}
use nemoir_web_runtime.Js.Dict.{Dict, lookup, has, get}
use nemoir_web_runtime.Manifest.{RefSpec, input, node_output, bound}

unfoldable pub resolve_read_ref : RefSpec → Dict Value → Dict (Dict Value) → Result Value
resolve_read_ref (input name) inputs stage_outputs = ok (get name inputs)
resolve_read_ref (node_output node field) inputs stage_outputs = elim (lookup node stage_outputs) [
  | none ↦ ok undefined
  | some out ↦ ok (get field out)
]
resolve_read_ref (bound name) inputs stage_outputs = err data_unavailable

unfoldable pub resolve_guard_ref : RefSpec → Dict Value → Dict (Dict Value) → Result Value
unfolding resolve_read_ref
resolve_guard_ref (bound name) inputs stage_outputs = err data_unavailable
resolve_guard_ref r inputs stage_outputs = resolve_read_ref r inputs stage_outputs

-- The workflow's inputs, then the variables that the policy's trigger bound.
unfoldable pub resolve_policy_ref : RefSpec → Dict Value → Dict Value → Result Value
resolve_policy_ref (input name) inputs bound_args =
    if has name inputs then ok (get name inputs) else err policy_evaluation
resolve_policy_ref (bound name) inputs bound_args =
    if has name bound_args then ok (get name bound_args) else err policy_evaluation
resolve_policy_ref (node_output node field) inputs bound_args = err policy_evaluation
