-- ===== src/Transitions.antt =====
-- runtime.ts: `resolveReads` and `selectTransition`.
pub mod Selection
pub mod Reads
use nemoir_web_runtime.Prelude.{not, ◌||◌, List, [], ◌∷◌, ◌++◌, if◌then◌else◌}
use nemoir_web_runtime.Errors.{
  Result, ok, err, ◌>>=◌, ◌>>◌, require, data_unavailable, no_transition_matched,
}
use nemoir_web_runtime.Js.Text.{JsString, codes}
use nemoir_web_runtime.Js.Number.{number_lt}
use nemoir_web_runtime.Js.Value.{Value, is_nullish, Engine}
use nemoir_web_runtime.Js.Dict.{Dict, insert}
use nemoir_web_runtime.Manifest.{
  RefSpec, input, node_output, bound, ReadSpec, TransitionSpec, StageSpec,
}
use nemoir_web_runtime.Evaluator.{evaluate_guard}
use nemoir_web_runtime.Evaluator.Refs.{resolve_guard_ref}

unfoldable pub read_display_key : RefSpec → JsString
read_display_key (input name) = codes "input." ++ name
read_display_key (node_output node field) = node ++ codes "." ++ field
read_display_key (bound name) = codes "unknown." ++ name

-- One round of the loop of `resolveReads`.
resolve_read : ReadSpec → Dict Value → Dict (Dict Value) → Dict Value → Result (Dict Value)
resolve_read read inputs stage_outputs result =
    resolve_guard_ref read.ref inputs stage_outputs >>= λ value.
    require (read.optional || not (is_nullish value)) data_unavailable
    >> ok (insert (read_display_key read.ref) value result)

resolve_reads_from :
    List ReadSpec → Dict Value → Dict (Dict Value) → Dict Value → Result (Dict Value)
resolve_reads_from [] inputs stage_outputs result = ok result
resolve_reads_from (read ∷ reads) inputs stage_outputs result =
    resolve_read read inputs stage_outputs result >>= λ next.
    resolve_reads_from reads inputs stage_outputs next

unfoldable pub resolve_reads : StageSpec → Dict Value → Dict (Dict Value) → Result (Dict Value)
unfolding resolve_reads_from resolve_read
resolve_reads stage inputs stage_outputs = resolve_reads_from stage.reads inputs stage_outputs []

-- `[...transitions].sort((a, b) => a.priority - b.priority)`. The sort is stable, and the difference
-- of two doubles is positive exactly when the second is less than the first.
unfoldable pub insert_by_priority : TransitionSpec → List TransitionSpec → List TransitionSpec
insert_by_priority t [] = t ∷ []
insert_by_priority t (u ∷ us) =
    let later = insert_by_priority t us in
    if number_lt u.priority t.priority then u ∷ later else t ∷ u ∷ us

unfoldable pub sort_by_priority : List TransitionSpec → List TransitionSpec
unfolding insert_by_priority
sort_by_priority [] = []
sort_by_priority (t ∷ ts) = insert_by_priority t (sort_by_priority ts)

module _ (e : Engine) where
  -- The loop over the sorted transitions: the first whose guard matches is taken.
  unfoldable pub first_match :
      List TransitionSpec → Dict Value → Dict (Dict Value) → Result TransitionSpec
  first_match [] inputs stage_outputs = err no_transition_matched
  first_match (t ∷ ts) inputs stage_outputs =
      evaluate_guard e t.guard inputs stage_outputs >>= λ matched.
      let rest = first_match ts inputs stage_outputs in if matched then ok t else rest

  unfoldable pub select_transition :
      StageSpec → Dict Value → Dict (Dict Value) → Result TransitionSpec
  unfolding first_match sort_by_priority
  select_transition stage inputs stage_outputs =
      first_match (sort_by_priority stage.transitions) inputs stage_outputs
