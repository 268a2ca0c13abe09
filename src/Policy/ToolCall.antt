-- ===== src/Policy/ToolCall.antt =====
-- runtime.ts: the handler calls of the deny policies and of one tool call.
use nemoir_web_runtime.Prelude.{
  ◌≡◌, refl, sym, ◌∙◌, Bool, Option, none, some, List, [], ◌∷◌, append-nil, length,
}
use nemoir_web_runtime.Errors.{Error, Result, ok, err, data_unavailable}
use nemoir_web_runtime.Js.Text.{JsString}
use nemoir_web_runtime.Js.Value.{Value, to_boolean}
use nemoir_web_runtime.Js.Dict.{Dict}
use nemoir_web_runtime.Manifest.{
  ExprSpec, StageSpec, PolicyKind, before, deny, other_kind, PolicySpec,
}
use nemoir_web_runtime.Tools.{Tool, tool_to_call, wrap_outcome}
use nemoir_web_runtime.Events.{State, Call, ◌>>=◌, emit, record_entry}
use nemoir_web_runtime.Events.Calls.{
  Quiet, Makes, quiet_rules, Quiet-lift, Quiet-pure, Quiet-throw, Quiet-emit, Quiet-record,
  Quiet-bind, Makes-after_quiet,
}
use nemoir_web_runtime.Policy.{
  Env, deny_verdict, deny_outcome, deny_decided, deny_condition, deny_policy, deny_policies,
  run_handler, registry_call, settle, tool_call,
}

module _ (env : Env) (stage : StageSpec) (cap : JsString) (args : Dict Value) where
  verdict-Quiet :
      (p : PolicySpec) (denied : Bool) → Quiet (deny_verdict env stage cap args p denied)
  unfolding deny_verdict
  verdict-Quiet p denied = search quiet_rules

  outcome-Quiet : (p : PolicySpec) (r : Result Value) → Quiet (deny_outcome env stage cap args p r)
  unfolding deny_outcome
  outcome-Quiet p (ok v) = verdict-Quiet p (to_boolean v)
  outcome-Quiet p (err data_unavailable) = search quiet_rules
  outcome-Quiet p (err e) = Quiet-throw e

  decided-Quiet :
      (p : PolicySpec) (c : ExprSpec) (bound : Dict Value) (taped : Option Bool)
      → Quiet (deny_decided env stage cap args p c bound taped)
  unfolding deny_decided
  decided-Quiet p c bound (some denied) = verdict-Quiet p denied
  decided-Quiet p c bound none = outcome-Quiet p _

  deny_policy-Quiet :
      (p : PolicySpec) (k : PolicyKind) (c : Option ExprSpec)
      → Quiet (deny_policy env stage cap args p k c)
  unfolding deny_policy deny_condition
  deny_policy-Quiet p deny (some c) =
      Quiet-bind _ _ (Quiet-lift _) (λ bound. record {
        at = λ s. (decided-Quiet p c bound (env.tape (length s.log) p.id)).at s;
      })
  deny_policy-Quiet p deny none = Quiet-pure tt
  deny_policy-Quiet p before c = Quiet-pure tt
  deny_policy-Quiet p (other_kind k) c = Quiet-pure tt

  -- Deny policies are evaluated without a call of any handler.
  pub deny_policies-Quiet : (ps : List PolicySpec) → Quiet (deny_policies env stage cap args ps)
  unfolding deny_policies
  deny_policies-Quiet [] = Quiet-pure tt
  deny_policies-Quiet (p ∷ ps) =
      Quiet-bind _ _ (deny_policy-Quiet p p.kind p.condition) (λ _. deny_policies-Quiet ps)

  -- The calls that a tool call makes: none, if the registry has no such tool, or the handler's.
  pub data Called : Result Value → List Call → Type 0 where
    not_called : {e : Error} → Called (err e) []
    called :
        (r : Result Value) (c : Call)
        → c.capability ≡ cap
        → c.args ≡ args
        → r ≡ wrap_outcome c.outcome
        → Called r (c ∷ [])

  settle-lem :
      (name : JsString) (r : Result Value) (s : State)
      → ((settle env stage cap args name r s).0 ≡ r)
        × ((settle env stage cap args name r s).1.calls ≡ s.calls)
  unfolding settle ◌>>=◌ emit record_entry
  settle-lem name (ok v) s = (refl, refl)
  settle-lem name (err e) s = (refl, refl)

  run_handler-Makes : (r : Result Tool) → Makes (run_handler env stage cap args r) Called
  unfolding run_handler
  run_handler-Makes (err e) = record { at = λ s. ([], sym (append-nil s.calls), not_called) }
  run_handler-Makes (ok tool) = record { at = λ s. (_, refl, called _ _ refl refl refl) }

  pub tool_call-Makes :
      (tool_name : Option JsString) → Makes (tool_call env stage cap args tool_name) Called
  unfolding tool_call registry_call
  tool_call-Makes tool_name =
      Makes-after_quiet Called _ _ (Quiet-bind _ _ (Quiet-record _) (λ _. Quiet-emit _))
        (λ e. not_called)
        (λ _. record {
          at = λ s.
              let (made, calls, post) =
                (run_handler-Makes (tool_to_call cap tool_name env.registry)).at s in
              let (same, quiet) = settle-lem _ _ _ in (made, quiet ∙ calls, rw same post);
        })
