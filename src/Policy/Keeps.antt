-- ===== src/Policy/Keeps.antt =====
-- runtime.ts: predicates of the state that policy enforcement keeps.
use nemoir_web_runtime.Prelude.{refl, Bool, ◌&&◌, Option, none, some, List, [], ◌∷◌, length}
use nemoir_web_runtime.Errors.{Result, ok, err, data_unavailable}
use nemoir_web_runtime.Js.Text.{JsString, ◌==◌, contains}
use nemoir_web_runtime.Js.Value.{Value, to_boolean}
use nemoir_web_runtime.Js.Dict.{Dict}
use nemoir_web_runtime.Manifest.{
  ExprSpec, StageSpec, RequiredCapabilitySpec, PolicyKind, before, deny, other_kind, PolicySpec,
}
use nemoir_web_runtime.Tools.{Tool, tool_to_call}
use nemoir_web_runtime.Events.{Exec, State}
use nemoir_web_runtime.Events.Sequence.{
  Keeps, Keeps-lift, Keeps-pure, Keeps-throw, Keeps-if, Keeps-bind,
}
use nemoir_web_runtime.Events.Predicates.{LogPredicate}
use nemoir_web_runtime.Capabilities.{user_confirm}
use nemoir_web_runtime.Policy.{
  Env, is_false, deny_verdict, deny_outcome, deny_decided, deny_condition, deny_policy,
  deny_policies, run_handler, registry_call, settle, tool_call, with_policies, required_call,
  after_required, require_one, require_all, before_checked_event, before_policy, before_policies,
  enforce_and_call,
}

module _ (P : State → Type 0) (log : LogPredicate P) (env : Env) (stage : StageSpec)
    (cap : JsString) (args : Dict Value) where
  verdict : (p : PolicySpec) (d : Bool) → Keeps P (deny_verdict env stage cap args p d)
  unfolding deny_verdict
  verdict p d =
      Keeps-bind _ _ (Keeps-bind _ _ (log.emits _ refl) (λ _. log.records _ refl))
        (λ _. Keeps-if d (Keeps-bind _ _ (log.emits _ refl) (λ _. Keeps-throw _)) (Keeps-pure tt))

  outcome : (p : PolicySpec) (r : Result Value) → Keeps P (deny_outcome env stage cap args p r)
  unfolding deny_outcome
  outcome p (ok v) = verdict p (to_boolean v)
  outcome p (err data_unavailable) =
      Keeps-bind _ _ (Keeps-bind _ _ (log.emits _ refl) (λ _. log.records _ refl))
        (λ _. Keeps-throw _)
  outcome p (err e) = Keeps-throw e

  decided :
      (p : PolicySpec) (c : ExprSpec) (bound : Dict Value) (taped : Option Bool)
      → Keeps P (deny_decided env stage cap args p c bound taped)
  unfolding deny_decided
  decided p c bound (some d) = verdict p d
  decided p c bound none = outcome p _

  round :
      (p : PolicySpec) (k : PolicyKind) (c : Option ExprSpec)
      → Keeps P (deny_policy env stage cap args p k c)
  unfolding deny_policy deny_condition
  round p deny (some c) =
      Keeps-bind _ _ (Keeps-lift _)
        (λ bound. record { at = λ s. (decided p c bound (env.tape (length s.log) p.id)).at s })
  round p deny none = Keeps-pure tt
  round p before c = Keeps-pure tt
  round p (other_kind k) c = Keeps-pure tt

  deny_rounds : (ps : List PolicySpec) → Keeps P (deny_policies env stage cap args ps)
  unfolding deny_policies
  deny_rounds [] = Keeps-pure tt
  deny_rounds (p ∷ ps) = Keeps-bind _ _ (round p p.kind p.condition) (λ _. deny_rounds ps)

  handler : (r : Result Tool) → Keeps P (run_handler env stage cap args r)
  unfolding run_handler
  handler (err e) = record { at = λ s h. h }
  handler (ok tool) = record { at = λ s h. log.calls s _ h }

  settled : (name : JsString) (r : Result Value) → Keeps P (settle env stage cap args name r)
  unfolding settle
  settled name (ok v) =
      Keeps-bind _ _ (Keeps-bind _ _ (log.records _ refl) (λ _. log.emits _ refl))
        (λ _. Keeps-pure v)
  settled name (err e) =
      Keeps-bind _ _ (Keeps-bind _ _ (log.records _ refl) (λ _. log.emits _ refl))
        (λ _. Keeps-throw e)

  tool_call-Keeps : (tool_name : Option JsString) → Keeps P (tool_call env stage cap args tool_name)
  unfolding tool_call registry_call
  tool_call-Keeps tool_name =
      Keeps-bind _ _ (Keeps-bind _ _ (log.records _ refl) (λ _. log.emits _ refl)) (λ _. record {
        at = λ s h. (settled _ _).at _ ((handler (tool_to_call cap tool_name env.registry)).at s h);
      })

  with_policies-Keeps :
      (tool_name : Option JsString) (section : List PolicySpec → Exec (Unit {0}))
      → ((ps : List PolicySpec) → Keeps P (section ps))
      → Keeps P (with_policies env stage cap args tool_name section)
  unfolding with_policies
  with_policies-Keeps tool_name section h =
      Keeps-bind _ _
        (Keeps-bind _ _ (Keeps-bind _ _ (Keeps-lift _) (λ _. deny_rounds _)) (λ _. h _))
        (λ _. tool_call-Keeps tool_name)

required_call-Keeps :
    (P : State → Type 0) (log : LogPredicate P) (env : Env) (stage : StageSpec) (cap : JsString)
    (args : Dict Value)
    → Keeps P (required_call env stage cap args)
unfolding required_call
required_call-Keeps P log env stage cap args =
    with_policies-Keeps P log env stage cap args none _ (λ ps. Keeps-pure tt)

module _ (P : State → Type 0) (log : LogPredicate P) (env : Env) (stage : StageSpec)
    (cap : JsString) (args : Dict Value) where
  answered :
      (p : PolicySpec) (req : RequiredCapabilitySpec) (v : Value)
      → Keeps P (after_required env stage cap args p req v)
  unfolding after_required
  answered p req v =
      Keeps-if (req.capability == user_confirm && is_false v)
        (Keeps-bind _ _ (Keeps-bind _ _ (log.emits _ refl) (λ _. log.records _ refl))
          (λ _. Keeps-throw _))
        (Keeps-pure tt)

  requirement :
      (p : PolicySpec) (bound : Dict Value) (req : RequiredCapabilitySpec)
      → Keeps P (require_one env stage cap args p bound req)
  unfolding require_one
  requirement p bound req = Keeps-bind _ _ (Keeps-lift _) (λ resolved.
      Keeps-bind _ _
        (Keeps-bind _ _ (Keeps-lift _) (λ _. required_call-Keeps P log env stage req.capability _))
        (λ v. answered p req v))

  requirements :
      (p : PolicySpec) (bound : Dict Value) (reqs : List RequiredCapabilitySpec)
      → Keeps P (require_all env stage cap args p bound reqs)
  unfolding require_all
  requirements p bound [] = Keeps-pure tt
  requirements p bound (req ∷ reqs) =
      Keeps-bind _ _ (requirement p bound req) (λ _. requirements p bound reqs)

  before_event : (p : PolicySpec) → Keeps P (before_checked_event env stage cap args p)
  unfolding before_checked_event
  before_event p = Keeps-if env.live (log.emits _ refl) (Keeps-pure tt)

  before_round : (p : PolicySpec) (k : PolicyKind) → Keeps P (before_policy env stage cap args p k)
  unfolding before_policy
  before_round p deny = Keeps-pure tt
  before_round p (other_kind k) = Keeps-pure tt
  before_round p before = Keeps-bind _ _ (Keeps-lift _) (λ bound.
      Keeps-bind _ _ (Keeps-bind _ _ (before_event p) (λ _. requirements p bound p.requires))
        (λ _. log.records _ refl))

  before_rounds : (ps : List PolicySpec) → Keeps P (before_policies env stage cap args ps)
  unfolding before_policies
  before_rounds [] = Keeps-pure tt
  before_rounds (p ∷ ps) = Keeps-bind _ _ (before_round p p.kind) (λ _. before_rounds ps)

  -- A call through the policies keeps such a predicate.
  pub enforce_and_call-Keeps :
      (tool_name : Option JsString) → Keeps P (enforce_and_call env stage cap args tool_name)
  unfolding enforce_and_call
  enforce_and_call-Keeps tool_name =
      Keeps-if (contains stage.requires cap)
        (with_policies-Keeps P log env stage cap args tool_name _ before_rounds) (Keeps-throw _)
