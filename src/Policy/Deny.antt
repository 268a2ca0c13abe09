-- ===== src/Policy/Deny.antt =====
-- runtime.ts: calls that a deny policy applies to.
use nemoir_web_runtime.Prelude.{
  ℕ, ◌≡◌, refl, ap, ◌∙◌, ◌⊎◌, inl, inr, true, Option, none, some, List, Any, here, there, length,
  Bool-cases,
}
use nemoir_web_runtime.Errors.{Error, Result, ok, err}
use nemoir_web_runtime.Js.Text.{JsString, contains}
use nemoir_web_runtime.Js.Value.{Value, to_boolean}
use nemoir_web_runtime.Js.Dict.{Dict}
use nemoir_web_runtime.Manifest.{ExprSpec, StageSpec, PolicyKind, deny, PolicySpec}
use nemoir_web_runtime.Events.{Exec, State, lift, continue, ◌>>=◌, ◌>>◌}
use nemoir_web_runtime.Events.Calls.{Quiet, Quiet-bind, Quiet-lift}
use nemoir_web_runtime.Policy.Args.{policies_for, bind_trigger_args}
use nemoir_web_runtime.Policy.{
  Env, pick_tool, run_preflight, deny_verdict, deny_outcome, eval_condition, deny_decided,
  deny_condition, deny_policy, deny_policies, with_policies, before_policies, enforce_and_call,
}
use nemoir_web_runtime.Policy.ToolCall.{deny_policies-Quiet}

-- `m` throws in every state.
pub record Fails {ℓ} {A : Type ℓ} (m : Exec A) : Type ℓ where
  pub at : (s : State) → (e : Error) × ((m s).0 ≡ err e)

module _ {ℓ κ} {A : Type ℓ} {B : Type κ} where
  continue-Fails :
      (r : Result A) (f : A → Exec B) (s : State) (e : Error)
      → r ≡ err e
      → (continue r f s).0 ≡ err e
  continue-Fails r f s e h = rw h

  continue-state :
      (r : Result A) (f : A → Exec B) (s : State) (e : Error) → r ≡ err e → (continue r f s).1 ≡ s
  continue-state r f s e h = rw h

  Fails-first : (m : Exec A) (f : A → Exec B) → Fails m → Fails (m >>= f)
  unfolding ◌>>=◌
  Fails-first m f h = record {
    at = λ s. let (e, failed) = h.at s in (e, continue-Fails (m s).0 f (m s).1 e failed);
  }

  continue-Fails_second :
      (r : Result A) (f : A → Exec B) (s : State)
      → ((a : A) → Fails (f a))
      → (e : Error) × ((continue r f s).0 ≡ err e)
  continue-Fails_second (ok a) f s h = (h a).at s
  continue-Fails_second (err e) f s h = (e, refl)

  Fails-second : (m : Exec A) (f : A → Exec B) → ((a : A) → Fails (f a)) → Fails (m >>= f)
  unfolding ◌>>=◌
  Fails-second m f h = record { at = λ s. continue-Fails_second (m s).0 f (m s).1 h }

  -- What follows a step that throws calls no handler either.
  Quiet-after_failure : (m : Exec A) (f : A → Exec B) → Quiet m → Fails m → Quiet (m >>= f)
  unfolding ◌>>=◌
  Quiet-after_failure m f quiet fails = record {
    at = λ s.
        let (e, failed) = fails.at s in
        ap (λ (t : State). t.calls) (continue-state (m s).0 f (m s).1 e failed) ∙ quiet.at s;
  }

module _ (env : Env) (stage : StageSpec) (cap : JsString) (args : Dict Value) where
  -- The policy denies the call: it is a deny policy, and a replayed trace says that it denied, or there
  -- is no such trace and its condition holds of the inputs and the arguments that it binds.
  pub record Denies (p : PolicySpec) : Type 0 where
    pub condition : ExprSpec
    pub bound_args : Dict Value
    pub verdict : Value
    pub is_deny : p.kind ≡ deny
    pub has_condition : p.condition ≡ some condition
    pub binds : bind_trigger_args p.trigger args ≡ ok bound_args
    pub holds :
        ((n : ℕ) → env.tape n p.id ≡ some true)
        ⊎ (((n : ℕ) → env.tape n p.id ≡ none)
            × (eval_condition env stage cap args condition bound_args ≡ ok verdict)
            × (to_boolean verdict ≡ true))

  verdict-Fails : (p : PolicySpec) → Fails (deny_verdict env stage cap args p true)
  unfolding deny_verdict
  verdict-Fails p = Fails-second _ _ (λ _. Fails-second _ _ (λ _. record { at = λ s. (_, refl) }))

  condition-Fails :
      (p : PolicySpec) → (d : Denies p) → Fails (deny_condition env stage cap args p d.condition)
  unfolding deny_condition deny_decided ◌>>=◌
  condition-Fails p d = record { at = λ s. rw d.binds (decided s d.holds) }
    where
      decided :
          (s : State)
          → ((n : ℕ) → env.tape n p.id ≡ some true)
            ⊎ (((n : ℕ) → env.tape n p.id ≡ none)
                × (eval_condition env stage cap args d.condition d.bound_args ≡ ok d.verdict)
                × (to_boolean d.verdict ≡ true))
          → (e : Error) × ((deny_decided env stage cap args p d.condition d.bound_args
                (env.tape (length s.log) p.id)
                s).0
              ≡ err e)
      decided s (inl taped) = rw (taped (length s.log)) ((verdict-Fails p).at s)
      decided s (inr (untaped, evaluated, truthy)) =
          rw (untaped (length s.log))
            (rw evaluated (unfold deny_outcome in rw truthy ((verdict-Fails p).at s)))

  round-Fails :
      (p : PolicySpec) (d : Denies p) (k : PolicyKind) (c : Option ExprSpec)
      → k ≡ deny
      → c ≡ some d.condition
      → Fails (deny_policy env stage cap args p k c)
  unfolding deny_policy
  round-Fails p d k c is_deny has = rw (is_deny, has) (condition-Fails p d)

  deny_policy-Fails :
      (p : PolicySpec) → Denies p → Fails (deny_policy env stage cap args p p.kind p.condition)
  deny_policy-Fails p d = round-Fails p d p.kind p.condition d.is_deny d.has_condition

  deny_policies-Fails :
      {ps : List PolicySpec} → Any Denies ps → Fails (deny_policies env stage cap args ps)
  unfolding deny_policies
  deny_policies-Fails (here d) = Fails-first _ _ (deny_policy-Fails _ d)
  deny_policies-Fails (there ds) = Fails-second _ _ (λ _. deny_policies-Fails ds)

  with_policies-lem :
      (tool_name : Option JsString) (section : List PolicySpec → Exec (Unit {0}))
      → Any Denies (policies_for cap env.policies)
      → Quiet (with_policies env stage cap args tool_name section)
        × Fails (with_policies env stage cap args tool_name section)
  unfolding with_policies
  with_policies-lem tool_name section denied =
      let first = lift (run_preflight (pick_tool env.registry cap tool_name) args) in
      let checks = deny_policies env stage cap args (policies_for cap env.policies) in
      let quiet : Quiet (first >> checks) =
        Quiet-bind first _ (Quiet-lift _) (λ _. deny_policies-Quiet env stage cap args _) in
      let fails : Fails (first >> checks) =
        Fails-second first _ (λ _. deny_policies-Fails denied) in
      let middle = section (policies_for cap env.policies) in
      (
        Quiet-after_failure (first >> checks >> middle) _
            (Quiet-after_failure (first >> checks) _ quiet fails)
            (Fails-first (first >> checks) _ fails),
        Fails-first (first >> checks >> middle) _ (Fails-first (first >> checks) _ fails),
      )

  -- If some deny policy on the capability denies the call, the call ends in an error, whatever the other
  -- policies are, and no handler runs: not the tool's, and not that of a call that a policy requires.
  pub enforce_and_call-denied :
      (tool_name : Option JsString) (s : State)
      → Any Denies (policies_for cap env.policies)
      → (e : Error) × ((enforce_and_call env stage cap args tool_name s).0 ≡ err e)
        × ((enforce_and_call env stage cap args tool_name s).1.calls ≡ s.calls)
  unfolding enforce_and_call
  enforce_and_call-denied tool_name s denied = elim (Bool-cases (contains stage.requires cap)) [
    | inl visible ↦
        let (quiet, fails) =
          with_policies-lem tool_name (before_policies env stage cap args) denied in
        let (e, failed) = fails.at s in rw visible (e, failed, quiet.at s)
    | inr hidden ↦ rw hidden (_, refl, refl)
  ]
