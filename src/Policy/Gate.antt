-- ===== src/Policy/Gate.antt =====
-- runtime.ts: the handler calls of `enforceAndCall`.
use nemoir_web_runtime.Prelude.{
  ◌≡◌, refl, sym, subst, ◌∙◌, true, false, ◌&&◌, Option, none, List, [], ◌∷◌, ◌++◌, map, arith,
  append-nil, All-append, ◌⊎◌, Bool-cases, inl, inr,
}
use nemoir_web_runtime.Errors.{Error, Result, ok, err}
use nemoir_web_runtime.Js.Text.{JsString, ◌==◌, contains, eq_iff}
use nemoir_web_runtime.Js.Value.{Value}
use nemoir_web_runtime.Js.Dict.{Dict}
use nemoir_web_runtime.Capabilities.{user_confirm}
use nemoir_web_runtime.Manifest.{
  StageSpec, RequiredCapabilitySpec, PolicyKind, before, deny, other_kind, PolicySpec,
}
use nemoir_web_runtime.Tools.{wrap_outcome}
use nemoir_web_runtime.Events.{
  Exec, State, Call, Entry, ◌>>=◌, ◌>>◌, emit, record_entry, policy_recorded,
}
use nemoir_web_runtime.Events.Calls.{
  Quiet, Makes, quiet_rules, Quiet-lift, Quiet-pure, Quiet-bind, Makes-after_quiet, Makes-bind,
}
use nemoir_web_runtime.Policy.Args.{policies_for}
use nemoir_web_runtime.Policy.{
  Env, is_false, with_policies, required_call, after_required, require_one, require_all,
  before_checked_event, before_policy, before_policies, enforce_and_call,
}
use nemoir_web_runtime.Policy.ToolCall.{
  Called, not_called, called, deny_policies-Quiet, tool_call-Makes,
}
use nemoir_web_runtime.Policy.Granted.{
  required_of, required_by, required_capability, Granted, Granted-append, AllRequired,
  AllRequired-weaken, AllRequired-extend, Granted-AllRequired, Cleared, done, next, cleared,
  stopped,
}

-- The handler calls of an enforced call. It is refused, and then at most calls that policies require
-- were made; or the handler ran after a granted call for each requirement.
pub data Enforced (reqs : List RequiredCapabilitySpec) (cap : JsString) (args : Dict Value)
    : Result Value → List Call → Type 0 where
  refused : {e : Error} {cs : List Call} → AllRequired reqs cs → Enforced reqs cap args (err e) cs
  ran :
      (r : Result Value) (approvals : List Call) (c : Call) {cs : List Call}
      → Granted reqs approvals
      → c.capability ≡ cap
      → c.args ≡ args
      → r ≡ wrap_outcome c.outcome
      → cs ≡ approvals ++ c ∷ []
      → Enforced reqs cap args r cs

module _ (env : Env) (stage : StageSpec) where
  required_call-Makes :
      (cap : JsString) (args : Dict Value)
      → Makes (required_call env stage cap args) (Called env stage cap args)
  unfolding required_call with_policies
  required_call-Makes cap args =
      Makes-after_quiet (Called env stage cap args) _ _
        (Quiet-bind _ _
          (Quiet-bind _ _ (Quiet-lift _)
            (λ _. deny_policies-Quiet env stage cap args (policies_for cap env.policies)))
          (λ _. Quiet-pure tt))
        (λ e. not_called) (λ _. tool_call-Makes env stage cap args none)

module _ (env : Env) (stage : StageSpec) (cap : JsString) (args : Dict Value) where
  after_required-lem :
      (p : PolicySpec) (req : RequiredCapabilitySpec) (v : Value) (s : State)
      → ((after_required env stage cap args p req v s).1.calls ≡ s.calls)
        × (((req.capability == user_confirm && is_false v) ≡ false)
              × ((after_required env stage cap args p req v s).0 ≡ ok tt)
            ⊎ ((e : Error) × ((after_required env stage cap args p req v s).0 ≡ err e)))
  unfolding after_required ◌>>=◌ emit record_entry
  after_required-lem p req v s = elim (Bool-cases (req.capability == user_confirm && is_false v)) [
    | inl denies ↦ rw denies (refl, inr (_, refl))
    | inr agreed ↦ rw agreed (refl, inl (refl, refl))
  ]

  required-contains :
      (req : RequiredCapabilitySpec) (c : Call)
      → c.capability ≡ req.capability
      → contains (map required_capability (req ∷ [])) c.capability ≡ true
  unfolding contains
  required-contains req c same = ground (arith, eq_iff req.capability c.capability)

  Called-stopped :
      (req : RequiredCapabilitySpec) (req_args : Dict Value) (e : Error) (cs : List Call)
      → Called env stage req.capability req_args (err e) cs
      → Cleared (req ∷ []) (err e) cs
  Called-stopped req req_args e cs not_called = stopped tt
  Called-stopped req req_args e cs (called r c same _ _) =
      stopped (required-contains req c same, tt)

  Called-Cleared :
      (p : PolicySpec) (req : RequiredCapabilitySpec) (req_args : Dict Value) (v : Value)
      (cs : List Call)
      → Called env stage req.capability req_args (ok v) cs
      → Makes (after_required env stage cap args p req v) (λ r ds. Cleared (req ∷ []) r (cs ++ ds))
  Called-Cleared p req req_args v cs (called r c same _ wrapped) = record {
    at = λ s.
        let (quiet, outcome) = after_required-lem p req v s in
        (
          [],
          quiet ∙ sym (append-nil s.calls),
          elim outcome [
            | inl (agreed, fine) ↦ rw fine (
                cleared (
                  next (record { same = same; answer = v; answered = sym wrapped; agreed = agreed })
                    done))
            | inr (e, failed) ↦ rw failed (stopped (required-contains req c same, tt))
          ],
        );
  }

  require_one-Makes :
      (p : PolicySpec) (bound : Dict Value) (req : RequiredCapabilitySpec)
      → Makes (require_one env stage cap args p bound req) (Cleared (req ∷ []))
  unfolding require_one
  require_one-Makes p bound req =
      Makes-after_quiet _ _ _ (Quiet-lift _) (λ e. stopped tt)
        (λ resolved.
          Makes-bind (Called env stage req.capability _) _ _ _
            (Makes-after_quiet _ _ _ (Quiet-lift _) (λ e. not_called)
              (λ _. required_call-Makes env stage req.capability _))
            (Called-stopped req _) (λ v cs. Called-Cleared p req _ v cs))

  -- What is required later leaves the calls made so far as they are.
  Cleared-then :
      (xs ys : List RequiredCapabilitySpec) (m : Exec (Unit {0})) (cs : List Call)
      → Cleared xs (ok tt) cs
      → Makes m (Cleared ys)
      → Makes m (λ r ds. Cleared (xs ++ ys) r (cs ++ ds))
  Cleared-then xs ys m cs (cleared g) hm = record {
    at = λ s. let (made, calls, post) = hm.at s in (made, calls, extend made post);
  }
    where
      extend :
          {r : Result (Unit {0})} (ds : List Call)
          → Cleared ys r ds
          → Cleared (xs ++ ys) r (cs ++ ds)
      extend ds (cleared h) = cleared (Granted-append g h)
      extend ds (stopped h) = stopped (
          All-append _ cs ds (AllRequired-extend xs ys cs (Granted-AllRequired g))
            (AllRequired-weaken xs ys ds h))

  Cleared-bind :
      (xs ys : List RequiredCapabilitySpec) (m : Exec (Unit {0})) (f : Unit {0} → Exec (Unit {0}))
      → Makes m (Cleared xs)
      → ((u : Unit {0}) → Makes (f u) (Cleared ys))
      → Makes (m >>= f) (Cleared (xs ++ ys))
  Cleared-bind xs ys m f hm hf =
      Makes-bind (Cleared xs) (Cleared (xs ++ ys)) m f hm (λ e cs c. stop e cs c)
        (λ u cs c. Cleared-then xs ys (f u) cs c (hf u))
    where
      stop : (e : Error) (cs : List Call) → Cleared xs (err e) cs → Cleared (xs ++ ys) (err e) cs
      stop e cs (stopped h) = stopped (AllRequired-extend xs ys cs h)

  require_all-Makes :
      (p : PolicySpec) (bound : Dict Value) (reqs : List RequiredCapabilitySpec)
      → Makes (require_all env stage cap args p bound reqs) (Cleared reqs)
  unfolding require_all
  require_all-Makes p bound [] = record { at = λ s. ([], sym (append-nil s.calls), cleared done) }
  require_all-Makes p bound (req ∷ reqs) =
      Cleared-bind (req ∷ []) reqs _ _ (require_one-Makes p bound req)
        (λ _. require_all-Makes p bound reqs)

  event-Quiet : (p : PolicySpec) → Quiet (before_checked_event env stage cap args p)
  unfolding before_checked_event
  event-Quiet p = search quiet_rules

  -- A step that calls no handler and does not throw.
  record-Makes : (entry : Entry) → Makes (record_entry entry) (Cleared [])
  unfolding record_entry
  record-Makes entry = record { at = λ s. ([], sym (append-nil s.calls), cleared done) }

  before_policy-Makes :
      (p : PolicySpec) (k : PolicyKind)
      → Makes (before_policy env stage cap args p k) (Cleared (required_of p k))
  unfolding before_policy
  before_policy-Makes p deny = record { at = λ s. ([], sym (append-nil s.calls), cleared done) }
  before_policy-Makes p (other_kind k) = record {
    at = λ s. ([], sym (append-nil s.calls), cleared done);
  }
  before_policy-Makes p before =
      Makes-after_quiet _ _ _ (Quiet-lift _) (λ e. stopped tt)
        (λ bound.
          subst
            (λ reqs.
              Makes
                (before_checked_event env stage cap args p
                  >> require_all env stage cap args p bound p.requires
                  >> record_entry (policy_recorded p.id false))
                (Cleared reqs))
            (append-nil p.requires)
            (Cleared-bind p.requires [] _ _
              (Makes-after_quiet _ _ _ (event-Quiet p) (λ e. stopped tt)
                (λ _. require_all-Makes p bound p.requires))
              (λ _. record-Makes _)))

  pub before_policies-Makes :
      (ps : List PolicySpec)
      → Makes (before_policies env stage cap args ps) (Cleared (required_by ps))
  unfolding before_policies
  before_policies-Makes [] = record { at = λ s. ([], sym (append-nil s.calls), cleared done) }
  before_policies-Makes (p ∷ ps) =
      Cleared-bind (required_of p p.kind) (required_by ps) _ _ (before_policy-Makes p p.kind)
        (λ _. before_policies-Makes ps)

  -- The requirements of the before policies on the capability.
  abbrev pub requirements : List RequiredCapabilitySpec
  requirements = required_by (policies_for cap env.policies)

  Called-ran :
      (reqs : List RequiredCapabilitySpec) (approvals cs : List Call) (r : Result Value)
      → Granted reqs approvals
      → Called env stage cap args r cs
      → Enforced reqs cap args r (approvals ++ cs)
  Called-ran reqs approvals cs r g not_called =
      refused (subst (AllRequired reqs) (sym (append-nil approvals)) (Granted-AllRequired g))
  Called-ran reqs approvals cs r g (called _ c same same_args wrapped) =
      ran r approvals c g same same_args wrapped refl

  Cleared-then-Called :
      (reqs : List RequiredCapabilitySpec) (m : Exec Value) (cs : List Call)
      → Cleared reqs (ok tt) cs
      → Makes m (Called env stage cap args)
      → Makes m (λ r ds. Enforced reqs cap args r (cs ++ ds))
  Cleared-then-Called reqs m cs (cleared g) hm = record {
    at = λ s.
        let (made, calls, post) = hm.at s in (made, calls, Called-ran reqs cs made (m s).0 g post);
  }

  stopped_refused :
      (reqs : List RequiredCapabilitySpec) (e : Error) (cs : List Call)
      → Cleared reqs (err e) cs
      → Enforced reqs cap args (err e) cs
  stopped_refused reqs e cs (stopped h) = refused h

  with_before-Makes :
      (tool_name : Option JsString)
      → Makes
          (with_policies env stage cap args tool_name (before_policies env stage cap args))
          (Enforced requirements cap args)
  unfolding with_policies
  with_before-Makes tool_name =
      Makes-bind (Cleared requirements) _ _ _
        (Makes-after_quiet _ _ _
          (Quiet-bind _ _ (Quiet-lift _)
            (λ _. deny_policies-Quiet env stage cap args (policies_for cap env.policies)))
          (λ e. stopped tt) (λ _. before_policies-Makes (policies_for cap env.policies)))
        (stopped_refused requirements)
        (λ u cs c.
          Cleared-then-Called requirements _ cs c (tool_call-Makes env stage cap args tool_name))

  -- Whatever the registry, the policies and the handlers do: the handler of a stage's call runs only
  -- after the calls that the before policies on its capability require, one for each requirement and in
  -- order, each answered without an error, and no required `user.confirm` answered false; and it runs
  -- once, on the call's arguments, with its outcome for result. Otherwise the call ends in an error, and
  -- the only handlers that ran are of required capabilities.
  pub enforce_and_call-Enforced :
      (tool_name : Option JsString) (s : State)
      → (made : List Call) × ((enforce_and_call env stage cap args tool_name s).1.calls
          ≡ s.calls ++ made)
        × Enforced requirements cap args (enforce_and_call env stage cap args tool_name s).0 made
  unfolding enforce_and_call
  enforce_and_call-Enforced tool_name s = elim (Bool-cases (contains stage.requires cap)) [
    | inl visible ↦ rw visible ((with_before-Makes tool_name).at s)
    | inr hidden ↦ rw hidden ([], sym (append-nil s.calls), refused tt)
  ]
