-- ===== src/Ir/Approval.antt =====
-- ir.ts and runtime.ts: the confirmation before `browser.js.sandbox`, from the checks to the calls.
use nemoir_web_runtime.Prelude.{
  ◌≡◌, refl, sym, ap, subst, ◌∙◌, Bool, true, false, not, ◌&&◌, Option, List, [], ◌∷◌, ◌++◌, map,
  arith, some_of, Any, here, there, Bool-cases, inl, inr,
}
use nemoir_web_runtime.Errors.{Error, Result, ok, err}
use nemoir_web_runtime.Js.Text.{JsString, codes, ◌==◌, eq_iff}
use nemoir_web_runtime.Js.Value.{Value}
use nemoir_web_runtime.Js.Dict.{Dict}
use nemoir_web_runtime.Js.Group.{under, get_list-group}
use nemoir_web_runtime.Capabilities.{user_confirm, browser_js_sandbox}
use nemoir_web_runtime.Manifest.{StageSpec, RequiredCapabilitySpec, before, PolicySpec}
use nemoir_web_runtime.Tools.{wrap_outcome}
use nemoir_web_runtime.Events.{State, Call}
use nemoir_web_runtime.Policy.{Env, is_false, enforce_and_call}
use nemoir_web_runtime.Policy.Args.{policies_for, trigger_capability}
use nemoir_web_runtime.Policy.Granted.{
  required_of, required_by, Grants, Granted, done, next, AllRequired,
}
use nemoir_web_runtime.Policy.Gate.{Enforced, requirements, enforce_and_call-Enforced}
use nemoir_web_runtime.Policy.Gate
use nemoir_web_runtime.Ir.{RequiredCapabilityJson, PolicyJson, WorkflowIrJson}
use nemoir_web_runtime.Ir.Conversion.{
  convert_kind, convert_required, list_or_empty, convert_policy, build_workflow_manifest,
}
use nemoir_web_runtime.Ir.Web.{
  WebValidationIssue, issue_if, is_bare_confirm, is_sandbox_approval_policy, sandbox_is_used,
  validate_for_web, part_issues, no_approval_issues, no_confirm_issues,
}

append-empty : (xs ys : List WebValidationIssue) → xs ++ ys ≡ [] → (xs ≡ []) × (ys ≡ [])
append-empty [] ys h = (refl, h)
append-empty (x ∷ xs) ys h = absurd (ground arith)

issue_if-empty : (b : Bool) (path : JsString) → issue_if b path ≡ [] → b ≡ false
issue_if-empty true path h = absurd (ground arith)
issue_if-empty false path h = refl

module _ {A : Type 0} where
  some_of-Any : (p : A → Bool) (xs : List A) → some_of p xs ≡ true → Any (λ x. p x ≡ true) xs
  some_of-Any p [] h = absurd (ground arith)
  some_of-Any p (x ∷ xs) h = elim (Bool-cases (p x)) [
    | inl holds ↦ here holds
    | inr fails ↦ there (some_of-Any p xs (ground arith))
  ]

  Any-first : {P : A → Type 0} {xs : List A} (ys : List A) → Any P xs → Any P (xs ++ ys)
  Any-first ys (here h) = here h
  Any-first ys (there h) = there (Any-first ys h)

  Any-second : {P : A → Type 0} (xs : List A) {ys : List A} → Any P ys → Any P (xs ++ ys)
  Any-second [] h = h
  Any-second (x ∷ xs) h = there (Any-second xs h)

-- The checks find an approval policy where the sandbox is used.
approval-Any :
    (ir : WorkflowIrJson)
    → validate_for_web ir ≡ []
    → sandbox_is_used ir ≡ true
    → Any (λ p. is_sandbox_approval_policy p ≡ true) ir.policies
unfolding validate_for_web no_approval_issues
approval-Any ir h used =
    let rest =
      (append-empty (part_issues ir) (no_approval_issues ir ++ no_confirm_issues ir) h).1 in
    let issue = (append-empty (no_approval_issues ir) (no_confirm_issues ir) rest).0 in
    let missing =
      issue_if-empty (sandbox_is_used ir && not (some_of is_sandbox_approval_policy ir.policies))
        (codes "policies") issue in
    some_of-Any is_sandbox_approval_policy ir.policies (ground arith)

abbrev IsConfirm : RequiredCapabilitySpec → Type 0
IsConfirm req = req.capability ≡ user_confirm

IsConfirm-Any :
    {reqs : List RequiredCapabilityJson}
    → Any (λ r. is_bare_confirm r ≡ true) reqs
    → Any IsConfirm (map convert_required reqs)
unfolding convert_required
IsConfirm-Any (here {x} h) = here (ground (arith, eq_iff x.capability user_confirm))
IsConfirm-Any (there h) = there (IsConfirm-Any h)

-- What the conversion makes of an approval policy.
record Approves (p : PolicySpec) : Type 0 where
  is_before : p.kind ≡ before
  on_sandbox : p.trigger.capability ≡ browser_js_sandbox
  confirms : Any IsConfirm p.requires

convert-Approves :
    (p : PolicyJson) → is_sandbox_approval_policy p ≡ true → Approves (convert_policy p)
unfolding is_sandbox_approval_policy convert_policy convert_kind
convert-Approves p h = record {
  is_before = ground arith;
  on_sandbox = ground (arith, eq_iff p.trigger.capability browser_js_sandbox);
  confirms = IsConfirm-Any (some_of-Any is_bare_confirm (list_or_empty p.requires) (ground arith));
}

policies-Any :
    {ps : List PolicyJson}
    → Any (λ p. is_sandbox_approval_policy p ≡ true) ps
    → Any Approves (map convert_policy ps)
policies-Any (here {x} h) = here (convert-Approves x h)
policies-Any (there h) = there (policies-Any h)

required-Any :
    {ps : List PolicySpec}
    → Any Approves ps
    → Any IsConfirm (required_by (under trigger_capability browser_js_sandbox ps))
unfolding under
required-Any (here {x} {xs} a) =
    let same : (trigger_capability x == browser_js_sandbox) ≡ true =
      (eq_iff x.trigger.capability browser_js_sandbox).1 a.on_sandbox in
    rw same (Any-first {xs = required_of x x.kind} _ (rw a.is_before a.confirms))
required-Any (there {x} {xs} h) = elim (Bool-cases (trigger_capability x == browser_js_sandbox)) [
  | inl same ↦ rw same (Any-second (required_of x x.kind) (required-Any h))
  | inr other ↦ rw other (required-Any h)
]

-- A call of `user.confirm` that was answered, and not with false.
pub record Confirmed (c : Call) : Type 0 where
  pub is_confirm : c.capability ≡ user_confirm
  pub answer : Value
  pub answered : wrap_outcome c.outcome ≡ ok answer
  pub agreed : is_false answer ≡ false

Grants-Confirmed :
    (req : RequiredCapabilitySpec) (c : Call) → IsConfirm req → Grants req c → Confirmed c
Grants-Confirmed req c h g = record {
  is_confirm = g.same ∙ h;
  answer = g.answer;
  answered = g.answered;
  agreed = ground (arith, eq_iff req.capability user_confirm, g.agreed);
}

Granted-Any :
    {reqs : List RequiredCapabilitySpec} {cs : List Call}
    → Granted reqs cs
    → Any IsConfirm reqs
    → Any Confirmed cs
Granted-Any done h = elim h [ ]
Granted-Any (next g gs) (here h) = here (Grants-Confirmed _ _ h g)
Granted-Any (next g gs) (there h) = there (Granted-Any gs h)

-- The handler calls of a call of the sandbox: refused, after calls that policies require at most, or
-- the sandbox ran last, after a confirmation.
pub data Approved (reqs : List RequiredCapabilitySpec) : Result Value → List Call → Type 0 where
  refused : {e : Error} {cs : List Call} → AllRequired reqs cs → Approved reqs (err e) cs
  confirmed :
      {r : Result Value} {cs : List Call} (approvals : List Call) (c : Call)
      → Any Confirmed approvals
      → c.capability ≡ browser_js_sandbox
      → cs ≡ approvals ++ c ∷ []
      → Approved reqs r cs

Enforced-Approved :
    (reqs : List RequiredCapabilitySpec) (args : Dict Value) (r : Result Value) (cs : List Call)
    → Any IsConfirm reqs
    → Enforced reqs browser_js_sandbox args r cs
    → Approved reqs r cs
Enforced-Approved reqs args r cs h (Gate.refused all) = refused all
Enforced-Approved reqs args r cs h (Gate.ran _ approvals c g same _ _ split) =
    confirmed approvals c (Granted-Any g h) same split

-- Where a decoded workflow passes the checks of the web target and some tool stage runs
-- `browser.js.sandbox`, then under the policies of the manifest built from it a call of the sandbox, by
-- any stage, with any tools and arguments, either ends in an error and no handler ran but those of
-- required capabilities, or the sandbox's handler ran, last, after a `user.confirm` that was answered
-- without an error and not with false.
pub validate_for_web-Approved :
    (ir : WorkflowIrJson) (env : Env) (stage : StageSpec) (args : Dict Value)
    (tool_name : Option JsString) (s : State)
    → validate_for_web ir ≡ []
    → sandbox_is_used ir ≡ true
    → env.policies ≡ (build_workflow_manifest ir).policies
    → (made : List Call) × ((enforce_and_call env stage browser_js_sandbox args tool_name s).1.calls
        ≡ s.calls ++ made)
      × Approved
          (requirements env stage browser_js_sandbox args)
          (enforce_and_call env stage browser_js_sandbox args tool_name s).0
          made
unfolding policies_for build_workflow_manifest
validate_for_web-Approved ir env stage args tool_name s valid used same =
    let (made, calls, enforced) =
      enforce_and_call-Enforced env stage browser_js_sandbox args tool_name s in
    let confirms = required-Any (policies-Any (approval-Any ir valid used)) in
    let grouped =
      ap (λ (ps : List PolicySpec). required_by ps)
        (get_list-group trigger_capability browser_js_sandbox env.policies
          ∙ ap (λ (ps : List PolicySpec). under trigger_capability browser_js_sandbox ps) same) in
    (
      made,
      calls,
      Enforced-Approved _ args _ made (subst (Any IsConfirm) (sym grouped) confirms) enforced,
    )
