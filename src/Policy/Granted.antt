-- ===== src/Policy/Granted.antt =====
-- What the before policies require, and the handler calls that meet it.
use nemoir_web_runtime.Prelude.{◌≡◌, true, false, ◌&&◌, List, [], ◌∷◌, ◌++◌, map, arith, All}
use nemoir_web_runtime.Errors.{Error, Result, ok, err}
use nemoir_web_runtime.Js.Text.{JsString, ◌==◌, contains, eq_iff}
use nemoir_web_runtime.Js.Value.{Value}
use nemoir_web_runtime.Capabilities.{user_confirm}
use nemoir_web_runtime.Manifest.{
  RequiredCapabilitySpec, PolicyKind, before, deny, other_kind, PolicySpec,
}
use nemoir_web_runtime.Tools.{wrap_outcome}
use nemoir_web_runtime.Events.{Call}
use nemoir_web_runtime.Policy.{is_false}

-- The calls that the before policies among `ps` require, in order.
abbrev pub required_of : PolicySpec → PolicyKind → List RequiredCapabilitySpec
required_of p before = p.requires
required_of p deny = []
required_of p (other_kind k) = []

abbrev pub required_by : List PolicySpec → List RequiredCapabilitySpec
required_by [] = []
required_by (p ∷ ps) = required_of p p.kind ++ required_by ps

abbrev pub required_capability : RequiredCapabilitySpec → JsString
required_capability r = r.capability

-- A call that meets a requirement: of its capability, answered without an error, and, if it is a
-- `user.confirm`, not answered false.
pub record Grants (req : RequiredCapabilitySpec) (c : Call) : Type 0 where
  pub same : c.capability ≡ req.capability
  pub answer : Value
  pub answered : wrap_outcome c.outcome ≡ ok answer
  pub agreed : (req.capability == user_confirm && is_false answer) ≡ false

-- One such call for each requirement, in order.
pub data Granted : List RequiredCapabilitySpec → List Call → Type 0 where
  done : Granted [] []
  next :
      {req : RequiredCapabilitySpec} {reqs : List RequiredCapabilitySpec} {c : Call}
      {cs : List Call}
      → Grants req c
      → Granted reqs cs
      → Granted (req ∷ reqs) (c ∷ cs)

pub Granted-append :
    {xs ys : List RequiredCapabilitySpec} {cs ds : List Call}
    → Granted xs cs
    → Granted ys ds
    → Granted (xs ++ ys) (cs ++ ds)
Granted-append done h = h
Granted-append (next g gs) h = next g (Granted-append gs h)

-- Every call is of a capability that is required.
abbrev pub AllRequired : List RequiredCapabilitySpec → List Call → Type 0
AllRequired reqs cs = All (λ c. contains (map required_capability reqs) c.capability ≡ true) cs

contains-weaken :
    (xs ys : List RequiredCapabilitySpec) (k : JsString)
    → contains (map required_capability ys) k ≡ true
    → contains (map required_capability (xs ++ ys)) k ≡ true
unfolding contains
contains-weaken [] ys k h = h
contains-weaken (x ∷ xs) ys k h = ground (arith, contains-weaken xs ys k h)

contains-extend :
    (xs ys : List RequiredCapabilitySpec) (k : JsString)
    → contains (map required_capability xs) k ≡ true
    → contains (map required_capability (xs ++ ys)) k ≡ true
unfolding contains
contains-extend [] ys k h = absurd (ground arith)
contains-extend (x ∷ xs) ys k h = ground (arith, contains-extend xs ys k)

pub AllRequired-weaken :
    (xs ys : List RequiredCapabilitySpec) (cs : List Call)
    → AllRequired ys cs
    → AllRequired (xs ++ ys) cs
AllRequired-weaken xs ys [] h = tt
AllRequired-weaken xs ys (c ∷ cs) (h, hs) =
    (contains-weaken xs ys c.capability h, AllRequired-weaken xs ys cs hs)

pub AllRequired-extend :
    (xs ys : List RequiredCapabilitySpec) (cs : List Call)
    → AllRequired xs cs
    → AllRequired (xs ++ ys) cs
AllRequired-extend xs ys [] h = tt
AllRequired-extend xs ys (c ∷ cs) (h, hs) =
    (contains-extend xs ys c.capability h, AllRequired-extend xs ys cs hs)

pub Granted-AllRequired :
    {reqs : List RequiredCapabilitySpec} {cs : List Call} → Granted reqs cs → AllRequired reqs cs
unfolding contains
Granted-AllRequired done = tt
Granted-AllRequired (next {req} {reqs} {c} {cs} g gs) = (
  ground (arith, eq_iff req.capability c.capability, g.same),
  AllRequired-weaken (req ∷ []) reqs cs (Granted-AllRequired gs),
)

-- The outcome of the calls that are required: all granted, or stopped at an error.
pub data Cleared (reqs : List RequiredCapabilitySpec) : Result (Unit {0}) → List Call → Type 0 where
  cleared : {cs : List Call} → Granted reqs cs → Cleared reqs (ok tt) cs
  stopped : {e : Error} {cs : List Call} → AllRequired reqs cs → Cleared reqs (err e) cs
