-- ===== src/Ir/Web.antt =====
-- ir.ts: the checks of the web target. An issue keeps its path and not its message.
use nemoir_web_runtime.Prelude.{
  Bool, true, false, not, ◌&&◌, Option, none, some, List, [], ◌∷◌, ◌++◌, if◌then◌else◌, some_of,
}
use nemoir_web_runtime.Js.Text.{JsString, codes, ◌==◌, includes, contains}
use nemoir_web_runtime.Js.Dict.{Dict, lookup, insert}
use nemoir_web_runtime.Capabilities.{
  user_confirm, browser_js_run, browser_js_sandbox, is_web_allowed_capability,
  is_deterministic_only,
}
use nemoir_web_runtime.Manifest.{ExecutionKind, model, tool}
use nemoir_web_runtime.Ir.{
  RefJson, input, node_output, bound, ExprJson, ref, literal, BindArgJson, WriteJson,
  StageCapabilityJson, NodeJson, RequiredCapabilityJson, PolicyJson, InputJson, WorkflowIrJson,
}
use nemoir_web_runtime.Ir.Conversion.{list_or_empty}

pub record WebValidationIssue : Type 0 where
  pub path : JsString

-- `if (test) issues.push(...)`
abbrev pub issue_if : Bool → JsString → List WebValidationIssue
issue_if true path = record { path = path } ∷ []
issue_if false path = []

-- A loop that pushes issues.
abbrev pub for_each :
    {A : Type 0} → (A → List WebValidationIssue) → List A → List WebValidationIssue
for_each f [] = []
for_each f (x ∷ xs) = f x ++ for_each f xs

unfoldable pub type_uses_path : JsString → Bool
type_uses_path ty = includes ty (codes "path")

abbrev binds_code : Option BindArgJson → Bool
binds_code none = false
binds_code (some b) = b.kind == codes "arg" && b.name == codes "code"

abbrev pub has_no_args : RequiredCapabilityJson → Bool
has_no_args req = elim req.args [ [] ↦ true | _ ∷ _ ↦ false ]

abbrev pub is_bare_confirm : RequiredCapabilityJson → Bool
is_bare_confirm req = req.capability == user_confirm && has_no_args req

unfoldable pub is_sandbox_approval_policy : PolicyJson → Bool
is_sandbox_approval_policy policy =
    (policy.kind == codes "before" && policy.trigger.capability == browser_js_sandbox)
    && (binds_code (lookup (codes "code") policy.trigger.bind)
        && some_of is_bare_confirm (list_or_empty policy.requires))

-- The maps of input types and of writes, a later entry in place of an earlier one.
input_types : List InputJson → Dict JsString → Dict JsString
input_types [] d = d
input_types (i ∷ is) d = input_types is (insert i.id i.type d)

writes_of : List WriteJson → Dict WriteJson → Dict WriteJson
writes_of [] d = d
writes_of (w ∷ ws) d = writes_of ws (insert w.name w d)

writes_per_node : List NodeJson → Dict (Dict WriteJson) → Dict (Dict WriteJson)
unfolding writes_of
writes_per_node [] d = d
writes_per_node (n ∷ ns) d = writes_per_node ns (insert n.id (writes_of n.writes []) d)

abbrev capability_is : Option JsString → JsString → Bool
capability_is none c = false
capability_is (some k) c = k == c

-- `node.execution.args?.["code"]`
abbrev code_of : Option (Dict ExprJson) → Option ExprJson
code_of none = none
code_of (some args) = lookup (codes "code") args

abbrev is_string_literal : ExprJson → Bool
is_string_literal (literal type value) = type == codes "string"
is_string_literal _ = false

abbrev execution_path : NodeJson → JsString
execution_path node = codes "nodes." ++ node.id ++ codes ".execution"

run_code_issues : NodeJson → Option ExprJson → List WebValidationIssue
run_code_issues node none = issue_if true (execution_path node ++ codes ".args")
run_code_issues node (some x) =
    issue_if (not (is_string_literal x)) (execution_path node ++ codes ".args.code")

-- The type that a reference resolves to, where it is known, is `string` and not optional.
sandbox_ref_issues :
    NodeJson → Dict JsString → Dict (Dict WriteJson) → RefJson → List WebValidationIssue
sandbox_ref_issues node types writes (input name) = elim (lookup name types) [
  | none ↦ []
  | some ty ↦ issue_if (not (ty == codes "string")) (execution_path node ++ codes ".args.code")
]
sandbox_ref_issues node types writes (node_output n field) = elim (lookup n writes) [
  | none ↦ []
  | some ws ↦ elim (lookup field ws) [
    | none ↦ []
    | some w ↦
        issue_if (not (w.type == codes "string" && not w.optional))
          (execution_path node ++ codes ".args.code")
  ]
]
sandbox_ref_issues node types writes (bound name) = []

sandbox_code_issues :
    NodeJson → Dict JsString → Dict (Dict WriteJson) → Option ExprJson → List WebValidationIssue
unfolding sandbox_ref_issues
sandbox_code_issues node types writes none = issue_if true (execution_path node ++ codes ".args")
sandbox_code_issues node types writes (some (ref r)) = sandbox_ref_issues node types writes r
sandbox_code_issues node types writes (some x) =
    issue_if (not (is_string_literal x)) (execution_path node ++ codes ".args.code")

-- A tool stage whose capability is not empty.
tool_issues :
    NodeJson
    → Dict JsString
    → Dict (Dict WriteJson)
    → ExecutionKind
    → Option JsString
    → List WebValidationIssue
unfolding run_code_issues sandbox_code_issues
tool_issues node types writes tool (some (c ∷ cap)) =
    issue_if (not (is_web_allowed_capability (c ∷ cap)) && not (is_deterministic_only (c ∷ cap)))
      (execution_path node)
    ++ (if (c ∷ cap) == browser_js_run
        then run_code_issues node (code_of node.execution.args)
        else [])
    ++ (if (c ∷ cap) == browser_js_sandbox
        then sandbox_code_issues node types writes (code_of node.execution.args)
        else [])
tool_issues node types writes kind capability = []

-- A model stage requires no capability that only tool stages may use.
model_issues : NodeJson → ExecutionKind → List WebValidationIssue
model_issues node tool = []
model_issues node model =
    for_each
      (λ (req : StageCapabilityJson).
        issue_if (is_deterministic_only req.capability)
          (codes "nodes." ++ node.id ++ codes ".requires"))
      node.requires

unfoldable pub node_issues :
    Dict JsString → Dict (Dict WriteJson) → NodeJson → List WebValidationIssue
unfolding tool_issues model_issues
node_issues types writes node =
    for_each
      (λ (w : WriteJson).
        issue_if (type_uses_path w.type) (codes "nodes." ++ node.id ++ codes ".writes." ++ w.name))
      node.writes
    ++ for_each
        (λ (req : StageCapabilityJson).
          issue_if (not (is_web_allowed_capability req.capability))
            (codes "nodes." ++ node.id ++ codes ".requires"))
        node.requires
    ++ tool_issues node types writes node.execution.kind node.execution.capability
    ++ model_issues node node.execution.kind

required_issues : PolicyJson → RequiredCapabilityJson → List WebValidationIssue
required_issues policy req =
    issue_if (not (is_web_allowed_capability req.capability))
      (codes "policies." ++ policy.id ++ codes ".requires")
    ++ issue_if (is_deterministic_only req.capability)
        (codes "policies." ++ policy.id ++ codes ".requires")

unfoldable pub policy_issues : PolicyJson → List WebValidationIssue
unfolding required_issues
policy_issues policy =
    let path = codes "policies." ++ policy.id in
    issue_if (not (is_web_allowed_capability policy.trigger.capability)) path
    ++ issue_if
        (is_deterministic_only policy.trigger.capability
          && not (policy.trigger.capability == browser_js_sandbox))
        path
    ++ issue_if
        (policy.trigger.capability == browser_js_sandbox && not (is_sandbox_approval_policy policy))
        path
    ++ for_each (required_issues policy) (list_or_empty policy.requires)

abbrev is_tool : ExecutionKind → Bool
is_tool tool = true
is_tool model = false

unfoldable pub runs_sandbox : NodeJson → Bool
runs_sandbox node =
    is_tool node.execution.kind && capability_is node.execution.capability browser_js_sandbox

unfoldable pub sandbox_is_used : WorkflowIrJson → Bool
sandbox_is_used ir = some_of runs_sandbox ir.nodes

-- The issues of the parts of a workflow.
unfoldable pub part_issues : WorkflowIrJson → List WebValidationIssue
unfolding input_types writes_per_node
part_issues ir =
    for_each (λ cap. issue_if (not (is_web_allowed_capability cap)) (codes "capabilities"))
      ir.capabilities
    ++ for_each
        (λ (inp : InputJson). issue_if (type_uses_path inp.type) (codes "inputs." ++ inp.id))
        ir.inputs
    ++ for_each (node_issues (input_types ir.inputs []) (writes_per_node ir.nodes [])) ir.nodes
    ++ for_each policy_issues ir.policies

unfoldable pub no_approval_issues : WorkflowIrJson → List WebValidationIssue
no_approval_issues ir =
    issue_if (sandbox_is_used ir && not (some_of is_sandbox_approval_policy ir.policies))
      (codes "policies")

unfoldable pub no_confirm_issues : WorkflowIrJson → List WebValidationIssue
no_confirm_issues ir =
    issue_if (sandbox_is_used ir && not (contains ir.capabilities user_confirm))
      (codes "capabilities")

unfoldable pub validate_for_web : WorkflowIrJson → List WebValidationIssue
validate_for_web ir = part_issues ir ++ (no_approval_issues ir ++ no_confirm_issues ir)
