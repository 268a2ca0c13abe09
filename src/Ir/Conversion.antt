-- ===== src/Ir/Conversion.antt =====
-- manifest.ts: the conversion of a decoded workflow to the manifest that the runtime reads.
use nemoir_web_runtime.Prelude.{Option, none, some, List, [], ◌∷◌, map, if◌then◌else◌}
use nemoir_web_runtime.Js.Text.{JsString, codes, ◌==◌}
use nemoir_web_runtime.Js.Dict.{Dict}
use nemoir_web_runtime.Manifest.{
  RefSpec, ExprSpec, Exprs, GuardSpec, StageExecutionSpec, StageSpec, RequiredCapabilitySpec,
  PolicyKind, before, deny, other_kind, PolicySpec, WorkflowManifest,
}
use nemoir_web_runtime.Manifest as To
use nemoir_web_runtime.Ir.{
  RefJson, input, node_output, bound, ExprJson, not_, method_call, ref, literal, and_, or_, compare,
  binop, ExprJsons, nil, cons, GuardJson, always, has_value, missing, eq, if_, BindArgJson,
  ArgValueJson, StageExecutionJson, ReadJson, WriteJson, TransitionJson, StageCapabilityJson,
  NodeJson, RequiredCapabilityJson, PolicyJson, InputJson, WorkflowIrJson,
}

unfoldable pub convert_ref : RefJson → RefSpec
convert_ref (input name) = To.input name
convert_ref (node_output node field) = To.node_output node field
convert_ref (bound name) = To.bound name

unfoldable mutual
  pub convert_expr : ExprJson → ExprSpec
  convert_expr (not_ x) = To.not_ (convert_expr x)
  convert_expr (method_call receiver method args) =
      To.method_call (convert_expr receiver) method (convert_exprs args)
  convert_expr (ref r) = To.ref (convert_ref r)
  convert_expr (literal type value) = To.literal type value
  convert_expr (and_ xs) = To.and_ (convert_exprs xs)
  convert_expr (or_ xs) = To.or_ (convert_exprs xs)
  convert_expr (compare op left right) = To.compare op (convert_expr left) (convert_expr right)
  convert_expr (binop op left right) = To.binop op (convert_expr left) (convert_expr right)

  pub convert_exprs : ExprJsons → Exprs
  convert_exprs nil = To.nil
  convert_exprs (cons x xs) = To.cons (convert_expr x) (convert_exprs xs)

unfoldable pub convert_guard : GuardJson → GuardSpec
convert_guard always = To.always
convert_guard (has_value r) = To.has_value (convert_ref r)
convert_guard (missing r) = To.missing (convert_ref r)
convert_guard (eq left right) = To.eq (convert_expr left) (convert_expr right)
convert_guard (if_ cond) = To.if_ (convert_expr cond)

-- `new Map(Object.entries(record).map(...))`: the keys of a record are distinct.
map_values : {A B : Type 0} → (A → B) → Dict A → Dict B
map_values f [] = []
map_values f ((k, v) ∷ d) = (k, f v) ∷ map_values f d

-- `new Set(list)`, in the order of first insertion, is only asked for members and keeps its list.
unfoldable pub convert_execution : StageExecutionJson → StageExecutionSpec
unfolding map_values
convert_execution x = record {
  kind = x.kind;
  capability = x.capability;
  args = elim x.args [ none ↦ none | some args ↦ some (map_values convert_expr args) ];
}

unfoldable pub convert_node : NodeJson → StageSpec
convert_node node = record {
  id = node.id;
  prompt = node.prompt;
  reads =
      map (λ (r : ReadJson). record { ref = convert_ref r.ref; optional = r.optional }) node.reads;
  writes =
      map (λ (w : WriteJson). record { name = w.name; type = w.type; optional = w.optional })
        node.writes;
  requires = map (λ (c : StageCapabilityJson). c.capability) node.requires;
  transitions =
      map
        (λ (t : TransitionJson). record {
          to = t.to;
          priority = t.priority;
          reason = t.reason;
          guard = convert_guard t.guard;
        })
        node.transitions;
  execution = convert_execution node.execution;
}

-- `p.kind as "before" | "deny"`, which checks nothing.
unfoldable pub convert_kind : JsString → PolicyKind
convert_kind k =
    if k == codes "before" then before else if k == codes "deny" then deny else other_kind k

unfoldable pub convert_required : RequiredCapabilityJson → RequiredCapabilitySpec
unfolding map_values
convert_required req = record {
  capability = req.capability;
  args = map_values (λ (a : ArgValueJson). convert_ref a.ref) req.args;
}

-- `p.requires ?? []`
abbrev pub list_or_empty : {A : Type 0} → Option (List A) → List A
list_or_empty none = []
list_or_empty (some xs) = xs

unfoldable pub convert_policy : PolicyJson → PolicySpec
unfolding map_values
convert_policy p = record {
  id = p.id;
  kind = convert_kind p.kind;
  trigger = record {
    capability = p.trigger.capability;
    bind = map_values (λ (b : BindArgJson). b.name) p.trigger.bind;
  };
  requires = map convert_required (list_or_empty p.requires);
  condition = elim p.condition [ none ↦ none | some x ↦ some (convert_expr x) ];
}

unfoldable pub build_workflow_manifest : WorkflowIrJson → WorkflowManifest
build_workflow_manifest ir = record {
  workflow_id = ir.workflow_id;
  entry_stage_id = ir.entry;
  exit_stage_ids = ir.exits;
  inputs = map (λ (i : InputJson). record { id = i.id; type = i.type }) ir.inputs;
  capabilities = ir.capabilities;
  policies = map convert_policy ir.policies;
  stages = map convert_node ir.nodes;
}
