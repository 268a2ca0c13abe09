-- ===== src/Runtime/Stages.antt =====
-- runtime.ts: what the constructor of `WorkflowRuntime` checks.
use nemoir_web_runtime.Prelude.{
  ◌≡◌, true, false, not, Option, some, List, [], ◌∷◌, arith, All, if◌then◌else◌, Bool-cases, inl,
  inr, subst,
}
use nemoir_web_runtime.Errors.{ok, require, bind-eq-ok, workflow_validation}
use nemoir_web_runtime.Js.Text.{JsString, ◌==◌, eq_iff}
use nemoir_web_runtime.Js.Dict.{
  Dict, lookup, has, insert, lookup-insert, lookup-insert_self, lookup-of_not_has,
}
use nemoir_web_runtime.Manifest.{StageSpec, WorkflowManifest}
use nemoir_web_runtime.Tools.{ToolRegistry, require_capabilities}
use nemoir_web_runtime.Runtime.{
  StageExecutor, WorkflowRuntime, file_stages, check_ids, targets, check_targets, new_runtime,
}

-- Every stage of the manifest is found under its id.
abbrev pub Files : Dict StageSpec → StageSpec → Type 0
Files stage_map s = lookup s.id stage_map ≡ some s

-- Stages that are filed stay filed: a second stage of an id is refused.
file_stages-keeps :
    (ss : List StageSpec) (start end_map : Dict StageSpec) (id : JsString) (s : StageSpec)
    → file_stages ss start ≡ ok end_map
    → lookup id start ≡ some s
    → lookup id end_map ≡ some s
unfolding file_stages
file_stages-keeps [] start end_map id s h k = ground arith
file_stages-keeps (t ∷ ss) start end_map id s h k =
    let (u, fresh, h') = bind-eq-ok (require (not (has t.id start)) workflow_validation) _ h in
    let absent : has t.id start ≡ false = ground arith in
    file_stages-keeps ss (insert t.id t start) end_map id s h' (
      ground
        (arith, lookup-insert t.id id t start, lookup-of_not_has t.id start absent, eq_iff t.id id))

file_stages-Files :
    (ss : List StageSpec) (start end_map : Dict StageSpec)
    → file_stages ss start ≡ ok end_map
    → All (Files end_map) ss
unfolding file_stages
file_stages-Files [] start end_map h = tt
file_stages-Files (t ∷ ss) start end_map h =
    let (u, fresh, h') = bind-eq-ok (require (not (has t.id start)) workflow_validation) _ h in
    (
      file_stages-keeps ss (insert t.id t start) end_map t.id t h'
          (lookup-insert_self t.id t start),
      file_stages-Files ss (insert t.id t start) end_map h',
    )

-- What is found was there from the start, or is a stage of the list.
file_stages-All :
    (P : StageSpec → Type 0) (ss : List StageSpec) (start end_map : Dict StageSpec) (id : JsString)
    (s : StageSpec)
    → file_stages ss start ≡ ok end_map
    → All P ss
    → ((r : StageSpec) → lookup id start ≡ some r → P r)
    → lookup id end_map ≡ some s
    → P s
unfolding file_stages
file_stages-All P [] start end_map id s h ps old k = old s (ground arith)
file_stages-All P (t ∷ ss) start end_map id s h (p, ps) old k =
    let (u, fresh, h') = bind-eq-ok (require (not (has t.id start)) workflow_validation) _ h in
    file_stages-All P ss (insert t.id t start) end_map id s h' ps
      (λ r found. new r (lookup-insert t.id id t start) found) k
  where
    new :
        (r : StageSpec) {o : Option StageSpec}
        → o ≡ (if t.id == id then some t else lookup id start)
        → o ≡ some r
        → P r
    new r e found = elim (Bool-cases (t.id == id)) [
      | inl same ↦ subst P (ground arith) p
      | inr other ↦ old r (ground arith)
    ]

check_ids-All :
    (ids : List JsString) (stage_map : Dict StageSpec)
    → check_ids ids stage_map ≡ ok tt
    → All (λ id. has id stage_map ≡ true) ids
unfolding check_ids
check_ids-All [] stage_map h = tt
check_ids-All (id ∷ ids) stage_map h =
    let (u, found, h') = bind-eq-ok (require (has id stage_map) workflow_validation) _ h in
    (ground arith, check_ids-All ids stage_map h')

check_targets-All :
    (ss : List StageSpec) (stage_map : Dict StageSpec)
    → check_targets ss stage_map ≡ ok tt
    → All (λ s. All (λ id. has id stage_map ≡ true) (targets s.transitions)) ss
unfolding check_targets
check_targets-All [] stage_map h = tt
check_targets-All (s ∷ ss) stage_map h =
    let (u, found, h') = bind-eq-ok (check_ids (targets s.transitions) stage_map) _ h in
    (
      check_ids-All (targets s.transitions) stage_map (ground arith),
      check_targets-All ss stage_map h',
    )

-- A runtime whose stage map is closed: it has the entry, the exits and the targets of the transitions of
-- each of its stages, and finds each stage of the manifest under its id.
pub record IsClosed (rt : WorkflowRuntime) : Type 0 where
  pub entry : has rt.manifest.entry_stage_id rt.stage_map ≡ true
  pub exits : All (λ id. has id rt.stage_map ≡ true) rt.manifest.exit_stage_ids
  pub filed : All (Files rt.stage_map) rt.manifest.stages
  pub follows :
      (id : JsString) (s : StageSpec)
      → lookup id rt.stage_map ≡ some s
      → All (λ t. has t rt.stage_map ≡ true) (targets s.transitions)
  pub named : (id : JsString) (s : StageSpec) → lookup id rt.stage_map ≡ some s → s.id ≡ id

file_stages-named :
    (ss : List StageSpec) (start end_map : Dict StageSpec) (id : JsString) (s : StageSpec)
    → file_stages ss start ≡ ok end_map
    → ((j : JsString) (r : StageSpec) → lookup j start ≡ some r → r.id ≡ j)
    → lookup id end_map ≡ some s
    → s.id ≡ id
unfolding file_stages
file_stages-named [] start end_map id s h old k = old id s (ground arith)
file_stages-named (t ∷ ss) start end_map id s h old k =
    let (u, fresh, h') = bind-eq-ok (require (not (has t.id start)) workflow_validation) _ h in
    file_stages-named ss (insert t.id t start) end_map id s h'
      (λ j r found. new j r (lookup-insert t.id j t start) found) k
  where
    new :
        (j : JsString) (r : StageSpec) {o : Option StageSpec}
        → o ≡ (if t.id == j then some t else lookup j start)
        → o ≡ some r
        → r.id ≡ j
    new j r e found = elim (Bool-cases (t.id == j)) [
      | inl same ↦ let eq : t.id ≡ j = (eq_iff t.id j).0 same in ground arith
      | inr other ↦ old j r (ground arith)
    ]

empty-absurd : (P : Type 0) (j : JsString) (r : StageSpec) → lookup j [] ≡ some r → P
unfolding lookup
empty-absurd P j r h = absurd (ground arith)

-- The constructor accepts only manifests whose runtime is closed.
pub new_runtime-IsClosed :
    (m : WorkflowManifest) (tools : ToolRegistry) (ex : StageExecutor) (rt : WorkflowRuntime)
    → new_runtime m tools ex ≡ ok rt
    → IsClosed rt
unfolding new_runtime
new_runtime-IsClosed m tools ex rt h =
    let (u₁, _, h₁) = bind-eq-ok (require_capabilities m.capabilities tools) _ h in
    let (stage_map, filed, h₂) = bind-eq-ok (file_stages m.stages []) _ h₁ in
    let (u₃, entry, h₃) = bind-eq-ok (check_ids (m.entry_stage_id ∷ []) stage_map) _ h₂ in
    let (u₄, exits, h₄) = bind-eq-ok (check_ids m.exit_stage_ids stage_map) _ h₃ in
    let (u₅, follows, h₅) = bind-eq-ok (check_targets m.stages stage_map) _ h₄ in
    let made : WorkflowRuntime = record {
      manifest = m;
      tools = tools;
      stage_executor = ex;
      stage_map = stage_map;
    } in
    let same : made ≡ rt = ground arith in
    subst IsClosed same (record {
      entry = (check_ids-All (m.entry_stage_id ∷ []) stage_map (ground arith)).0;
      exits = check_ids-All m.exit_stage_ids stage_map (ground arith);
      filed = file_stages-Files m.stages [] stage_map filed;
      follows = λ id s found.
          file_stages-All _ m.stages [] stage_map id s filed
            (check_targets-All m.stages stage_map (ground arith)) (λ r. empty-absurd _ id r) found;
      named = λ id s found.
          file_stages-named m.stages [] stage_map id s filed (λ j r. empty-absurd _ j r) found;
    })
