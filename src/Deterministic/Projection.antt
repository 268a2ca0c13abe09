-- ===== src/Deterministic/Projection.antt =====
-- deterministic.ts: what is kept of the result of a tool stage.
use nemoir_web_runtime.Prelude.{
  ◌≡◌, refl, ◌&&◌, none, some, List, [], ◌∷◌, map, arith, if◌then◌else◌, Bool-cases, inl, inr,
}
use nemoir_web_runtime.Errors.{ok}
use nemoir_web_runtime.Js.Text.{JsString, ◌==◌, eq_iff, contains}
use nemoir_web_runtime.Js.Value.{Value}
use nemoir_web_runtime.Js.Dict.{Dict, lookup, has, insert, get, lookup-insert}
use nemoir_web_runtime.Manifest.{WriteSpec, StageSpec}
use nemoir_web_runtime.Output.{write_name}
use nemoir_web_runtime.Deterministic.{
  object_fields, project, normalize_for, normalize_deterministic_output, raw_output,
}

project-lookup :
    (ws : List WriteSpec) (raw output : Dict Value) (k : JsString)
    → lookup k (project ws raw output)
      ≡ (if contains (map write_name ws) k && has k raw then some (get k raw) else lookup k output)
unfolding project contains
project-lookup [] raw output k = refl
project-lookup (w ∷ ws) raw output k = elim (Bool-cases (w.name == k)) [
  | inl same ↦
      let eq : w.name ≡ k = (eq_iff w.name k).0 same in
      ground (
        arith,
        project-lookup ws raw output k,
        project-lookup ws raw (insert w.name (get w.name raw) output) k,
        lookup-insert w.name k (get w.name raw) output,
      )
  | inr other ↦ ground (
    arith,
    project-lookup ws raw output k,
    project-lookup ws raw (insert w.name (get w.name raw) output) k,
    lookup-insert w.name k (get w.name raw) output,
  )
]

normalize_for-lookup :
    (ws : List WriteSpec) (result : Value) (raw output : Dict Value) (k : JsString)
    → object_fields result ≡ some raw
    → normalize_for ws result ≡ ok output
    → lookup k output
      ≡ (if contains (map write_name ws) k && has k raw then some (get k raw) else none)
unfolding normalize_for contains raw_output lookup
normalize_for-lookup [] result raw output k is_object h =
    let same : [] ≡ output = ground arith in rw (← same) refl
normalize_for-lookup (w ∷ ws) result raw output k is_object h =
    let same : project (w ∷ ws) raw [] ≡ output = ground arith in
    rw (← same) (project-lookup (w ∷ ws) raw [] k)

-- Where a tool stage gets an object for result, its output has, under each name, the result's field if
-- the name is a declared write and the result has the field, and nothing otherwise.
pub normalize_deterministic_output-lookup :
    (stage : StageSpec) (result : Value) (raw output : Dict Value) (k : JsString)
    → object_fields result ≡ some raw
    → normalize_deterministic_output stage result ≡ ok output
    → lookup k output
      ≡ (if contains (map write_name stage.writes) k && has k raw then some (get k raw) else none)
unfolding normalize_deterministic_output
normalize_deterministic_output-lookup stage result raw output k is_object h =
    normalize_for-lookup stage.writes result raw output k is_object h
