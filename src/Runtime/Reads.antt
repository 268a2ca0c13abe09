-- ===== src/Runtime/Reads.antt =====
-- runtime.ts: a stage whose reads are not there.
use nemoir_web_runtime.Prelude.{
  ℕ, ◌+◌, [], ◌∷◌, ◌++◌, ◌≡◌, ◌⊎◌, inl, inr, ap, refl, ◌∙◌, some, arith, All,
}
use nemoir_web_runtime.Errors.{Error, Result, ok, err, data_unavailable}
use nemoir_web_runtime.Js.Text.{JsString}
use nemoir_web_runtime.Js.Value.{Value}
use nemoir_web_runtime.Js.Dict.{Dict, lookup}
use nemoir_web_runtime.Manifest.{StageSpec}
use nemoir_web_runtime.Transitions.{resolve_reads}
use nemoir_web_runtime.Transitions.Reads.{
  IsAvailable, resolve_reads-IsAvailable, resolve_reads-available, resolve_reads-error,
}
use nemoir_web_runtime.Events.{
  Exec, State, lift, ◌>>=◌, ◌>>◌, emit, record_entry, event, stage_begun, stage_started,
}
use nemoir_web_runtime.Runtime.{
  WorkflowRuntime, RunEnv, require_stage, visit_stage, make_stage_context, store_output,
}

lift-ok :
    {A B : Type 0} (r : Result A) (a : A) (next : A → Exec B) (s : State)
    → r ≡ ok a
    → (lift r >>= next) s ≡ next a s
unfolding ◌>>=◌
lift-ok r a next s h = rw h refl

lift-err :
    {A B : Type 0} (r : Result A) (e : Error) (next : A → Exec B) (s : State)
    → r ≡ err e
    → (lift r >>= next) s ≡ (err e, s)
unfolding ◌>>=◌
lift-err r e next s h = rw h refl

module _ (rt : WorkflowRuntime) (run_env : RunEnv) where
  -- The state of a run when a stage has started.
  abbrev pub started : StageSpec → State → State
  started stage s = record s {
    sequence = s.sequence + 1;
    log =
        s.log ++ stage_begun stage.id ∷ [] ++ event (s.sequence + 1) (stage_started stage.id) ∷ [];
  }

  read_and_visited :
      (id : JsString) (stage : StageSpec) (readable : Dict Value)
      → lookup id rt.stage_map ≡ some stage
      → (outs : Dict (Dict Value)) (steps : ℕ) (s : State)
      → resolve_reads stage run_env.inputs outs ≡ ok readable
      → visit_stage rt run_env id outs steps s
        ≡ (record_entry (stage_begun stage.id)
              >> emit (stage_started stage.id)
              >> rt.stage_executor (make_stage_context rt run_env stage readable)
              >>= λ raw. store_output rt run_env stage raw outs steps)
            s
  unfolding visit_stage require_stage
  read_and_visited id stage readable found outs steps s resolved =
      lift-ok _ stage _ s (rw (found, require_stage) refl) ∙ lift-ok _ readable _ s resolved

  begun :
      (stage : StageSpec) (readable : Dict Value) (outs : Dict (Dict Value)) (steps : ℕ) (s : State)
      → (record_entry (stage_begun stage.id)
            >> emit (stage_started stage.id)
            >> rt.stage_executor (make_stage_context rt run_env stage readable)
            >>= λ raw. store_output rt run_env stage raw outs steps)
          s
        ≡ (rt.stage_executor (make_stage_context rt run_env stage readable) >>= λ raw.
              store_output rt run_env stage raw outs steps)
            (started stage s)
  unfolding ◌>>=◌ emit record_entry
  begun stage readable outs steps s = refl

  refused :
      (id : JsString) (stage : StageSpec) (e : Error)
      → lookup id rt.stage_map ≡ some stage
      → (outs : Dict (Dict Value)) (steps : ℕ) (s : State)
      → resolve_reads stage run_env.inputs outs ≡ err e
      → visit_stage rt run_env id outs steps s ≡ (err e, s)
  unfolding visit_stage require_stage
  refused id stage e found outs steps s failed =
      lift-ok _ stage _ s (rw (found, require_stage) refl) ∙ lift-err _ e _ s failed

  -- How a visit goes on where the reads resolve to `readable`.
  abbrev pub Starts : JsString → StageSpec → Dict (Dict Value) → ℕ → State → Dict Value → Type 0
  Starts id stage outs steps s readable =
      (resolve_reads stage run_env.inputs outs ≡ ok readable)
      × (visit_stage rt run_env id outs steps s
          ≡ (rt.stage_executor (make_stage_context rt run_env stage readable) >>= λ raw.
                store_output rt run_env stage raw outs steps)
              (started stage s))

  -- A stage is started exactly where its reads are there, that is each resolves, and each that is not
  -- optional to a value that is neither null nor undefined. Either they are not all there, and its visit
  -- throws `DataUnavailableError` and leaves the state as it was, with no event emitted, no call on the
  -- recorder and no handler call made. Or they are, and the visit begins with one call on the recorder and
  -- the event `stage_started`, and goes on with the executor, which gets what the reads resolve to, and
  -- with the executor's output.
  pub visit_stage-reads :
      (id : JsString) (stage : StageSpec)
      → lookup id rt.stage_map ≡ some stage
      → (outs : Dict (Dict Value)) (steps : ℕ) (s : State)
      → (¬ All (IsAvailable run_env.inputs outs) stage.reads
          × (visit_stage rt run_env id outs steps s ≡ (err data_unavailable, s)))
        ⊎ (All (IsAvailable run_env.inputs outs) stage.reads
            × ((readable : Dict Value) × Starts id stage outs steps s readable))
  visit_stage-reads id stage found outs steps s =
      decide (resolve_reads stage run_env.inputs outs) refl
    where
      decide :
          (r : Result (Dict Value))
          → resolve_reads stage run_env.inputs outs ≡ r
          → (¬ All (IsAvailable run_env.inputs outs) stage.reads
              × (visit_stage rt run_env id outs steps s ≡ (err data_unavailable, s)))
            ⊎ (All (IsAvailable run_env.inputs outs) stage.reads
                × ((readable : Dict Value) × Starts id stage outs steps s readable))
      decide (ok readable) h = inr (
        resolve_reads-IsAvailable stage run_env.inputs outs readable h,
        (
          readable,
          (
            h,
            read_and_visited id stage readable found outs steps s h
                ∙ begun stage readable outs steps s,
          ),
        ),
      )
      decide (err e) h = inl (
        λ there.
            let (ctx, resolved) = resolve_reads-available stage run_env.inputs outs there in
            absurd (ground (arith, h, resolved)),
        refused id stage e found outs steps s h
            ∙ ap (λ (x : Error). (err x, s)) (resolve_reads-error stage run_env.inputs outs e h),
      )
