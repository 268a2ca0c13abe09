-- ===== src/Transitions/Reads.antt =====
-- runtime.ts: the errors of `resolveReads` and `selectTransition`, and the reads of a stage.
use nemoir_web_runtime.Prelude.{
  ◌≡◌, refl, ◌⊎◌, inl, inr, Bool, true, false, not, ◌||◌, List, [], ◌∷◌, arith, All, if◌then◌else◌,
}
use nemoir_web_runtime.Errors.{
  Error, Result, ok, err, ◌>>=◌, bind-eq-ok, data_unavailable, no_transition_matched,
}
use nemoir_web_runtime.Js.Value.{Value, is_nullish, Engine}
use nemoir_web_runtime.Js.Dict.{Dict, insert}
use nemoir_web_runtime.Manifest.{
  RefSpec, input, node_output, bound, ReadSpec, TransitionSpec, StageSpec,
}
use nemoir_web_runtime.Evaluator.{evaluate_guard}
use nemoir_web_runtime.Evaluator.Refs.{resolve_guard_ref}
use nemoir_web_runtime.Evaluator.Raises.{IsEvaluationError, RaisesOnly, guard-RaisesOnly}
use nemoir_web_runtime.Transitions.{
  read_display_key, resolve_read, resolve_reads_from, resolve_reads, first_match, sort_by_priority,
  select_transition,
}

guard_ref-error :
    (r : RefSpec) (inputs : Dict Value) (outs : Dict (Dict Value)) (e : Error)
    → resolve_guard_ref r inputs outs ≡ err e
    → e ≡ data_unavailable
unfolding resolve_guard_ref
guard_ref-error (input n) inputs outs e h = absurd (ground arith)
guard_ref-error (node_output n f) inputs outs e h = absurd (ground arith)
guard_ref-error (bound n) inputs outs e h = ground arith

read-error :
    (r : ReadSpec) (inputs : Dict Value) (outs : Dict (Dict Value)) (start : Dict Value) (e : Error)
    → resolve_read r inputs outs start ≡ err e
    → e ≡ data_unavailable
unfolding resolve_read
read-error r inputs outs start e h = ground (arith, guard_ref-error r.ref inputs outs e)

resolve_reads_from-error :
    (reads : List ReadSpec) (inputs : Dict Value) (outs : Dict (Dict Value)) (start : Dict Value)
    (e : Error)
    → resolve_reads_from reads inputs outs start ≡ err e
    → e ≡ data_unavailable
unfolding resolve_reads_from
resolve_reads_from-error [] inputs outs start e h = absurd (ground arith)
resolve_reads_from-error (r ∷ reads) inputs outs start e h =
    go (resolve_read r inputs outs start) refl h
      (λ (next : Dict Value). resolve_reads_from-error reads inputs outs next e)
  where
    go :
        (m : Result (Dict Value))
        → resolve_read r inputs outs start ≡ m
        → (m >>= λ next. resolve_reads_from reads inputs outs next) ≡ err e
        → ((next : Dict Value)
            → resolve_reads_from reads inputs outs next ≡ err e
            → e ≡ data_unavailable)
        → e ≡ data_unavailable
    go (ok next) same k ih = ih next k
    go (err f) same k ih = read-error r inputs outs start e (ground arith)

pub resolve_reads-error :
    (stage : StageSpec) (inputs : Dict Value) (outs : Dict (Dict Value)) (e : Error)
    → resolve_reads stage inputs outs ≡ err e
    → e ≡ data_unavailable
unfolding resolve_reads
resolve_reads-error stage inputs outs e h = resolve_reads_from-error stage.reads inputs outs [] e h

-- The value of a reference that is there.
abbrev pub IsAvailable : Dict Value → Dict (Dict Value) → ReadSpec → Type 0
IsAvailable inputs outs r =
    (v : Value) × (resolve_guard_ref r.ref inputs outs ≡ ok v)
    × ((r.optional || not (is_nullish v)) ≡ true)

read-IsAvailable :
    (r : ReadSpec) (inputs : Dict Value) (outs : Dict (Dict Value)) (start next : Dict Value)
    → resolve_read r inputs outs start ≡ ok next
    → IsAvailable inputs outs r
unfolding resolve_read
read-IsAvailable r inputs outs start next h =
    let (v, resolved, h') = bind-eq-ok (resolve_guard_ref r.ref inputs outs) _ h in
    (v, resolved, ground arith)

reads-IsAvailable :
    (reads : List ReadSpec) (inputs : Dict Value) (outs : Dict (Dict Value))
    (start ctx : Dict Value)
    → resolve_reads_from reads inputs outs start ≡ ok ctx
    → All (IsAvailable inputs outs) reads
unfolding resolve_reads_from
reads-IsAvailable [] inputs outs start ctx h = tt
reads-IsAvailable (r ∷ reads) inputs outs start ctx h =
    let (next, one, h') = bind-eq-ok (resolve_read r inputs outs start) _ h in
    (read-IsAvailable r inputs outs start next one, reads-IsAvailable reads inputs outs next ctx h')

-- The reads of a stage resolve together only where each of them resolves, and each read that is not optional resolves to
-- a value that is neither null nor undefined.
pub resolve_reads-IsAvailable :
    (stage : StageSpec) (inputs : Dict Value) (outs : Dict (Dict Value)) (ctx : Dict Value)
    → resolve_reads stage inputs outs ≡ ok ctx
    → All (IsAvailable inputs outs) stage.reads
unfolding resolve_reads
resolve_reads-IsAvailable stage inputs outs ctx h =
    reads-IsAvailable stage.reads inputs outs [] ctx h

reads-available :
    (reads : List ReadSpec) (inputs : Dict Value) (outs : Dict (Dict Value)) (start : Dict Value)
    → All (IsAvailable inputs outs) reads
    → (ctx : Dict Value) × (resolve_reads_from reads inputs outs start ≡ ok ctx)
unfolding resolve_reads_from resolve_read
reads-available [] inputs outs start h = (start, refl)
reads-available (r ∷ reads) inputs outs start ((v, resolved, there), h) =
    let (ctx, rest) =
      reads-available reads inputs outs (insert (read_display_key r.ref) v start) h in
    (ctx, rw resolved (rw there rest))

-- And where they do, they resolve.
pub resolve_reads-available :
    (stage : StageSpec) (inputs : Dict Value) (outs : Dict (Dict Value))
    → All (IsAvailable inputs outs) stage.reads
    → (ctx : Dict Value) × (resolve_reads stage inputs outs ≡ ok ctx)
unfolding resolve_reads
resolve_reads-available stage inputs outs h = reads-available stage.reads inputs outs [] h

module _ (e : Engine) (inputs : Dict Value) (outs : Dict (Dict Value)) where
  first_match-error :
      (ts : List TransitionSpec) (x : Error)
      → first_match e ts inputs outs ≡ err x
      → IsEvaluationError e x ⊎ (x ≡ no_transition_matched)
  unfolding first_match
  first_match-error [] x h = inr (ground arith)
  first_match-error (t ∷ ts) x h =
      go (evaluate_guard e t.guard inputs outs) (guard-RaisesOnly e t.guard inputs outs) h
        (first_match-error ts x)
    where
      go :
          (m : Result Bool)
          → RaisesOnly e m
          → (m >>= λ b. if b then ok t else first_match e ts inputs outs) ≡ err x
          → (first_match e ts inputs outs ≡ err x
              → IsEvaluationError e x ⊎ (x ≡ no_transition_matched))
          → IsEvaluationError e x ⊎ (x ≡ no_transition_matched)
      go (ok true) raises k ih = absurd (ground arith)
      go (ok false) raises k ih = ih k
      go (err y) raises k ih = inl (raises x (ground arith))

  pub select_transition-error :
      (stage : StageSpec) (x : Error)
      → select_transition e stage inputs outs ≡ err x
      → IsEvaluationError e x ⊎ (x ≡ no_transition_matched)
  unfolding select_transition
  select_transition-error stage x h = first_match-error (sort_by_priority stage.transitions) x h
