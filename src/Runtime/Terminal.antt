-- ===== src/Runtime/Terminal.antt =====
-- runtime.ts: the events that end a run.
use nemoir_web_runtime.Prelude.{
  ℕ, zero, suc, ◌+◌, ◌≡◌, refl, ap, ◌∙◌, false, Option, [], length, Bool-cases, inl, inr, arith,
}
use nemoir_web_runtime.Errors.{Result, ok, err}
use nemoir_web_runtime.Js.Text.{JsString, contains}
use nemoir_web_runtime.Js.Value.{Value}
use nemoir_web_runtime.Js.Dict.{Dict}
use nemoir_web_runtime.Manifest.{StageSpec}
use nemoir_web_runtime.Events.{
  WorkflowResult, State, pure, continue, ◌>>=◌, ◌>>◌, emit, record_entry,
}
use nemoir_web_runtime.Events.Terminal.{
  terminals, terminals-two, terminals-three, Counts, none_of, Counts-emit, Counts-record,
  Counts-lift, Counts-if, Counts-bind,
}
use nemoir_web_runtime.Events.Sequence.{Keeps}
use nemoir_web_runtime.Events.Predicates.{IsEnded, ended}
use nemoir_web_runtime.Policy.Keeps.{enforce_and_call-Keeps}
use nemoir_web_runtime.Runtime.{
  StageContext, WorkflowRuntime, RunEnv, Visit, finished, go_on, complete_run, follow_transition,
  store_output, visit_stage, check_signal, run_loop, settle_run, fresh, begin, run,
  make_stage_context, env,
}

-- The ends that a visit and the loop report: a finished visit has emitted one.
abbrev visit_ends : Result Visit → ℕ
visit_ends (ok (finished r)) = 1
visit_ends (ok (go_on id outs)) = 0
visit_ends (err e) = 0

abbrev loop_ends : Result WorkflowResult → ℕ
loop_ends (ok r) = 1
loop_ends (err e) = 0

module _ (rt : WorkflowRuntime) (run_env : RunEnv) where
  completed :
      (stage : StageSpec) (raw : Dict Value) (outs : Dict (Dict Value)) (steps : ℕ)
      → Counts visit_ends (complete_run rt run_env stage raw outs steps)
  unfolding complete_run ◌>>=◌ emit record_entry
  completed stage raw outs steps = record { at = λ s. terminals-two s.log _ _ ∙ omega arith }

  followed :
      (stage : StageSpec) (outs : Dict (Dict Value))
      → Counts visit_ends (follow_transition rt run_env stage outs)
  unfolding follow_transition
  followed stage outs =
      Counts-bind visit_ends _ _ (λ e. refl) (Counts-lift none_of _ refl)
        (λ t.
          Counts-bind visit_ends _ _ (λ e. refl)
            (Counts-bind none_of _ _ (λ e. refl) (Counts-record _) (λ _. Counts-emit _))
            (λ _. Counts-lift visit_ends _ refl))

  stored :
      (stage : StageSpec) (raw : Dict Value) (outs : Dict (Dict Value)) (steps : ℕ)
      → Counts visit_ends (store_output rt run_env stage raw outs steps)
  unfolding store_output
  stored stage raw outs steps =
      Counts-bind visit_ends _ _ (λ e. refl)
        (Counts-bind none_of _ _ (λ e. refl) (Counts-lift none_of _ refl) (λ _. Counts-emit _))
        (λ _.
          Counts-if visit_ends (contains rt.manifest.exit_stage_ids stage.id)
            (completed stage raw _ _) (followed stage _))

  signal : Counts none_of (check_signal rt run_env)
  unfolding check_signal
  signal = record {
    at = λ s. elim (Bool-cases (run_env.aborted (length s.log))) [
      | inl gone ↦ rw gone (omega arith)
      | inr fine ↦ rw fine (omega arith)
    ];
  }

  -- The `catch` clause, under a signal that is never aborted.
  settled :
      (never : (n : ℕ) → run_env.aborted n ≡ false) (before_it : ℕ) (r : Result WorkflowResult)
      (s : State)
      → terminals s.log ≡ before_it + loop_ends r
      → terminals (settle_run rt run_env r s).1.log ≡ before_it + 1
  unfolding settle_run ◌>>=◌ emit record_entry
  settled never before_it (ok r) s h = h
  settled never before_it (err e) s h =
      rw (never (length s.log)) (terminals-three s.log _ _ _ ∙ omega (arith, h))

  module _
      (executor : (ctx : StageContext) (n : ℕ)
        → ((cap : JsString) (args : Dict Value) (name : Option JsString)
            → Keeps (IsEnded n) (ctx.call_tool cap args name))
        → Keeps (IsEnded n) (rt.stage_executor ctx)) where
    executed :
        (stage : StageSpec) (readable : Dict Value)
        → Counts none_of (rt.stage_executor (make_stage_context rt run_env stage readable))
    unfolding IsEnded make_stage_context nemoir_web_runtime.Policy.enforce_and_call
    executed stage readable = record {
      at = λ s.
          let kept =
            (executor (make_stage_context rt run_env stage readable) (terminals s.log)
              (λ cap args name.
                enforce_and_call-Keeps _ (ended (terminals s.log)) (env rt run_env) stage cap args
                  name)) in
          omega (arith, kept.at s refl);
    }

    visited :
        (id : JsString) (outs : Dict (Dict Value)) (steps : ℕ)
        → Counts visit_ends (visit_stage rt run_env id outs steps)
    unfolding visit_stage
    visited id outs steps =
        Counts-bind visit_ends _ _ (λ e. refl) (Counts-lift none_of _ refl)
          (λ stage.
            Counts-bind visit_ends _ _ (λ e. refl) (Counts-lift none_of _ refl)
              (λ readable.
                Counts-bind visit_ends _ _ (λ e. refl)
                  (Counts-bind none_of _ _ (λ e. refl)
                    (Counts-bind none_of _ _ (λ e. refl) (Counts-record _) (λ _. Counts-emit _))
                    (λ _. executed stage readable))
                  (λ raw. stored stage raw outs steps)))

    after_visit :
        (left steps before_it : ℕ) (r : Result Visit) (s : State)
        → ((id : JsString) (outs : Dict (Dict Value))
            → Counts loop_ends (run_loop rt run_env left id outs (steps + 1)))
        → terminals s.log ≡ before_it + visit_ends r
        → terminals
            (continue r
              (λ (v : Visit). elim v [
                | finished result ↦ pure result
                | go_on id outs ↦ run_loop rt run_env left id outs (steps + 1)
              ])
              s).1.log
          ≡ before_it
            + loop_ends
                (continue r
                  (λ (v : Visit). elim v [
                    | finished result ↦ pure result
                    | go_on id outs ↦ run_loop rt run_env left id outs (steps + 1)
                  ])
                  s).0
    after_visit left steps before_it (ok (finished result)) s ih h = h
    after_visit left steps before_it (ok (go_on id outs)) s ih h =
        omega (arith, (ih id outs).at s, h)
    after_visit left steps before_it (err e) s ih h = h

    looped :
        (left : ℕ) (id : JsString) (outs : Dict (Dict Value)) (steps : ℕ)
        → Counts loop_ends (run_loop rt run_env left id outs steps)
    unfolding run_loop ◌>>=◌
    looped zero id outs steps = Counts-lift loop_ends _ refl
    looped (suc left) id outs steps =
        let visit : Counts visit_ends
            (check_signal rt run_env >> visit_stage rt run_env id outs steps) =
          Counts-bind visit_ends _ _ (λ e. refl) signal (λ _. visited id outs steps) in
        record {
          at = λ s.
              after_visit left steps (terminals s.log) _ _
                (λ (next : JsString) (outs' : Dict (Dict Value)).
                  looped left next outs' (steps + 1))
                (visit.at s);
        }

    from_entry :
        ((n : ℕ) → run_env.aborted n ≡ false)
        → (id : JsString) (t : State)
        → terminals
            (settle_run rt run_env
              (run_loop rt run_env run_env.max_steps id [] 0 t).0
              (run_loop rt run_env run_env.max_steps id [] 0 t).1).1.log
          ≡ terminals t.log + 1
    from_entry never id t =
        settled never (terminals t.log) _ _ ((looped run_env.max_steps id [] 0).at t)

    begun :
        ((n : ℕ) → run_env.aborted n ≡ false)
        → (s : State) → terminals (begin rt run_env s).1.log ≡ terminals s.log + 1
    unfolding begin ◌>>=◌ emit record_entry
    begun never s =
        from_entry never rt.manifest.entry_stage_id _
        ∙ ap (λ (n : ℕ). n + 1) (terminals-two s.log _ _ ∙ omega arith)

    -- Where the abort signal is never raised and the stage executor emits no event that ends a run if the
    -- tool calls of its context emit none, a run emits exactly one event that ends it, `run_completed` or
    -- `run_failed`, whether it returns or throws.
    pub run-terminals :
        ((n : ℕ) → run_env.aborted n ≡ false) → (s : State) → terminals (run rt run_env s).1.log ≡ 1
    unfolding run fresh
    run-terminals never s = begun never (fresh rt run_env s) ∙ omega arith
