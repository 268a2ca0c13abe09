-- ===== src/Models/Executor/Bounded.antt =====
-- models.ts: the number of rounds of `execute`.
use nemoir_web_runtime.Prelude.{
  ℕ, zero, suc, ◌+◌, ◌<◌, ◌≤◌, ◌≡◌, refl, inl, inr, List, leb, arith, Bool-cases,
}
use nemoir_web_runtime.Errors.{Result, ok, err, model_output_validation}
use nemoir_web_runtime.Js.Value.{Value}
use nemoir_web_runtime.Js.Dict.{Dict}
use nemoir_web_runtime.Events.{Exec, State, throw, continue, ◌>>=◌}
use nemoir_web_runtime.Events.Outcomes.{Outcome, Ends}
use nemoir_web_runtime.Runtime.{StageContext}
use nemoir_web_runtime.Models.Schema.{OutputSchema}
use nemoir_web_runtime.Models.Contract.{Message, ModelAdapter}
use nemoir_web_runtime.Models.Envelope.{Host}
use nemoir_web_runtime.Models.Executor.{ModelStageExecutor, Turn, answered, invalid, used_tools}
use nemoir_web_runtime.Models.Executor.Rounds.{
  go_on, run_rounds, build_initial_messages, enough_rounds, execute_rounds, execute_within, execute,
}
use nemoir_web_runtime.Models.Executor.Results.{AnyError, TurnIs, turn-TurnIs}

-- Two continuations that agree on the results that a step may have lead to the same.
bind-agree :
    {A B : Type 0} (P : A → Type 0) (m : Exec A) (f g : A → Exec B) (s : State)
    → Ends P AnyError m
    → ((a : A) → P a → (s' : State) → f a s' ≡ g a s')
    → (m >>= f) s ≡ (m >>= g) s
unfolding ◌>>=◌
bind-agree {A} P m f g s h k = go (m s).0 (m s).1 (h.at s)
  where
    go : (r : Result A) (s' : State) → Outcome P AnyError r → continue r f s' ≡ continue r g s'
    go (ok a) s' p = k a p s'
    go (err e) s' p = refl

bind-same :
    {A B : Type 0} (m : Exec A) (f g : A → Exec B) (s : State)
    → ((a : A) (s' : State) → f a s' ≡ g a s')
    → (m >>= f) s ≡ (m >>= g) s
unfolding ◌>>=◌
bind-same {A} m f g s k = go (m s).0 (m s).1
  where
    go : (r : Result A) (s' : State) → continue r f s' ≡ continue r g s'
    go (ok a) s' = k a s'
    go (err e) s' = refl

module _ (js : Host) (x : ModelStageExecutor) (ctx : StageContext) where
  module _ (adapter : ModelAdapter) (schema : OutputSchema) where
    go_on-agree :
        (f g : ℕ → ℕ → List Message → Exec (Dict Value)) (retries rounds : ℕ)
        (messages : List Message)
        → (retries < ctx.options.max_model_retries
            → (m : List Message) (s : State)
            → f (retries + 1) rounds m s ≡ g (retries + 1) rounds m s)
        → (rounds < x.max_tool_rounds
            → (m : List Message) (s : State)
            → f retries (rounds + 1) m s ≡ g retries (rounds + 1) m s)
        → (taken : Turn) → TurnIs js x ctx rounds taken
        → (s : State)
        → go_on js x ctx adapter schema f retries rounds messages taken s
          ≡ go_on js x ctx adapter schema g retries rounds messages taken s
    unfolding go_on TurnIs
    go_on-agree f g retries rounds messages hr ht (answered out) k s = refl
    go_on-agree f g retries rounds messages hr ht (used_tools told had) k s =
        bind-same _ _ _ s (λ u s'. ht (ground arith) _ s')
    go_on-agree f g retries rounds messages hr ht (invalid e category content) k s =
        elim (Bool-cases (leb ctx.options.max_model_retries retries)) [
          | inl over ↦ rw over refl
          | inr under ↦ rw under (bind-same _ _ _ s (λ u s'. hr (ground arith) _ s'))
        ]

    rounds-agree :
        (f g : Exec (Dict Value)) (fuel more retries rounds : ℕ) (messages : List Message)
        → ctx.options.max_model_retries + x.max_tool_rounds < fuel + retries + rounds
        → ctx.options.max_model_retries + x.max_tool_rounds < more + retries + rounds
        → retries ≤ ctx.options.max_model_retries
        → rounds ≤ x.max_tool_rounds
        → (s : State)
        → run_rounds js x ctx adapter schema f fuel retries rounds messages s
          ≡ run_rounds js x ctx adapter schema g more retries rounds messages s
    unfolding run_rounds
    rounds-agree f g zero more retries rounds messages enough also hr ht s = absurd (omega arith)
    rounds-agree f g (suc fuel) zero retries rounds messages enough also hr ht s =
        absurd (omega arith)
    rounds-agree f g (suc fuel) (suc more) retries rounds messages enough also hr ht s =
        bind-agree (TurnIs js x ctx rounds) _ _ _ s
          (turn-TurnIs js x ctx adapter schema rounds messages)
          (go_on-agree (λ r t m. run_rounds js x ctx adapter schema f fuel r t m)
            (λ r t m. run_rounds js x ctx adapter schema g more r t m) retries rounds messages
            (λ under m s'.
              rounds-agree f g fuel more (retries + 1) rounds m (omega arith) (omega arith)
                (omega arith) ht s')
            (λ under m s'.
              rounds-agree f g fuel more retries (rounds + 1) m (omega arith) (omega arith) hr
                (omega arith) s'))

  -- From `maxModelRetries + maxToolRounds + 1` rounds on, how many are allowed makes no difference.
  pub execute_rounds-enough :
      (stuck : Exec (Dict Value)) (rounds : ℕ)
      → enough_rounds js x ctx ≤ rounds
      → (s : State) → execute_rounds js x ctx stuck rounds s ≡ execute js x ctx s
  unfolding execute execute_within execute_rounds
  execute_rounds-enough stuck rounds h s = bind-same _ _ _ s (λ adapter t.
      bind-same _ _ _ t (λ schema u.
        rounds-agree adapter schema stuck (throw model_output_validation) rounds
          (enough_rounds js x ctx) 0 0 (build_initial_messages js x ctx) (omega (arith, h))
          (omega arith) (omega arith) (omega arith) u))

  -- The loop of the model executor ends on its own: with `maxModelRetries + maxToolRounds + 1` rounds, it
  -- is of no matter what would follow if the rounds were used up.
  pub execute_within-eq :
      (stuck : Exec (Dict Value)) (s : State) → execute_within js x ctx stuck s ≡ execute js x ctx s
  unfolding execute_within
  execute_within-eq stuck s = execute_rounds-enough stuck (enough_rounds js x ctx) (omega arith) s
