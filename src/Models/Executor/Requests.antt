-- ===== src/Models/Executor/Requests.antt =====
-- models.ts: the requests that `execute` makes of the adapter.
use nemoir_web_runtime.Prelude.{
  ℕ, zero, suc, ◌+◌, ◌≤◌, ◌≡◌, refl, sym, ◌∙◌, subst, inl, inr, Bool, Bool-cases, true, Option,
  List, [], ◌∷◌, ◌++◌, leb, arith, length,
}
use nemoir_web_runtime.Errors.{Result, ok, err, model_output_validation}
use nemoir_web_runtime.Js.Text.{JsString}
use nemoir_web_runtime.Js.Value.{Value}
use nemoir_web_runtime.Js.Dict.{Dict}
use nemoir_web_runtime.Manifest.{StageSpec}
use nemoir_web_runtime.Events.{
  Exec, State, Entry, event, model_begun, throw, continue, ◌>>=◌, emit, record_entry,
}
use nemoir_web_runtime.Events.Sequence.{
  IsNumbered, Keeps, Keeps-pure, Keeps-if, Keeps-lift, record-IsNumbered,
}
use nemoir_web_runtime.Events.Terminal.{Counts-record}
use nemoir_web_runtime.Events.Predicates.{LogPredicate, is_record, numbered, IsEnded, ended}
use nemoir_web_runtime.Policy.Keeps.{enforce_and_call-Keeps}
use nemoir_web_runtime.Runtime.{StageContext, WorkflowRuntime, RunEnv, env, make_stage_context}
use nemoir_web_runtime.Models.Schema.{OutputSchema}
use nemoir_web_runtime.Models.Contract.{Message, ModelAdapter, ModelRequest}
use nemoir_web_runtime.Models.Envelope.{Host}
use nemoir_web_runtime.Models.Executor.{ModelStageExecutor, Turn, answered, invalid, used_tools}
use nemoir_web_runtime.Models.Executor.Asking.{ask}
use nemoir_web_runtime.Models.Executor.Rounds.{
  turn, go_on, run_rounds, build_initial_messages, enough_rounds, execute_rounds, execute_within,
  execute, report_tool_error,
}
use nemoir_web_runtime.Models.Executor.Bounded.{execute_rounds-enough}
use nemoir_web_runtime.Models.Executor.Keeps.{posed-Keeps, on_response-Keeps}

-- `m` leads from `P` to `Q`, whether it returns or throws.
record Leads {A : Type 0} (P Q : State → Type 0) (m : Exec A) : Type 0 where
  at : (s : State) → P s → Q (m s).1

continue-Leads :
    {A B : Type 0} {Q R : State → Type 0} (r : Result A) (f : A → Exec B) (s : State)
    → ((a : A) → Leads Q R (f a))
    → ((s : State) → Q s → R s)
    → Q s
    → R (continue r f s).1
continue-Leads (ok a) f s h k q = (h a).at s q
continue-Leads (err e) f s h k q = k s q

module _ {A B : Type 0} {P Q R : State → Type 0} where
  Leads-bind :
      (m : Exec A) (f : A → Exec B)
      → Leads P Q m
      → ((a : A) → Leads Q R (f a))
      → ((s : State) → Q s → R s)
      → Leads P R (m >>= f)
  unfolding ◌>>=◌
  Leads-bind m f hm hf k = record { at = λ s p. continue-Leads (m s).0 f (m s).1 hf k (hm.at s p) }

Leads-keeps : {A : Type 0} {P : State → Type 0} (m : Exec A) → Keeps P m → Leads P P m
Leads-keeps m h = record { at = h.at }

-- A family of predicates of which a model call leads from each to the next.
pub record Climbs (P : ℕ → State → Type 0) : Type 0 where
  pub log : (n : ℕ) → LogPredicate (P n)
  pub weaken : (n k : ℕ) (s : State) → P n s → P (n + k) s
  pub begins :
      (n : ℕ) (id : JsString) (s : State) → P n s → P (n + 1) (record_entry (model_begun id) s).1

module _ (P : ℕ → State → Type 0) (up : Climbs P) where
  asked-Leads :
      (n : ℕ) (live : Bool) (a : ModelAdapter) (request : ModelRequest)
      → Leads (P n) (P (n + 1)) (ask live a request)
  unfolding ask
  asked-Leads n live a request =
      Leads-bind {Q = P (n + 1)} _ _ (record { at = up.begins n request.stage_id })
        (λ u. record {
          at = λ s. (posed-Keeps (P (n + 1)) (up.log (n + 1)) live a request (length s.log)).at s;
        })
        (λ s p. p)

  module _ (js : Host) (x : ModelStageExecutor) (ctx : StageContext)
      (call : (n : ℕ) (cap : JsString) (args : Dict Value) (name : Option JsString)
        → Keeps (P n) (ctx.call_tool cap args name))
      (adapter : ModelAdapter) (schema : OutputSchema) where
    turn-Leads :
        (n t : ℕ) (messages : List Message)
        → Leads (P n) (P (n + 1)) (turn js x ctx adapter schema t messages)
    unfolding turn
    turn-Leads n t messages =
        Leads-bind {Q = P (n + 1)} _ _ (record { at = (asked-Leads n _ adapter _).at })
          (λ r.
            Leads-keeps _
              (on_response-Keeps (P (n + 1)) (up.log (n + 1)) js x ctx (call (n + 1)) t r))
          (λ s p. p)

    go_on-Leads :
        (n k retries rounds : ℕ) (again : ℕ → ℕ → List Message → Exec (Dict Value))
        (messages : List Message)
        → ((r t : ℕ) (m : List Message) → Leads (P n) (P (n + k)) (again r t m))
        → (taken : Turn)
        → Leads
            (P n)
            (P (n + k))
            (go_on js x ctx adapter schema again retries rounds messages taken)
    unfolding go_on report_tool_error
    go_on-Leads n k retries rounds again messages h (answered out) = record { at = up.weaken n k }
    go_on-Leads n k retries rounds again messages h (invalid e category content) = record {
      at = λ s p. elim (Bool-cases (leb ctx.options.max_model_retries retries)) [
        | inl over ↦ rw over (up.weaken n k s p)
        | inr under ↦ rw under (
            (Leads-bind {Q = P n} _ _ (Leads-keeps _ ((up.log n).emits _ refl)) (λ u. h _ _ _)
                (up.weaken n k)).at
              s p)
      ];
    }
    go_on-Leads n k retries rounds again messages h (used_tools told had) =
        Leads-bind {Q = P n} _ _
          (Leads-keeps _ (Keeps-if had ((up.log n).emits _ refl) (Keeps-pure tt))) (λ u. h _ _ _)
          (up.weaken n k)

    rounds-Leads :
        (fuel n retries rounds : ℕ) (messages : List Message)
        → Leads (P n) (P (n + fuel)) (
            run_rounds js x ctx adapter schema
              (throw model_output_validation)
              fuel
              retries
              rounds
              messages)
    unfolding run_rounds
    rounds-Leads zero n retries rounds messages = record { at = up.weaken n 0 }
    rounds-Leads (suc fuel) n retries rounds messages =
        subst
          (λ k. Leads (P n) (P k) (
            run_rounds js x ctx adapter schema (throw model_output_validation) (suc fuel) retries
              rounds messages))
          (omega arith)
          (Leads-bind {Q = P (n + 1)} _ _ (turn-Leads n rounds messages)
            (go_on-Leads (n + 1) fuel retries rounds _ messages
              (λ r t m. rounds-Leads fuel (n + 1) r t m))
            (up.weaken (n + 1) fuel))

  execute_rounds-Leads :
      (js : Host) (x : ModelStageExecutor) (ctx : StageContext)
      → ((n : ℕ) (cap : JsString) (args : Dict Value) (name : Option JsString)
          → Keeps (P n) (ctx.call_tool cap args name))
      → (rounds n : ℕ)
      → Leads
          (P n)
          (P (n + rounds))
          (execute_rounds js x ctx (throw model_output_validation) rounds)
  unfolding execute_rounds
  execute_rounds-Leads js x ctx call rounds n =
      Leads-bind {Q = P n} _ _ (Leads-keeps _ (Keeps-lift _))
        (λ adapter.
          Leads-bind {Q = P n} _ _ (Leads-keeps _ (Keeps-lift _))
            (λ schema.
              rounds-Leads js x ctx call adapter schema rounds n 0 0
                (build_initial_messages js x ctx))
            (up.weaken n _))
        (up.weaken n _)

  execute-Leads :
      (js : Host) (x : ModelStageExecutor) (ctx : StageContext)
      → ((n : ℕ) (cap : JsString) (args : Dict Value) (name : Option JsString)
          → Keeps (P n) (ctx.call_tool cap args name))
      → (n : ℕ) → Leads (P n) (P (n + enough_rounds js x ctx)) (execute js x ctx)
  unfolding execute execute_within
  execute-Leads js x ctx call n = execute_rounds-Leads js x ctx call (enough_rounds js x ctx) n

-- A predicate that the beginning of a model call keeps.
steady :
    {Q : State → Type 0}
    → LogPredicate Q
    → ((id : JsString) → Keeps Q (record_entry (model_begun id)))
    → Climbs (λ n. Q)
steady log h = record { log = λ n. log; weaken = λ n k s q. q; begins = λ n id. (h id).at }

module _ (js : Host) (x : ModelStageExecutor) (ctx : StageContext) where
  -- The executor keeps the predicates that its context's tool calls keep.
  execute-Keeps :
      {Q : State → Type 0}
      → LogPredicate Q
      → ((id : JsString) → Keeps Q (record_entry (model_begun id)))
      → ((cap : JsString) (args : Dict Value) (name : Option JsString)
          → Keeps Q (ctx.call_tool cap args name))
      → Keeps Q (execute js x ctx)
  execute-Keeps log h call = record {
    at = (execute-Leads _ (steady log h) js x ctx (λ n. call) 0).at;
  }

  pub execute-IsNumbered :
      ((cap : JsString) (args : Dict Value) (name : Option JsString)
        → Keeps IsNumbered (ctx.call_tool cap args name))
      → Keeps IsNumbered (execute js x ctx)
  execute-IsNumbered call = execute-Keeps numbered (λ id. record-IsNumbered _ refl) call

  pub execute-IsEnded :
      (n : ℕ)
      → ((cap : JsString) (args : Dict Value) (name : Option JsString)
          → Keeps (IsEnded n) (ctx.call_tool cap args name))
      → Keeps (IsEnded n) (execute js x ctx)
  unfolding IsEnded
  execute-IsEnded n call =
      execute-Keeps (ended n)
        (λ id. record { at = λ s k. omega (arith, k, (Counts-record (model_begun id)).at s) }) call

abbrev request_of : Entry → ℕ
request_of (model_begun id) = 1
request_of entry = 0

-- The model calls that a log records.
unfoldable pub requests : List Entry → ℕ
requests [] = 0
requests (entry ∷ log) = request_of entry + requests log

requests-append : (xs ys : List Entry) → requests (xs ++ ys) ≡ requests xs + requests ys
unfolding requests
requests-append [] ys = omega arith
requests-append (entry ∷ log) ys = omega (arith, requests-append log ys)

-- At most `n` model calls.
IsAsked : ℕ → State → Type 0
IsAsked n s = requests s.log ≤ n

record-request : (entry : Entry) → is_record entry ≡ true → request_of entry ≡ 0
record-request (model_begun id) h = absurd (ground arith)
record-request entry h = refl

asked : Climbs IsAsked
unfolding IsAsked requests emit record_entry
asked = record {
  log = λ n. record {
    emits = λ p h. record {
      at = λ s k. omega (arith, k, requests-append s.log (event (s.sequence + 1) p ∷ []));
    };
    records = λ entry h. record {
      at = λ s k. omega (arith, k, record-request entry h, requests-append s.log (entry ∷ []));
    };
    calls = λ s cs k. k;
  };
  weaken = λ n k s h. omega (arith, h);
  begins = λ n id s h. omega (arith, h, requests-append s.log (model_begun id ∷ []));
}

module _ (js : Host) (x : ModelStageExecutor) (rt : WorkflowRuntime) (run_env : RunEnv)
    (stage : StageSpec) (readable : Dict Value) where
  abbrev ctx : StageContext
  ctx = make_stage_context rt run_env stage readable

  rounds-requests :
      (rounds : ℕ) (s : State)
      → requests (execute_rounds js x ctx (throw model_output_validation) rounds s).1.log
        ≤ requests s.log + rounds
  unfolding IsAsked make_stage_context nemoir_web_runtime.Policy.enforce_and_call
  rounds-requests rounds s =
      (execute_rounds-Leads IsAsked asked js x ctx
          (λ n cap args name.
            enforce_and_call-Keeps (IsAsked n) (asked.log n) (env rt run_env) stage cap args name)
          rounds (requests s.log)).at
        s (omega arith)

  -- A model stage of a run makes at most `maxModelRetries + maxToolRounds + 1` requests of its adapter,
  -- whatever the adapter answers, and however many rounds its loop is allowed.
  pub execute_rounds-requests :
      (rounds : ℕ) (s : State)
      → requests (execute_rounds js x ctx (throw model_output_validation) rounds s).1.log
        ≤ requests s.log + (run_env.options.max_model_retries + x.max_tool_rounds + 1)
  unfolding make_stage_context
  execute_rounds-requests rounds s =
      elim (Bool-cases (leb rounds (run_env.options.max_model_retries + x.max_tool_rounds + 1))) [
        | inl few ↦ let bound = rounds-requests rounds s in ground (arith, bound, few)
        | inr many ↦
            let bound = rounds-requests (enough_rounds js x ctx) s in
            let same =
              execute_rounds-enough js x ctx (throw model_output_validation) rounds
                (ground (arith, many)) s in
            let enough =
              execute_rounds-enough js x ctx (throw model_output_validation)
                (enough_rounds js x ctx) (omega arith) s in
            subst
              (λ (r : Result (Dict Value) × State).
                requests r.1.log
                ≤ requests s.log + (run_env.options.max_model_retries + x.max_tool_rounds + 1))
              (enough ∙ sym same) (omega (arith, bound))
      ]
