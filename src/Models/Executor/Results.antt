-- ===== src/Models/Executor/Results.antt =====
-- models.ts: what a round of the executor leads to, and what `execute` returns.
use nemoir_web_runtime.Prelude.{
  ℕ, zero, suc, ◌≡◌, refl, subst, true, false, not, ◌&&◌, Option, List, [], ◌∷◌, map, leb,
}
use nemoir_web_runtime.Errors.{Error, Result, ok, err, model_output_validation}
use nemoir_web_runtime.Js.Text.{JsString}
use nemoir_web_runtime.Js.Value.{Value}
use nemoir_web_runtime.Js.Dict.{Dict}
use nemoir_web_runtime.Output.{write_name, validate_output}
use nemoir_web_runtime.Events.{Exec, State, throw, ◌>>=◌, RetryCategory}
use nemoir_web_runtime.Events.Outcomes.{Outcome, Ends, Ends-if, Ends-bind, Total}
use nemoir_web_runtime.Runtime.{StageContext}
use nemoir_web_runtime.Models.Schema.{OutputSchema}
use nemoir_web_runtime.Models.Contract.{ModelToolCall, ModelResponse, Message, ModelAdapter}
use nemoir_web_runtime.Models.Output.{normalize_stage_output}
use nemoir_web_runtime.Models.Output.Valid.{has_distinct, normalize_stage_output-validate_output}
use nemoir_web_runtime.Models.Envelope.{Host, StageAction, final}
use nemoir_web_runtime.Models.Envelope
use nemoir_web_runtime.Models.Executor.{
  ModelStageExecutor, is_native, is_empty, Turn, answered, invalid, used_tools, use_tagged_envelope,
}
use nemoir_web_runtime.Models.Executor.Rounds.{
  semantic_validation_error, caught, on_judgement, on_normalized, check_output, on_plain,
  tagged_call, on_action, native_calls, on_response, turn, go_on, run_rounds,
  build_initial_messages, enough_rounds, execute_within, execute,
}

-- Any error.
abbrev pub AnyError : Error → Type 0
AnyError e = Unit

Outcome-any : {A : Type 0} (r : Result A) → Outcome (λ a. Unit) AnyError r
Outcome-any (ok a) = tt
Outcome-any (err e) = tt

Ends-any : {A : Type 0} (m : Exec A) → Total AnyError m
Ends-any m = record { at = λ s. Outcome-any (m s).0 }

-- After a step of which nothing is known.
Ends-after :
    {A B : Type 0} {Q : B → Type 0} (m : Exec A) (f : A → Exec B)
    → ((a : A) → Ends Q AnyError (f a))
    → Ends Q AnyError (m >>= f)
Ends-after {Q} m f h = Ends-bind (λ a. Unit) Q AnyError m f (Ends-any m) (λ a u. h a)

module _ (js : Host) (x : ModelStageExecutor) (ctx : StageContext) where
  -- An output that was normalised for the stage, and that the stage's validator accepts.
  pub Accepted : Dict Value → Type 0
  Accepted out =
      ((raw : Dict Value) × (normalize_stage_output js.copied ctx.stage raw ≡ ok out))
      × (semantic_validation_error js x ctx out ≡ ok [])

  -- A round answers with an accepted output, or calls tools below their limit.
  unfoldable pub TurnIs : ℕ → Turn → Type 0
  TurnIs tool_rounds (answered out) = Accepted out
  TurnIs tool_rounds (invalid e category content) = Unit
  TurnIs tool_rounds (used_tools told had) = leb x.max_tool_rounds tool_rounds ≡ false

  module _ (n : ℕ) where
    abbrev Round : Exec Turn → Type 0
    Round m = Ends (TurnIs n) AnyError m

    caught-Round :
        (category : RetryCategory) (content : Option JsString) (e : Error)
        → Round (caught js x ctx category content e)
    unfolding caught TurnIs
    caught-Round category content model_output_validation = record { at = λ s. tt }
    caught-Round category content e = record { at = λ s. tt }

    judged-Round :
        (content : JsString) (raw out : Dict Value) (r : Result (List JsString))
        → normalize_stage_output js.copied ctx.stage raw ≡ ok out
        → semantic_validation_error js x ctx out ≡ r
        → Round (on_judgement js x ctx content out r)
    unfolding on_judgement TurnIs Accepted
    judged-Round content raw out (ok []) h k = record { at = λ s. ((raw, h), k) }
    judged-Round content raw out (ok (e ∷ es)) h k = record { at = λ s. tt }
    judged-Round content raw out (err e) h k = caught-Round _ _ e

    normalized-Round :
        (content : JsString) (raw : Dict Value) (r : Result (Dict Value))
        → normalize_stage_output js.copied ctx.stage raw ≡ r
        → Round (on_normalized js x ctx content r)
    unfolding on_normalized
    normalized-Round content raw (ok out) h = judged-Round content raw out _ h refl
    normalized-Round content raw (err e) h = caught-Round _ _ e

    checked-Round :
        (content : JsString) (parsed : Dict Value) → Round (check_output js x ctx content parsed)
    unfolding check_output
    checked-Round content parsed = normalized-Round content parsed _ refl

    plain-Round :
        (content : JsString) (r : Result (Dict Value)) → Round (on_plain js x ctx content r)
    unfolding on_plain
    plain-Round content (ok parsed) = checked-Round content parsed
    plain-Round content (err e) = caught-Round _ _ e

    tagged-Round :
        (content name : JsString) (args : Dict Value)
        → Round (tagged_call js x ctx n content name args)
    unfolding tagged_call TurnIs
    tagged-Round content name args =
        Ends-if (TurnIs n) AnyError (leb x.max_tool_rounds n) (λ over. record { at = λ s. tt })
          (λ under. Ends-after _ _ (λ outcome. Ends-after _ _ (λ told. record { at = λ s. under })))

    action-Round :
        (content : JsString) (r : Result StageAction) → Round (on_action js x ctx n content r)
    unfolding on_action
    action-Round content (ok (final output)) = checked-Round content output
    action-Round content (ok (Envelope.tool_call name args)) = tagged-Round content name args
    action-Round content (err e) = caught-Round _ _ e

    native-Round : (calls : List ModelToolCall) → Round (native_calls js x ctx n calls)
    unfolding native_calls TurnIs
    native-Round calls =
        Ends-if (TurnIs n) AnyError (leb x.max_tool_rounds n) (λ over. record { at = λ s. tt })
          (λ under. Ends-after _ _ (λ told. record { at = λ s. under }))

    response-Round : (r : Result ModelResponse) → Round (on_response js x ctx n r)
    unfolding on_response
    response-Round (err e) = caught-Round _ _ e
    response-Round (ok response) =
        Ends-if (TurnIs n) AnyError
          (is_native x.action_protocol && not (is_empty response.tool_calls))
          (λ calls. native-Round response.tool_calls)
          (λ none_.
            Ends-if (TurnIs n) AnyError (is_empty response.content)
              (λ nothing. record { at = λ s. tt })
              (λ something.
                Ends-if (TurnIs n) AnyError (use_tagged_envelope js x ctx)
                  (λ tagged. action-Round response.content _)
                  (λ plain. plain-Round response.content _)))

  module _ (adapter : ModelAdapter) (schema : OutputSchema) where
    pub turn-TurnIs :
        (n : ℕ) (messages : List Message)
        → Ends (TurnIs n) AnyError (turn js x ctx adapter schema n messages)
    unfolding turn
    turn-TurnIs n messages = Ends-after _ _ (λ response. response-Round n response)

    go_on-Accepted :
        (again : ℕ → ℕ → List Message → Exec (Dict Value)) (retries rounds : ℕ)
        (messages : List Message)
        → ((r t : ℕ) (m : List Message) → Ends Accepted AnyError (again r t m))
        → (taken : Turn) → TurnIs rounds taken
        → Ends Accepted AnyError (go_on js x ctx adapter schema again retries rounds messages taken)
    unfolding go_on TurnIs
    go_on-Accepted again retries rounds messages h (answered out) k = record { at = λ s. k }
    go_on-Accepted again retries rounds messages h (invalid e category content) k =
        Ends-if Accepted AnyError (leb ctx.options.max_model_retries retries)
          (λ over. record { at = λ s. tt }) (λ under. Ends-after _ _ (λ u. h _ _ _))
    go_on-Accepted again retries rounds messages h (used_tools told had) k =
        Ends-after _ _ (λ u. h _ _ _)

    rounds-Accepted :
        (stuck : Exec (Dict Value)) (fuel retries rounds : ℕ) (messages : List Message)
        → Ends Accepted AnyError stuck
        → Ends Accepted AnyError
            (run_rounds js x ctx adapter schema stuck fuel retries rounds messages)
    unfolding run_rounds
    rounds-Accepted stuck zero retries rounds messages h = h
    rounds-Accepted stuck (suc fuel) retries rounds messages h =
        Ends-bind (TurnIs rounds) Accepted AnyError _ _ (turn-TurnIs rounds messages)
          (go_on-Accepted _ retries rounds messages (λ r t m. rounds-Accepted stuck fuel r t m h))

  execute-Accepted : Ends Accepted AnyError (execute js x ctx)
  unfolding execute execute_within
  execute-Accepted = Ends-after _ _ (λ adapter. Ends-after _ _ (λ schema.
      rounds-Accepted adapter schema (throw model_output_validation) (enough_rounds js x ctx) 0 0
        (build_initial_messages js x ctx) (record { at = λ s. tt })))

  -- Where the writes of a stage have distinct names, an output that the model executor returns passes
  -- the runtime's check for that stage, and the stage's semantic validator, if there is one, finds no
  -- error in it.
  pub execute-validate_output :
      (s : State) (out : Dict Value)
      → has_distinct (map write_name ctx.stage.writes) ≡ true
      → (execute js x ctx s).0 ≡ ok out
      → (validate_output ctx.stage out ≡ ok tt) × (semantic_validation_error js x ctx out ≡ ok [])
  unfolding Accepted
  execute-validate_output s out d h =
      let ((raw, normal), judged) = subst (Outcome Accepted AnyError) h (execute-Accepted.at s) in
      (normalize_stage_output-validate_output js.copied ctx.stage raw d normal, judged)
