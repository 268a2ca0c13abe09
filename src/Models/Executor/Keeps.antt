-- ===== src/Models/Executor/Keeps.antt =====
-- models.ts: predicates of the state through the rounds of `execute`.
use nemoir_web_runtime.Prelude.{
  ℕ, ◌+◌, refl, Bool, not, ◌&&◌, Option, none, some, List, [], ◌∷◌, leb,
}
use nemoir_web_runtime.Errors.{Error, Result, ok, err, model_output_validation}
use nemoir_web_runtime.Js.Text.{JsString, contains}
use nemoir_web_runtime.Js.Value.{Value}
use nemoir_web_runtime.Js.Dict.{Dict}
use nemoir_web_runtime.Tools.{get_by_name}
use nemoir_web_runtime.Events.{Exec, State, RetryCategory}
use nemoir_web_runtime.Events.Sequence.{
  Keeps, Keeps-lift, Keeps-pure, Keeps-throw, Keeps-if, Keeps-bind,
}
use nemoir_web_runtime.Events.Predicates.{LogPredicate}
use nemoir_web_runtime.Runtime.{StageContext}
use nemoir_web_runtime.Models.Contract.{
  ModelToolCall, ModelResponse, Message, ModelRequest, ModelStreamChunk, delta, completed,
  ModelStream, ModelAdapter,
}
use nemoir_web_runtime.Models.Envelope.{Host, StageAction, final}
use nemoir_web_runtime.Models.Envelope
use nemoir_web_runtime.Models.Executor.{
  ModelStageExecutor, attempt, is_native, is_empty, is_correctable, feedback, use_tool, use_tools,
  use_tagged_envelope,
}
use nemoir_web_runtime.Models.Executor.Asking.{
  record_response, read_chunks, end_stream, complete_request, stream_request, pose,
}
use nemoir_web_runtime.Models.Executor.Rounds.{
  caught, on_judgement, on_normalized, check_output, on_plain, tagged_call, on_action, native_calls,
  on_response,
}

attempt-Keeps : {A : Type 0} {P : State → Type 0} (m : Exec A) → Keeps P m → Keeps P (attempt m)
attempt-Keeps m h = record { at = h.at }

Keeps-option :
    {A B : Type 0} {P : State → Type 0} (o : Option B) {m : Exec A} {f : B → Exec A}
    → Keeps P m
    → ((b : B) → Keeps P (f b))
    → Keeps P (elim o [ none ↦ m | some b ↦ f b ])
Keeps-option none hm hf = hm
Keeps-option (some b) hm hf = hf b

module _ (P : State → Type 0) (log : LogPredicate P) where
  response-Keeps : (id : JsString) (r : Option ModelResponse) → Keeps P (record_response id r)
  unfolding record_response
  response-Keeps id none = Keeps-pure tt
  response-Keeps id (some r) = log.records _ refl

  chunks-Keeps :
      (id : JsString) (last : Option ModelResponse) (chunks : List ModelStreamChunk)
      → Keeps P (read_chunks id last chunks)
  unfolding read_chunks
  chunks-Keeps id last [] = Keeps-pure last
  chunks-Keeps id last (delta channel text ∷ chunks) =
      Keeps-bind _ _ (log.emits _ refl) (λ _. chunks-Keeps id last chunks)
  chunks-Keeps id last (completed r ∷ chunks) =
      Keeps-bind _ _ (Keeps-bind _ _ (response-Keeps id r) (λ _. log.emits _ refl))
        (λ _. chunks-Keeps id r chunks)

  ended-Keeps : (s : ModelStream) (last : Option ModelResponse) → Keeps P (end_stream s last)
  unfolding end_stream
  ended-Keeps s last =
      Keeps-option s.failure (Keeps-option last (Keeps-throw _) (λ r. Keeps-pure r))
        (λ e. Keeps-throw e)

  streamed-Keeps : (id : JsString) (s : ModelStream) → Keeps P (stream_request id s)
  unfolding stream_request
  streamed-Keeps id s = Keeps-bind _ _ (chunks-Keeps id none s.chunks) (λ last. ended-Keeps s last)

  completed-Keeps : (id : JsString) (r : Result ModelResponse) → Keeps P (complete_request id r)
  unfolding complete_request
  completed-Keeps id r = Keeps-bind _ _ (Keeps-lift r) (λ response.
      Keeps-bind _ _ (Keeps-bind _ _ (response-Keeps id (some response)) (λ _. log.emits _ refl))
        (λ _. Keeps-pure response))

  pub posed-Keeps :
      (live : Bool) (a : ModelAdapter) (request : ModelRequest) (n : ℕ)
      → Keeps P (pose live a request n)
  unfolding pose
  posed-Keeps live a request n =
      Keeps-option a.stream (completed-Keeps _ _)
        (λ stream. Keeps-if live (streamed-Keeps _ _) (completed-Keeps _ _))

  feedback-Keeps :
      (f : Value → Message) (g : Error → Message) (r : Result Value) → Keeps P (feedback f g r)
  unfolding feedback
  feedback-Keeps f g (ok v) = Keeps-pure _
  feedback-Keeps f g (err e) = Keeps-if (is_correctable e) (Keeps-pure _) (Keeps-throw e)

  module _ (js : Host) (x : ModelStageExecutor) (ctx : StageContext)
      (call : (cap : JsString) (args : Dict Value) (name : Option JsString)
        → Keeps P (ctx.call_tool cap args name)) where
    tool-Keeps : (name : JsString) (args : Dict Value) → Keeps P (use_tool js x ctx name args)
    unfolding use_tool
    tool-Keeps name args = Keeps-option (get_by_name name x.tools) (Keeps-throw _) (λ tool.
        Keeps-if (not (contains ctx.allowed_capabilities tool.capability)) (Keeps-throw _) (
          Keeps-bind _ _ (Keeps-lift _) (λ checked. call tool.capability checked (some tool.name))))

    tools-Keeps : (i : ℕ) (tcs : List ModelToolCall) → Keeps P (use_tools js x ctx i tcs)
    unfolding use_tools
    tools-Keeps i [] = Keeps-pure _
    tools-Keeps i (tc ∷ tcs) =
        Keeps-bind _ _ (attempt-Keeps _ (tool-Keeps tc.name tc.arguments)) (λ outcome.
          Keeps-bind _ _ (feedback-Keeps _ _ outcome)
            (λ told. Keeps-bind _ _ (tools-Keeps (i + 1) tcs) (λ others. Keeps-pure _)))

    caught-Keeps :
        (category : RetryCategory) (content : Option JsString) (e : Error)
        → Keeps P (caught js x ctx category content e)
    unfolding caught
    caught-Keeps category content model_output_validation = Keeps-pure _
    caught-Keeps category content e = Keeps-throw _

    judged-Keeps :
        (content : JsString) (out : Dict Value) (r : Result (List JsString))
        → Keeps P (on_judgement js x ctx content out r)
    unfolding on_judgement
    judged-Keeps content out (ok []) = Keeps-pure _
    judged-Keeps content out (ok (e ∷ es)) = Keeps-pure _
    judged-Keeps content out (err e) = caught-Keeps _ _ e

    normalized-Keeps :
        (content : JsString) (r : Result (Dict Value)) → Keeps P (on_normalized js x ctx content r)
    unfolding on_normalized
    normalized-Keeps content (ok out) = judged-Keeps content out _
    normalized-Keeps content (err e) = caught-Keeps _ _ e

    plain-Keeps :
        (content : JsString) (r : Result (Dict Value)) → Keeps P (on_plain js x ctx content r)
    unfolding on_plain check_output
    plain-Keeps content (ok parsed) = normalized-Keeps content _
    plain-Keeps content (err e) = caught-Keeps _ _ e

    action-Keeps :
        (n : ℕ) (content : JsString) (r : Result StageAction)
        → Keeps P (on_action js x ctx n content r)
    unfolding on_action check_output tagged_call
    action-Keeps n content (ok (final output)) = normalized-Keeps content _
    action-Keeps n content (ok (Envelope.tool_call name args)) =
        Keeps-if (leb x.max_tool_rounds n) (Keeps-throw _) (
          Keeps-bind _ _ (attempt-Keeps _ (tool-Keeps name args))
            (λ outcome. Keeps-bind _ _ (feedback-Keeps _ _ outcome) (λ told. Keeps-pure _)))
    action-Keeps n content (err e) = caught-Keeps _ _ e

    -- What follows the answer of the adapter in a round.
    pub on_response-Keeps : (n : ℕ) (r : Result ModelResponse) → Keeps P (on_response js x ctx n r)
    unfolding on_response native_calls
    on_response-Keeps n (err e) = caught-Keeps _ _ e
    on_response-Keeps n (ok response) =
        Keeps-if (is_native x.action_protocol && not (is_empty response.tool_calls))
          (Keeps-if (leb x.max_tool_rounds n) (Keeps-throw _)
            (Keeps-bind _ _ (tools-Keeps 0 response.tool_calls) (λ told. Keeps-pure _)))
          (Keeps-if (is_empty response.content) (Keeps-throw _) (
            Keeps-if (use_tagged_envelope js x ctx) (action-Keeps n response.content _)
              (plain-Keeps response.content _)))
