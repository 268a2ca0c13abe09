-- ===== src/Models/Executor/Asking.antt =====
-- models.ts: one request to the adapter, streamed or not.
use nemoir_web_runtime.Prelude.{ℕ, Bool, Option, none, some, List, [], ◌∷◌, length, if◌then◌else◌}
use nemoir_web_runtime.Errors.{Result, model_output_validation}
use nemoir_web_runtime.Js.Text.{JsString}
use nemoir_web_runtime.Events.{
  Exec, State, pure, throw, lift, ◌>>=◌, ◌>>◌, emit, record_entry, model_completed, model_delta,
  model_begun, model_response,
}
use nemoir_web_runtime.Models.Contract.{
  ModelResponse, ModelRequest, ModelStreamChunk, delta, completed, ModelStream, ModelAdapter,
}

-- `rec.recordModelResponse`, for the response of a finished chunk, if it has one
unfoldable pub record_response : JsString → Option ModelResponse → Exec (Unit {0})
record_response stage_id none = pure tt
record_response stage_id (some response) =
    record_entry (model_response stage_id (length response.tool_calls))

-- The loop over the chunks, with `finalResponse` so far.
unfoldable pub read_chunks :
    JsString → Option ModelResponse → List ModelStreamChunk → Exec (Option ModelResponse)
unfolding record_response
read_chunks stage_id final_response [] = pure final_response
read_chunks stage_id final_response (delta channel text ∷ chunks) =
    emit (model_delta stage_id channel text) >> read_chunks stage_id final_response chunks
read_chunks stage_id final_response (completed response ∷ chunks) =
    record_response stage_id response
    >> emit (model_completed stage_id)
    >> read_chunks stage_id response chunks

-- The end of the stream: it may throw, and it may have had no final response.
unfoldable pub end_stream : ModelStream → Option ModelResponse → Exec ModelResponse
end_stream stream final_response = elim stream.failure [
  | some e ↦ throw e
  | none ↦ elim final_response [
    | none ↦ throw model_output_validation
    | some response ↦ pure response
  ]
]

unfoldable pub complete_request : JsString → Result ModelResponse → Exec ModelResponse
unfolding record_response
complete_request stage_id answer = lift answer >>= λ response.
    record_response stage_id (some response) >> emit (model_completed stage_id) >> pure response

unfoldable pub stream_request : JsString → ModelStream → Exec ModelResponse
unfolding read_chunks end_stream
stream_request stage_id stream =
    read_chunks stage_id none stream.chunks >>= λ final_response. end_stream stream final_response

-- The request, as a stream where somebody listens and the adapter has one, at a length of the log.
unfoldable pub pose : Bool → ModelAdapter → ModelRequest → ℕ → Exec ModelResponse
unfolding stream_request complete_request
pose has_live_sink adapter request n = elim adapter.stream [
  | none ↦ complete_request request.stage_id (adapter.complete n request)
  | some stream ↦
      if has_live_sink
      then stream_request request.stage_id (stream n request)
      else complete_request request.stage_id (adapter.complete n request)
]

-- The `try` block of a round: `rec.beginModelCall`, and the request.
unfoldable pub ask : Bool → ModelAdapter → ModelRequest → Exec ModelResponse
unfolding pose
ask has_live_sink adapter request = record_entry (model_begun request.stage_id) >> λ (s : State).
    pose has_live_sink adapter request (length s.log) s
