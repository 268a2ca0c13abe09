-- ===== src/Events.antt =====
-- events.ts: the events of a run, and the state that a run's operations thread: the emitter's sequence
-- number, the log of events and of the calls on the trace recorder, and the handler calls made.
pub mod Calls
pub mod Outcomes
pub mod Sequence
pub mod Terminal
pub mod Predicates
use nemoir_web_runtime.Prelude.{ℕ, ◌+◌, Bool, Option, List, [], ◌∷◌, ◌++◌}
use nemoir_web_runtime.Errors.{Error, Result, ok, err}
use nemoir_web_runtime.Js.Text.{JsString}
use nemoir_web_runtime.Js.Value.{Value}
use nemoir_web_runtime.Js.Dict.{Dict}

pub record WorkflowState : Type 0 where
  pub current_stage_id : JsString
  pub stage_outputs : Dict (Dict Value)
  pub steps : ℕ

pub record WorkflowResult : Type 0 where
  pub output : Dict Value
  pub state : WorkflowState

-- `metadata.category` of a `model_retry` event.
pub data RetryCategory : Type 0 where
  tool_call_parse stage_output semantic_output tool_call : RetryCategory

-- The kinds of event that the runtime and the model executor emit, with the fields that bear on the model.
pub data Payload : Type 0 where
  run_started : JsString → Payload
  stage_started : JsString → Payload
  -- stage, capability, tool name, arguments
  tool_call_started : JsString → JsString → JsString → Dict Value → Payload
  tool_call_completed tool_call_failed : JsString → JsString → JsString → Payload
  -- stage, capability, policy; for a deny policy also whether it denied
  deny_checked : JsString → JsString → JsString → Bool → Payload
  before_checked : JsString → JsString → JsString → List JsString → Payload
  policy_denied : JsString → JsString → JsString → Payload
  transition_selected : JsString → JsString → Payload
  stage_completed : JsString → Dict Value → Payload
  run_completed : WorkflowResult → Payload
  run_failed : Error → Payload
  model_completed : JsString → Payload
  -- stage, channel, text
  model_delta : JsString → Option JsString → Option JsString → Payload
  -- stage, category, attempt, the most attempts
  model_retry : JsString → RetryCategory → ℕ → ℕ → Payload

pub data FinishStatus : Type 0 where
  complete failed interrupted : FinishStatus

pub data Entry : Type 0 where
  -- an event and its sequence number
  event : ℕ → Payload → Entry
  -- calls on the recorder
  policy_recorded : JsString → Bool → Entry
  tool_begun : JsString → Entry
  tool_result : Dict Value → Value → Entry
  tool_error : Error → Entry
  run_begun : Dict Value → Entry
  stage_begun transition_evaluated : JsString → Entry
  run_error : Error → Entry
  run_finished : FinishStatus → Entry
  model_begun : JsString → Entry
  -- stage, number of tool calls
  model_response : JsString → ℕ → Entry

-- A call of a tool's handler, and what it returned or threw.
pub record Call : Type 0 where
  pub capability : JsString
  pub tool : JsString
  pub args : Dict Value
  pub outcome : Result Value

pub record State : Type 0 where
  pub sequence : ℕ
  pub log : List Entry
  pub calls : List Call

abbrev pub Exec {ℓ} : Type ℓ → Type ℓ
Exec A = State → Result A × State

module _ {ℓ} {A : Type ℓ} where
  abbrev pub pure : A → Exec A
  pure a s = (ok a, s)

  abbrev pub throw : Error → Exec A
  throw e s = (err e, s)

  -- a computation that touches no state
  abbrev pub lift : Result A → Exec A
  lift r s = (r, s)

module _ {ℓ κ} {A : Type ℓ} {B : Type κ} where
  abbrev pub continue : Result A → (A → Exec B) → Exec B
  continue (ok a) f s = f a s
  continue (err e) f s = (err e, s)

  infixl 5 ◌>>=◌ ◌>>◌
  unfoldable pub ◌>>=◌ : Exec A → (A → Exec B) → Exec B
  ◌>>=◌ m f s = let (r, s') = m s in continue r f s'

  abbrev pub ◌>>◌ : Exec A → Exec B → Exec B
  m >> n = m >>= λ _. n

-- `emit`: the sequence number grows by one and the event gets it. A sink or an observer that throws is
-- not modelled.
unfoldable pub emit : Payload → Exec (Unit {0})
emit p s =
    (ok tt, record s { sequence = s.sequence + 1; log = s.log ++ event (s.sequence + 1) p ∷ [] })

-- A call on the recorder, which does not throw.
unfoldable pub record_entry : Entry → Exec (Unit {0})
record_entry entry s = (ok tt, record s { log = s.log ++ entry ∷ [] })
