-- ===== src/Events/Predicates.antt =====
-- events.ts: predicates of a run's state that events in the middle of a run and entries of the recorder
-- keep.
use nemoir_web_runtime.Prelude.{ℕ, ◌≡◌, refl, Bool, true, false, List, [], arith}
use nemoir_web_runtime.Events.{State, Call, Entry, event, model_begun, Payload, emit, record_entry}
use nemoir_web_runtime.Events.Sequence.{
  IsNumbered, number_of, Keeps, emit-IsNumbered, record-IsNumbered,
}
use nemoir_web_runtime.Events.Terminal.{
  ends_run, terminal_of, terminals, Counts-emit, Counts-record,
}

-- An entry of the recorder other than the beginning of a model call.
abbrev pub is_record : Entry → Bool
is_record (event n p) = false
is_record (model_begun id) = false
is_record entry = true

pub record LogPredicate (P : State → Type 0) : Type 0 where
  pub emits : (p : Payload) → ends_run p ≡ 0 → Keeps P (emit p)
  pub records : (entry : Entry) → is_record entry ≡ true → Keeps P (record_entry entry)
  -- the handler calls are of no matter
  pub calls : (s : State) (cs : List Call) → P s → P (record s { calls = cs })

record-number : (entry : Entry) → is_record entry ≡ true → number_of entry ≡ []
record-number (event n p) h = absurd (ground arith)
record-number entry h = refl

pub numbered : LogPredicate IsNumbered
numbered = record {
  emits = λ p h. emit-IsNumbered p;
  records = λ entry h. record-IsNumbered entry (record-number entry h);
  calls = λ s cs h. h;
}

-- `n` events that end a run.
unfoldable pub IsEnded : ℕ → State → Type 0
IsEnded n s = terminals s.log ≡ n

record-terminal : (entry : Entry) → is_record entry ≡ true → terminal_of entry ≡ 0
record-terminal (event n p) h = absurd (ground arith)
record-terminal entry h = refl

pub ended : (n : ℕ) → LogPredicate (IsEnded n)
unfolding IsEnded
ended n = record {
  emits = λ p h. record { at = λ s k. omega (arith, h, k, (Counts-emit p).at s) };
  records = λ entry h. record {
    at = λ s k. omega (arith, record-terminal entry h, k, (Counts-record entry).at s);
  };
  calls = λ s cs h. h;
}
