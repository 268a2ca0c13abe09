-- ===== src/Examples/Models.antt =====
-- A model that answers the drafting stage, and texts that models write.
use nemoir_web_runtime.Prelude.{◌+◌, ◌≤◌, ◌≡◌, refl, true, false, none, some, [], ◌∷◌, ◌++◌}
use nemoir_web_runtime.Errors.{ok, other_error}
use nemoir_web_runtime.Js.Text.{JsString, codes}
use nemoir_web_runtime.Js.Value.{Value, num, obj, arr, nil, cons, field, end}
use nemoir_web_runtime.Js.Dict.{Dict}
use nemoir_web_runtime.Output.{validate_output}
use nemoir_web_runtime.Output.JsonSafe.{is_json_safe_value}
use nemoir_web_runtime.Events.{throw}
use nemoir_web_runtime.Runtime.{StageContext, make_stage_context}
use nemoir_web_runtime.Models.Contract.{ModelAdapter, single}
use nemoir_web_runtime.Models.Output.{normalize_stage_output}
use nemoir_web_runtime.Models.Output.Safe.{is_model_json_safe_value, is_model_json_safe_value-eq}
use nemoir_web_runtime.Models.Output.Valid.{normalize_stage_output-validate_output}
use nemoir_web_runtime.Models.Extract.{backslash, extract, extract_first_json_object}
use nemoir_web_runtime.Models.Extract.Balanced.Steps.{outside, closes}
use nemoir_web_runtime.Models.Extract.Balanced.{extract-closes}
use nemoir_web_runtime.Models.Extract.Embedded.{extract-embedded}
use nemoir_web_runtime.Models.Envelope.{Host}
use nemoir_web_runtime.Models.Executor.{ModelStageExecutor, new_executor}
use nemoir_web_runtime.Models.Executor.Rounds.{semantic_validation_error, execute_within, execute}
use nemoir_web_runtime.Models.Executor.Results.{execute-validate_output}
use nemoir_web_runtime.Models.Executor.Bounded.{execute_within-eq}
use nemoir_web_runtime.Models.Executor.Requests.{requests, execute_rounds-requests}
use nemoir_web_runtime.Models.Executor.Rounds.{execute_rounds}
use nemoir_web_runtime.Errors.{model_output_validation}
use nemoir_web_runtime.Events.{throw}
use nemoir_web_runtime.Examples.Data.{draft, three, registry, runtime, run_env, start}

abbrev scored : Dict Value
scored = (codes "score", num three) ∷ []

-- The score, and empty notes.
abbrev raw : Dict Value
raw = (codes "score", num three) ∷ (codes "notes", arr 1 nil) ∷ []

abbrev normal : Dict Value
normal = (codes "score", num three) ∷ (codes "notes", nemoir_web_runtime.Js.Value.null) ∷ []

-- An engine that reads every text as the object with the score.
abbrev pub js : Host
js = record {
  json_parse = λ s. some (obj 1 (field (codes "score") (num three) end));
  json_repair = λ s. none;
  trim = λ s. s;
  copied = λ i. i + 1;
}

abbrev pub answering : ModelAdapter
answering = record {
  complete = λ n request. ok (record { content = codes "{}"; tool_calls = [] });
  stream = none;
  reasoning = none;
}

abbrev executor : ModelStageExecutor
executor = new_executor (single answering) registry none none []

abbrev context : StageContext
context = make_stage_context runtime run_env draft []

-- `so {"a":"}"} ok`, by its parts
abbrev prose : JsString
prose = codes "so "

abbrev object : JsString
object = 123 ∷ 34 ∷ 97 ∷ 34 ∷ 58 ∷ 34 ∷ 125 ∷ 34 ∷ 125 ∷ []

-- `{"kind":"\`
abbrev cut : JsString
cut = codes "{\"kind\":\"" ++ backslash ∷ []

execute-validate_output_example :
    (validate_output draft normal ≡ ok tt)
    × (semantic_validation_error js executor context normal ≡ ok [])
unfolding nemoir_web_runtime.Models.Output.Valid.has_distinct make_stage_context
    nemoir_web_runtime.Js.Text.contains nemoir_web_runtime.Js.Text.◌==◌ execute
    nemoir_web_runtime.Events.◌>>=◌ nemoir_web_runtime.Models.Contract.model_for_stage new_executor
    nemoir_web_runtime.Models.Schema.output_schema_for_stage
    nemoir_web_runtime.Models.Schema.write_type_to_json
    nemoir_web_runtime.Models.Executor.Asking.ask nemoir_web_runtime.Events.record_entry
    nemoir_web_runtime.Events.emit nemoir_web_runtime.Models.Executor.use_tagged_envelope
    nemoir_web_runtime.Models.Envelope.parse_plain_stage_output nemoir_web_runtime.Js.Dict.get
    nemoir_web_runtime.Js.Dict.lookup nemoir_web_runtime.Js.Value.fields
    nemoir_web_runtime.Js.Dict.has normalize_stage_output nemoir_web_runtime.Js.Dict.keys
    nemoir_web_runtime.Js.Dict.insert
execute-validate_output_example = execute-validate_output js executor context start normal refl refl

execute_within-eq_example :
    execute_within js executor context (throw other_error) start ≡ execute js executor context start
execute_within-eq_example = execute_within-eq js executor context (throw other_error) start

execute_rounds-requests_example :
    requests (execute_rounds js executor context (throw model_output_validation) 1000 start).1.log
    ≤ requests start.log + (3 + 32 + 1)
unfolding new_executor
execute_rounds-requests_example =
    execute_rounds-requests js executor runtime run_env draft [] 1000 start

normalize_stage_output-validate_output_example : validate_output draft normal ≡ ok tt
unfolding nemoir_web_runtime.Models.Output.Valid.has_distinct nemoir_web_runtime.Js.Text.contains
    nemoir_web_runtime.Js.Text.◌==◌ normalize_stage_output nemoir_web_runtime.Js.Dict.keys
    nemoir_web_runtime.Js.Dict.get nemoir_web_runtime.Js.Dict.lookup
    nemoir_web_runtime.Js.Text.ends_with nemoir_web_runtime.Js.Dict.insert
normalize_stage_output-validate_output_example =
    normalize_stage_output-validate_output (λ i. i + 1) draft raw refl refl

is_model_json_safe_value-eq_example :
    is_model_json_safe_value (arr 1 (cons (obj 2 end) (cons (obj 2 end) nil)))
    ≡ is_json_safe_value (arr 1 (cons (obj 2 end) (cons (obj 2 end) nil)))
is_model_json_safe_value-eq_example =
    is_model_json_safe_value-eq (arr 1 (cons (obj 2 end) (cons (obj 2 end) nil)))

extract-closes_example : closes outside 0 object ≡ true
unfolding nemoir_web_runtime.Js.Text.ends_with nemoir_web_runtime.Js.Text.◌==◌ extract
    nemoir_web_runtime.Models.Extract.step
extract-closes_example = extract-closes (λ text. true) (prose ++ object) object refl refl

extract-embedded_example : extract (λ text. true) (prose ++ (object ++ codes " ok")) ≡ some object
unfolding nemoir_web_runtime.Models.Extract.Embedded.is_object_text
extract-embedded_example = extract-embedded (λ text. true) prose object (codes " ok") refl refl refl

-- An object that the content breaks off after a backslash is completed inside its string.
cut_test : extract_first_json_object cut ≡ some (cut ++ 34 ∷ 125 ∷ [])
unfolding extract_first_json_object nemoir_web_runtime.Models.Extract.step
    nemoir_web_runtime.Js.Text.includes nemoir_web_runtime.Js.Text.starts_with
cut_test = refl

cut-open_test : closes outside 0 (cut ++ 34 ∷ 125 ∷ []) ≡ false
unfolding closes
cut-open_test = refl
