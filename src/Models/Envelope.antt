-- ===== src/Models/Envelope.antt =====
-- models.ts: parsing of the text that a model returned.
use nemoir_web_runtime.Prelude.{ℕ, Bool, false, Option, none, some, if◌then◌else◌}
use nemoir_web_runtime.Errors.{Result, ok, err, ◌>>=◌, model_output_validation}
use nemoir_web_runtime.Js.Text.{JsString, codes, ◌==◌}
use nemoir_web_runtime.Js.Value.{Value, str, obj, host, fields}
use nemoir_web_runtime.Js.Dict.{Dict, get, has}
use nemoir_web_runtime.Models.Extract.{extract_first_json_object, extract_first_plain_json_object}

-- What the engine and the package `jsonrepair` do: `JSON.parse` and the repair, which may throw,
-- `trim`, and the identity of a copy of an array.
pub record Host : Type 0 where
  pub json_parse : JsString → Option Value
  pub json_repair : JsString → Option JsString
  pub trim : JsString → JsString
  pub copied : ℕ → ℕ

pub data StageAction : Type 0 where
  final : Dict Value → StageAction
  -- tool, arguments
  tool_call : JsString → Dict Value → StageAction

-- An object that is not an array, as the dictionary of its fields.
unfoldable pub as_object : Value → Result (Dict Value)
as_object (obj i fs) = ok (fields fs)
as_object (host i fs) = ok (fields fs)
as_object v = err model_output_validation

-- `typeof v === "string"`, with the string
unfoldable pub as_string : Value → Result JsString
as_string (str s) = ok s
as_string v = err model_output_validation

-- `v === "…"`
unfoldable pub is_text : JsString → Value → Bool
is_text s (str t) = t == s
is_text s v = false

abbrev or_content : JsString → Option JsString → JsString
or_content content none = content
or_content content (some json) = json

module _ (js : Host) where
  unfoldable pub parse_json_tolerantly : JsString → Result Value
  parse_json_tolerantly json = elim (js.json_parse json) [
    | some parsed ↦ ok parsed
    | none ↦ elim (js.json_repair json) [
      | none ↦ err model_output_validation
      | some repaired ↦ elim (js.json_parse repaired) [
        | none ↦ err model_output_validation
        | some parsed ↦ ok parsed
      ]
    ]
  ]

  -- The end of `parsePlainStageOutput`, on the parsed object.
  unfoldable pub plain_output : Dict Value → Result (Dict Value)
  unfolding is_text as_object
  plain_output fields_read =
      if is_text (codes "final") (get (codes "kind") fields_read)
      then as_object (get (codes "output") fields_read)
      else if has (codes "kind") fields_read
      then err model_output_validation
      else ok fields_read

  unfoldable pub parse_plain_stage_output : JsString → Result (Dict Value)
  unfolding parse_json_tolerantly as_object plain_output
  parse_plain_stage_output content =
      parse_json_tolerantly (or_content content (extract_first_plain_json_object content))
      >>= as_object
      >>= plain_output

  -- The end of `parseTaggedEnvelope`, on the parsed object.
  unfoldable pub tagged_action : Dict Value → Result StageAction
  unfolding is_text as_object as_string
  tagged_action envelope =
      if is_text (codes "final") (get (codes "kind") envelope)
      then (as_object (get (codes "output") envelope) >>= λ output. ok (final output))
      else if is_text (codes "tool_call") (get (codes "kind") envelope)
      then (as_string (get (codes "tool") envelope) >>= λ tool.
          as_object (get (codes "args") envelope) >>= λ args. ok (tool_call tool args))
      else err model_output_validation

  unfoldable pub parse_tagged_envelope : JsString → Result StageAction
  unfolding parse_json_tolerantly as_object tagged_action
  parse_tagged_envelope content =
      parse_json_tolerantly (or_content content (extract_first_json_object content))
      >>= as_object
      >>= tagged_action
