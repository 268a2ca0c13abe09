-- ===== src/Publication/Keys.antt =====
-- publication.ts: the allow-lists of the fields of a published ledger.
use nemoir_web_runtime.Prelude.{◌*◌, ◌^◌, List, [], ◌∷◌}
use nemoir_web_runtime.Js.Text.{JsString, codes}
use nemoir_web_runtime.Js.Number.{Double}
use nemoir_web_runtime.Js.Dict.{Dict}

unfoldable pub public_event_keys : List JsString
public_event_keys =
    codes "kind"
    ∷ codes "run_id"
    ∷ codes "sequence"
    ∷ codes "timestamp"
    ∷ codes "stage_id"
    ∷ codes "stage_visit_id"
    ∷ codes "model_call_id"
    ∷ codes "tool_call_id"
    ∷ codes "channel"
    ∷ codes "text"
    ∷ codes "capability"
    ∷ codes "tool_name"
    ∷ codes "args"
    ∷ codes "output"
    ∷ codes "result"
    ∷ codes "error"
    ∷ codes "transition_to"
    ∷ codes "metadata"
    ∷ codes "redacted_fields"
    ∷ codes "anchor_sequence"
    ∷ codes "annotation"
    ∷ []

unfoldable pub metadata_keys : List JsString
metadata_keys =
    codes "approval"
    ∷ codes "attempt"
    ∷ codes "byte_count"
    ∷ codes "category"
    ∷ codes "code_bytes"
    ∷ codes "command_id"
    ∷ codes "content_omitted"
    ∷ codes "cost_usd"
    ∷ codes "denied"
    ∷ codes "duration_ms"
    ∷ codes "entry"
    ∷ codes "error_code"
    ∷ codes "error_type"
    ∷ codes "exit_class"
    ∷ codes "input_bytes"
    ∷ codes "input_tokens"
    ∷ codes "max_retries"
    ∷ codes "method"
    ∷ codes "origin_class"
    ∷ codes "output_tokens"
    ∷ codes "path_ref"
    ∷ codes "policy_kind"
    ∷ codes "policy_ref"
    ∷ codes "priority"
    ∷ codes "reason"
    ∷ codes "required_capabilities"
    ∷ codes "response_bytes"
    ∷ codes "result_status"
    ∷ codes "result_type"
    ∷ codes "root_class"
    ∷ codes "status_class"
    ∷ codes "step_count"
    ∷ codes "total_tokens"
    ∷ codes "value_type"
    ∷ codes "workflow_id"
    ∷ []

unfoldable pub public_args_keys : List JsString
public_args_keys =
    codes "path"
    ∷ codes "path_ref"
    ∷ codes "root_class"
    ∷ codes "content"
    ∷ codes "command_id"
    ∷ codes "method"
    ∷ codes "origin_class"
    ∷ codes "key"
    ∷ codes "value"
    ∷ codes "code"
    ∷ codes "input"
    ∷ codes "headers"
    ∷ codes "body"
    ∷ codes "question"
    ∷ codes "message"
    ∷ codes "options"
    ∷ []

unfoldable pub args_marker_keys : List JsString
args_marker_keys =
    codes "content"
    ∷ codes "key"
    ∷ codes "value"
    ∷ codes "code"
    ∷ codes "input"
    ∷ codes "headers"
    ∷ codes "body"
    ∷ codes "question"
    ∷ codes "message"
    ∷ codes "options"
    ∷ []

unfoldable pub non_annotation_keys : List JsString
non_annotation_keys = codes "annotation" ∷ codes "anchor_sequence" ∷ []

unfoldable pub metadata_bools : List JsString
metadata_bools = codes "approval" ∷ codes "content_omitted" ∷ codes "denied" ∷ []

unfoldable pub metadata_enums : Dict (List JsString)
metadata_enums =
    (codes "exit_class", codes "success" ∷ codes "failure" ∷ codes "signal" ∷ codes "timeout" ∷ [])
    ∷ (codes "policy_kind", codes "before" ∷ codes "deny" ∷ [])
    ∷ (
      codes "value_type",
      codes "string"
          ∷ codes "number"
          ∷ codes "boolean"
          ∷ codes "object"
          ∷ codes "array"
          ∷ codes "null"
          ∷ codes "binary"
          ∷ [],
    )
    ∷ (
      codes "reason",
      codes "explicit_transition"
          ∷ codes "backward_ref_loop"
          ∷ codes "next_stage_required_input_available"
          ∷ codes "skip_next_stage_required_input_missing"
          ∷ codes "fallthrough"
          ∷ codes "other"
          ∷ [],
    )
    ∷ []

-- The doubles 0 and 1.
abbrev pub zero_bits : Double
zero_bits = 0

abbrev one_bits : Double
one_bits = 1023 * 2 ^ 52

unfoldable pub metadata_int_minimums : Dict Double
metadata_int_minimums =
    (codes "attempt", one_bits)
    ∷ (codes "byte_count", zero_bits)
    ∷ (codes "code_bytes", zero_bits)
    ∷ (codes "duration_ms", zero_bits)
    ∷ (codes "input_bytes", zero_bits)
    ∷ (codes "input_tokens", zero_bits)
    ∷ (codes "max_retries", zero_bits)
    ∷ (codes "output_tokens", zero_bits)
    ∷ (codes "priority", zero_bits)
    ∷ (codes "response_bytes", zero_bits)
    ∷ (codes "step_count", zero_bits)
    ∷ (codes "total_tokens", zero_bits)
    ∷ []
