-- ===== src/Server/Failed.antt =====
-- src/server.rs: the failed response that a request is answered with, as a value and as the
-- events of a stream that fails before it begins. The identifier and the time are arguments.
use codex_mimo_adapter.Base.{String, false, List, [], ◌∷◌}
use codex_mimo_adapter.Base.Str.{take_chars}
use codex_mimo_adapter.Base.Int.{ℤ}
use codex_mimo_adapter.Json.{
  Value, Map, null, bool, number, pos_int, string, object, empty, obj, arr, get, as_bool, and_then,
  unwrap_or, insert, fields,
}
use codex_mimo_adapter.Response.Items.{integer}
use codex_mimo_adapter.Server.Frames.{Frame, named, done}

abbrev zero_number : Value
zero_number = number (pos_int 0)

unfoldable pub empty_response_usage : Value
unfolding fields
empty_response_usage = obj (
    ("input_tokens", zero_number)
    ∷ ("input_tokens_details", obj (("cached_tokens", zero_number) ∷ []))
    ∷ ("output_tokens", zero_number)
    ∷ ("output_tokens_details", obj (("reasoning_tokens", zero_number) ∷ []))
    ∷ ("total_tokens", zero_number)
    ∷ [])

-- `{"type": kind, "code": kind, "message": ...}`
unfoldable pub failure : String → String → Value
unfolding fields take_chars
failure kind message = obj (
    ("type", string kind)
    ∷ ("code", string kind)
    ∷ ("message", string (take_chars 1000 message))
    ∷ [])

-- the fields that the failed response and the shell of a stream share
unfoldable pub answer_fields : Value → String → String → Value → String × ℤ → List (String × Value)
unfolding get empty_response_usage
answer_fields body model status error (id, now) =
    ("id", string id)
    ∷ ("object", string "response")
    ∷ ("created_at", integer now)
    ∷ ("status", string status)
    ∷ ("error", error)
    ∷ ("incomplete_details", null)
    ∷ ("instructions", unwrap_or null (get "instructions" body))
    ∷ ("model", string model)
    ∷ ("output", arr [])
    ∷ (
      "parallel_tool_calls",
      bool (unwrap_or false (and_then (get "parallel_tool_calls" body) as_bool)),
    )
    ∷ ("previous_response_id", unwrap_or null (get "previous_response_id" body))
    ∷ ("store", bool false)
    ∷ ("usage", empty_response_usage)
    ∷ ("metadata", unwrap_or (object empty) (get "metadata" body))
    ∷ []

unfoldable pub responses_failed_value : Value → String → String → String → String × ℤ → Value
unfolding answer_fields failure fields
responses_failed_value body model kind message at =
    obj (answer_fields body model "failed" (failure kind message) at)

unfoldable pub lifecycle_event : String → Map → Frame
unfolding fields
lifecycle_event name response =
    named name (obj (("type", string name) ∷ ("response", object response) ∷ []))

-- `early_stream_failed_response`, with the identifier and the time that it draws
unfoldable pub early_stream_failed_response :
    Value → String → String → String → String × ℤ → List Frame
unfolding answer_fields failure lifecycle_event fields insert
early_stream_failed_response body model_alias kind message at =
    let shell = fields (answer_fields body model_alias "in_progress" null at) in
    let failed_response =
      insert "error" (failure kind message) (insert "status" (string "failed") shell) in
    lifecycle_event "response.created" shell
    ∷ lifecycle_event "response.in_progress" shell
    ∷ lifecycle_event "response.failed" failed_response
    ∷ done
    ∷ []
