-- ===== src/Response/Items.antt =====
-- Output items, the status, the usage and the shell of a Responses object.
use codex_mimo_adapter.Base.{
  ◌^◌, String, false, Option, none, some, List, [], ◌∷◌, if◌then◌else◌, ltb, contains,
}
use codex_mimo_adapter.Base.Int.{wrap_i64, ℤ, pos, negsuc, ◌+ℤ◌}
use codex_mimo_adapter.Base.Str.{is_empty, trim}
use codex_mimo_adapter.Base.Result.{ok, err}
use codex_mimo_adapter.Json.{
  pos_int, neg_int, Value, Map, null, bool, number, string, object, empty, obj, arr, get, get_str,
  as_str, as_bool, as_object, and_then, or_else, unwrap_or, lookup, insert, fields, Serde,
}

-- `as_i64`
abbrev pub as_i64 : Value → Option ℤ
as_i64 (number (pos_int n)) = if ltb n (2 ^ 63) then some (pos n) else none
as_i64 (number (neg_int n)) = some (negsuc n)
as_i64 _ = none

-- `Value::from` on an integer
abbrev pub integer : ℤ → Value
integer (pos n) = number (pos_int n)
integer (negsuc n) = number (neg_int n)

module _ (serde : Serde) where
  open serde use {from_str}

  -- the object that the arguments are, if they parse to one
  unfoldable pub arguments_object : String → Option Map
  arguments_object arguments = elim (from_str arguments) [ ok v ↦ as_object v | err e ↦ none ]

  unfoldable pub custom_tool_input_from_chat_arguments : String → String
  unfolding trim arguments_object get_str
  custom_tool_input_from_chat_arguments arguments =
      if is_empty (trim arguments) then "" else elim (arguments_object arguments) [
        | some m ↦ unwrap_or arguments (get_str "input" (object m))
        | none ↦ arguments
      ]

  unfoldable pub parse_tool_arguments_object : String → Value
  unfolding trim arguments_object fields
  parse_tool_arguments_object arguments =
      if is_empty (trim arguments) then object empty else elim (arguments_object arguments) [
        | some m ↦ object m
        | none ↦ obj (("query", string arguments) ∷ [])
      ]

abbrev summary_part : String → Value
summary_part text = obj (("type", string "summary_text") ∷ ("text", string text) ∷ [])

-- with the id that the caller gives or has drawn
unfoldable pub reasoning_item : String → String → Value
unfolding fields
reasoning_item text item_id = obj (
    ("type", string "reasoning")
    ∷ ("id", string item_id)
    ∷ ("summary", if is_empty text then arr [] else arr (summary_part text ∷ []))
    ∷ [])

unfoldable pub message_item : String → String → Value
unfolding fields
message_item content item_id = obj (
    ("type", string "message")
    ∷ ("id", string item_id)
    ∷ ("status", string "completed")
    ∷ ("role", string "assistant")
    ∷ (
      "content",
      arr (
          obj (
            ("type", string "output_text")
            ∷ ("text", string content)
            ∷ ("annotations", arr [])
            ∷ [])
          ∷ []),
    )
    ∷ [])

-- `(status, incomplete_details)` from the finish reason
unfoldable pub completion_status : Option Value → String × Option Value
unfolding fields
completion_status finish_reason =
    let reason = unwrap_or "" (and_then finish_reason as_str) in
    if contains ("length" ∷ "max_tokens" ∷ []) reason
    then ("incomplete", some (obj (("reason", string "max_output_tokens") ∷ [])))
    else if contains ("content_filter" ∷ "safety" ∷ []) reason
    then ("incomplete", some (obj (("reason", string "content_filter") ∷ [])))
    else ("completed", none)

unfoldable pub normalize_token_details : Value → String → String → String → Value
unfolding get lookup insert
normalize_token_details usage responses_key chat_key required_key =
    let details =
      unwrap_or empty
        (and_then (or_else (get responses_key usage) (get chat_key usage)) as_object) in
    object (
      insert required_key
        (integer (unwrap_or (pos 0) (and_then (lookup required_key details) as_i64))) details)

-- a count under the first of two keys that is there
unfoldable pub token_count : String → String → Value → ℤ
unfolding get
token_count responses_key chat_key usage =
    unwrap_or (pos 0) (and_then (or_else (get responses_key usage) (get chat_key usage)) as_i64)

unfoldable pub total_tokens : Value → ℤ
unfolding token_count get wrap_i64 ◌+ℤ◌
total_tokens usage =
    unwrap_or
      (wrap_i64 (
        token_count "input_tokens" "prompt_tokens" usage
        +ℤ token_count "output_tokens" "completion_tokens" usage))
      (and_then (get "total_tokens" usage) as_i64)

unfoldable pub response_usage : Value → Value
unfolding token_count total_tokens normalize_token_details fields
response_usage usage = obj (
    ("input_tokens", integer (token_count "input_tokens" "prompt_tokens" usage))
    ∷ (
      "input_tokens_details",
      normalize_token_details usage "input_tokens_details" "prompt_tokens_details" "cached_tokens",
    )
    ∷ ("output_tokens", integer (token_count "output_tokens" "completion_tokens" usage))
    ∷ (
      "output_tokens_details",
      normalize_token_details usage "output_tokens_details" "completion_tokens_details"
          "reasoning_tokens",
    )
    ∷ ("total_tokens", integer (total_tokens usage))
    ∷ [])

unfoldable pub response_shell :
    Value → String → ℤ → String → List Value → Value → String → Option Value → Map
unfolding response_usage get fields
response_shell body response_id created_at model output usage status incomplete_details = fields (
    ("id", string response_id)
    ∷ ("object", string "response")
    ∷ ("created_at", integer created_at)
    ∷ ("status", string status)
    ∷ ("error", null)
    ∷ ("incomplete_details", unwrap_or null incomplete_details)
    ∷ ("instructions", unwrap_or null (get "instructions" body))
    ∷ ("model", string model)
    ∷ ("output", arr output)
    ∷ (
      "parallel_tool_calls",
      bool (unwrap_or false (and_then (get "parallel_tool_calls" body) as_bool)),
    )
    ∷ ("previous_response_id", unwrap_or null (get "previous_response_id" body))
    ∷ ("store", bool false)
    ∷ ("usage", response_usage usage)
    ∷ ("metadata", unwrap_or (object empty) (get "metadata" body))
    ∷ [])
