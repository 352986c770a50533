-- ===== src/Request/Defs.antt =====
-- Shapes of messages, and the errors of src/conversion/responses_to_chat.rs.
use codex_mimo_adapter.Base.{String, Option, List, [], ◌∷◌, filter_map}
use codex_mimo_adapter.Base.Result.{Result, map_err}
use codex_mimo_adapter.Json.{Value, string, obj, arr, get, as_str, and_then, or_else, fields}
use codex_mimo_adapter.History.{HistoryResolutionError, error_text}

-- `HistoryError`; `panicked` is the source's panic at `value[key] = ...` on a value that is no
-- object
pub data HistoryError : Type 0 where
  invalid : String → HistoryError
  panicked : HistoryError

-- `.map_err(|error| HistoryError::Invalid(error.to_string()))`
abbrev pub as_history_error {ℓ} :
    {A : Type ℓ} → Result HistoryResolutionError A → Result HistoryError A
as_history_error r = map_err (λ e. invalid (error_text e)) r

unfoldable pub tool_output_message : String → String → Value
unfolding fields
tool_output_message call_id content =
    obj (
      ("role", string "tool") ∷ ("tool_call_id", string call_id) ∷ ("content", string content) ∷ [])

unfoldable pub chat_message : String → Value → Value
unfolding fields
chat_message role content = obj (("role", string role) ∷ ("content", content) ∷ [])

-- a tool call as an assistant message holds it
unfoldable pub tool_call : String → String → String → Value
unfolding fields
tool_call call_id name arguments = obj (
    ("id", string call_id)
    ∷ ("type", string "function")
    ∷ ("function", obj (("name", string name) ∷ ("arguments", string arguments) ∷ []))
    ∷ [])

unfoldable pub tool_calls_message : List Value → Value
unfolding fields
tool_calls_message calls =
    obj (("role", string "assistant") ∷ ("content", string "") ∷ ("tool_calls", arr calls) ∷ [])

-- `output.get("tool_call_id").or_else(|| output.get("call_id")).and_then(Value::as_str)`
unfoldable pub output_call_id : Value → Option String
unfolding get
output_call_id output = and_then (or_else (get "tool_call_id" output) (get "call_id" output)) as_str

unfoldable pub output_call_ids : List Value → List String
unfolding output_call_id
output_call_ids outputs = filter_map output_call_id outputs
