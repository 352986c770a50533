-- ===== src/History.antt =====
-- src/codex_chat_history.rs: the checks on tool outputs and on the chat history that goes upstream.
pub mod Ids
pub mod Messages
use codex_mimo_adapter.Base.{
  String, true, false, Option, none, some, List, [], ◌∷◌, ◌++◌, ◌==◌, if◌then◌else◌, contains,
  filter_map,
}
use codex_mimo_adapter.Base.Str.{concat, non_empty}
use codex_mimo_adapter.Base.Result.{Result, ok, err, ◌>>=◌, ◌>>◌}
use codex_mimo_adapter.Json.{Value, get, get_str, as_str, as_array, and_then, or_else, unwrap_or}
use codex_mimo_adapter.State.{StoredResponse}

pub data HistoryResolutionError : Type 0 where
  unknown_tool_call : String → HistoryResolutionError
  duplicate_tool_output : String → HistoryResolutionError
  invalid_tool_history : String → HistoryResolutionError

-- `Display`
unfoldable pub error_text : HistoryResolutionError → String
error_text (unknown_tool_call call_id) = concat ("unknown tool call id: " ∷ call_id ∷ [])
error_text (duplicate_tool_output call_id) = concat ("duplicate tool output: " ∷ call_id ∷ [])
error_text (invalid_tool_history reason) = concat ("invalid tool history: " ∷ reason ∷ [])

abbrev pub HistoryResult : Type 0 → Type 0
HistoryResult A = Result HistoryResolutionError A

-- the loop over the ids, with those seen so far
unfoldable pub no_duplicates_from : List String → List String → HistoryResult (Unit {0})
no_duplicates_from seen [] = ok tt
no_duplicates_from seen (call_id ∷ call_ids) = elim (contains seen call_id) [
  | true ↦ err (duplicate_tool_output call_id)
  | false ↦ no_duplicates_from (call_id ∷ seen) call_ids
]

unfoldable pub ensure_no_duplicate_call_outputs : List String → HistoryResult (Unit {0})
unfolding no_duplicates_from
ensure_no_duplicate_call_outputs call_ids = no_duplicates_from [] call_ids

unfoldable pub all_pending : List String → List String → HistoryResult (Unit {0})
all_pending pending [] = ok tt
all_pending pending (call_id ∷ call_ids) = elim (contains pending call_id) [
  | true ↦ all_pending pending call_ids
  | false ↦ err (unknown_tool_call call_id)
]

unfoldable pub validate_requested_call_ids : StoredResponse → List String → HistoryResult (Unit {0})
unfolding ensure_no_duplicate_call_outputs all_pending
validate_requested_call_ids previous requested = do
  ensure_no_duplicate_call_outputs requested
  all_pending previous.pending_call_ids requested

-- `call.get("id").or_else(|| call.get("call_id"))`, as a text that is not empty
unfoldable pub call_id_of_call : Value → Option String
unfolding get
call_id_of_call call =
    and_then (and_then (or_else (get "id" call) (get "call_id" call)) as_str) non_empty

-- the ids of the tool calls of an assistant message
unfoldable pub assistant_call_ids : Value → List String
unfolding get call_id_of_call
assistant_call_ids message =
    filter_map call_id_of_call (unwrap_or [] (and_then (get "tool_calls" message) as_array))

-- `message.get("tool_call_id").or_else(|| message.get("call_id"))`, as a text that is not empty
unfoldable pub tool_message_call_id : Value → Option String
unfolding get
tool_message_call_id message =
    and_then (and_then (or_else (get "tool_call_id" message) (get "call_id" message)) as_str)
      non_empty

unfoldable pub role_of : Value → String
unfolding get_str
role_of message = unwrap_or "" (get_str "role" message)

-- the loop's two sets
pub record Seen : Type 0 where
  pub calls : List String
  pub consumed : List String

-- the body of `if role == "tool"`
unfoldable pub check_tool_message : Value → Seen → HistoryResult Seen
unfolding tool_message_call_id
check_tool_message message seen = elim (tool_message_call_id message) [
  | none ↦ err (invalid_tool_history "tool message is missing tool_call_id")
  | some call_id ↦ elim (contains seen.calls call_id) [
    | false ↦ err (
        invalid_tool_history (
          concat (
            "tool message references " ∷ call_id ∷ ", but no preceding assistant tool_call exists"
            ∷ [])))
    | true ↦ elim (contains seen.consumed call_id) [
      | true ↦ err (duplicate_tool_output call_id)
      | false ↦ ok (record seen { consumed = call_id ∷ seen.consumed })
    ]
  ]
]

-- one round of the loop over the messages
unfoldable pub check_message : Value → Seen → HistoryResult Seen
unfolding role_of assistant_call_ids check_tool_message
check_message message seen =
    if role_of message == "assistant"
    then ok (record seen { calls = assistant_call_ids message ++ seen.calls })
    else if role_of message == "tool"
    then check_tool_message message seen
    else ok seen

unfoldable pub check_messages : List Value → Seen → HistoryResult Seen
unfolding check_message
check_messages [] seen = ok seen
check_messages (message ∷ messages) seen = do
  seen' ← check_message message seen
  check_messages messages seen'

unfoldable pub validate_chat_tool_history : List Value → HistoryResult (Unit {0})
unfolding check_messages
validate_chat_tool_history messages = do
  seen ← check_messages messages (record { calls = []; consumed = [] })
  ok tt
