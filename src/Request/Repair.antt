-- ===== src/Request/Repair.antt =====
-- `repair_history`, `repair_stateless_history`, `merge_new_messages` and `normalize_upstream_roles`.
use codex_mimo_adapter.Base.{
  String, Bool, false, not, Option, none, some, List, [], ◌∷◌, ◌++◌, ◌==◌, if◌then◌else◌, contains,
  keep_if, is_nil, any,
}
use mathlib.Core.Option
use codex_mimo_adapter.Base.Str.{concat, join, is_empty}
use codex_mimo_adapter.Base.Result.{Result, ok, err, ◌>>◌}
use codex_mimo_adapter.Json.{Value, string, get, get_str, and_then, unwrap_or, index_set, Serde}
use codex_mimo_adapter.Text.{as_text}
use codex_mimo_adapter.History.{
  ensure_no_duplicate_call_outputs, validate_chat_tool_history, assistant_call_ids,
}
use codex_mimo_adapter.Request.Defs.{
  HistoryError, invalid, panicked, as_history_error, output_call_id, output_call_ids, chat_message,
}

unfoldable pub merge_new_messages : List Value → List Value → List Value
merge_new_messages base incoming = base ++ incoming

-- the test of the loop in `repair_history`, which reads `tool_call_id` alone
unfoldable pub require_call_ids : List Value → Result HistoryError (Unit {0})
unfolding get_str
require_call_ids [] = ok tt
require_call_ids (output ∷ outputs) =
    if is_empty (unwrap_or "" (get_str "tool_call_id" output))
    then err (invalid "tool output requires tool_call_id")
    else require_call_ids outputs

unfoldable pub repair_history : List Value → Option (List Value) → Result HistoryError (List Value)
unfolding output_call_ids ensure_no_duplicate_call_outputs require_call_ids
    validate_chat_tool_history
repair_history messages none = ok messages
repair_history messages (some outputs) = do
  as_history_error (ensure_no_duplicate_call_outputs (output_call_ids outputs))
  require_call_ids outputs
  as_history_error (validate_chat_tool_history (messages ++ outputs))
  ok (messages ++ outputs)

-- `output_call_id(output) == Some(call_id)`
unfoldable pub answers_call : String → Value → Bool
unfolding output_call_id
answers_call call_id output = elim (output_call_id output) [
  | none ↦ false
  | some id ↦ id == call_id
]

-- the outputs that the loop over a message's calls inserts behind the message
unfoldable pub replayed_for : List String → List Value → List Value
unfolding answers_call
replayed_for [] outputs = []
replayed_for (call_id ∷ call_ids) outputs =
    keep_if (answers_call call_id) outputs ++ replayed_for call_ids outputs

-- The calls of an assistant message; of any other message, none.
unfoldable pub replay_calls : Value → List String
unfolding get_str assistant_call_ids
replay_calls message =
    if unwrap_or "" (get_str "role" message) == "assistant" then assistant_call_ids message else []

-- the loop over the messages, with all outputs
unfoldable pub insert_outputs : List Value → List Value → List Value
unfolding replay_calls replayed_for
insert_outputs outputs [] = []
insert_outputs outputs (message ∷ messages) =
    message ∷ (replayed_for (replay_calls message) outputs ++ insert_outputs outputs messages)

-- the calls made by the messages
unfoldable pub all_replay_calls : List Value → List String
unfolding replay_calls
all_replay_calls [] = []
all_replay_calls (message ∷ messages) = replay_calls message ++ all_replay_calls messages

-- the set `replayed` behind the loop: the calls for which an output was inserted
unfoldable pub replayed_calls : List Value → List Value → List String
unfolding all_replay_calls answers_call
replayed_calls messages outputs =
    keep_if (λ call_id. any (answers_call call_id) outputs) (all_replay_calls messages)

-- what follows the loop
unfoldable pub finish_stateless : List String → List Value → Result HistoryError (List Value)
unfolding validate_chat_tool_history join
finish_stateless [] repaired = do
  as_history_error (validate_chat_tool_history repaired)
  ok repaired
finish_stateless (id ∷ ids) repaired = err (
    invalid
      (concat ("tool output has no matching stateless tool call: " ∷ join ", " (id ∷ ids) ∷ [])))

unfoldable pub repair_stateless_history : List Value → List Value → Result HistoryError (List Value)
unfolding output_call_ids ensure_no_duplicate_call_outputs replayed_calls insert_outputs
    finish_stateless
repair_stateless_history messages outputs = do
  let call_ids = output_call_ids outputs
  as_history_error (ensure_no_duplicate_call_outputs call_ids)
  let replayed = replayed_calls messages outputs
  finish_stateless (keep_if (λ call_id. not (contains replayed call_id)) call_ids)
      (insert_outputs outputs messages)

-- `item.get("role").and_then(Value::as_str) == Some(role)`
unfoldable pub has_role : String → Value → Bool
unfolding get_str
has_role role item = elim (get_str "role" item) [ none ↦ false | some r ↦ r == role ]

-- the system texts, and the other messages with their roles made known
pub record Normalized : Type 0 where
  pub system_chunks : List String
  pub rest : List Value

abbrev pub with_chunk : String → Normalized → Normalized
with_chunk text n = if is_empty text then n else record n { system_chunks = text ∷ n.system_chunks }

abbrev pub with_message : Value → Normalized → Normalized
with_message item n = record n { rest = item ∷ n.rest }

-- `matches!(role, Some("user" | "assistant" | "tool"))`
abbrev pub is_known : Option String → Bool
is_known none = false
is_known (some role) = contains ("user" ∷ "assistant" ∷ "tool" ∷ []) role

abbrev pub known_role : Value → Bool
known_role item = is_known (get_str "role" item)

module _ (serde : Serde) where
  -- the loop's body behind its first test, in front of what the later messages give
  unfoldable pub normalize_item : Value → Normalized → Option Normalized
  unfolding has_role index_set get as_text get_str
  normalize_item item n =
      if has_role "system" item
      then some (with_chunk (unwrap_or "" (Option.map (as_text serde) (get "content" item))) n)
      else if known_role item
      then some (with_message item n)
      else Option.map (λ fixed. with_message fixed n) (index_set "role" (string "user") item)

  -- the loop, from the last message to the first; a role is written by `item["role"] = ...`
  unfoldable pub normalize_each : List Value → Option Normalized
  unfolding has_role index_set normalize_item
  normalize_each [] = some (record { system_chunks = []; rest = [] })
  normalize_each (message ∷ messages) =
      and_then
        (if has_role "developer" message
          then index_set "role" (string "system") message
          else some message)
        λ item. and_then (normalize_each messages) (normalize_item item)

  unfoldable pub normalize_upstream_roles : List Value → Result HistoryError (List Value)
  unfolding normalize_each join chat_message
  normalize_upstream_roles messages = elim (normalize_each messages) [
    | none ↦ err panicked
    | some n ↦
        if is_nil n.system_chunks
        then ok n.rest
        else ok (chat_message "system" (string (join "\n\n" n.system_chunks)) ∷ n.rest)
  ]
