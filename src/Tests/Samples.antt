-- ===== src/Tests/Samples.antt =====
-- Values that the tests share.
use codex_mimo_adapter.Base.{ℕ, String, List, [], ◌∷◌}
use codex_mimo_adapter.Base.Int.{pos}
use codex_mimo_adapter.Base.Result.{err}
use codex_mimo_adapter.Json.{Value, string, Serde}
use codex_mimo_adapter.Host.{Host}
use codex_mimo_adapter.State.{StoredResponse}
use codex_mimo_adapter.Request.Defs.{
  tool_call, tool_calls_message, tool_output_message, chat_message,
}

abbrev pub call_message : String → Value
unfolding tool_call tool_calls_message
call_message id = tool_calls_message (tool_call id "shell" "{}" ∷ [])

abbrev pub output_message : String → Value
unfolding tool_output_message
output_message id = tool_output_message id "done"

abbrev pub user_message : String → Value
unfolding chat_message
user_message text = chat_message "user" (string text)

abbrev pub response : String → List String → ℕ → StoredResponse
response id pending at = record {
  response_id = id;
  model_alias = "mimo";
  model_upstream = "mimo-v2";
  messages = user_message "hi" ∷ call_message "call_1" ∷ [];
  pending_call_ids = pending;
  output = [];
  created_at = pos at;
  previous_response_id = "";
}

-- a printer and a parser for the few texts that the tests print
abbrev pub serde : Serde
serde = record {
  to_string = λ v. "{}";
  from_str = λ text. err "not parsed";
  number_text = λ n. "0";
}

abbrev pub host : Host
host = record { serde = serde; uuid = λ n. "u"; order = λ names. names }
