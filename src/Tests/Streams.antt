-- ===== src/Tests/Streams.antt =====
-- A stream with a tool call.
use codex_mimo_adapter.Base.{filter_map, none, false, ◌++◌, ◌≡◌, String, some, refl, List, [], ◌∷◌}
use codex_mimo_adapter.Base.Int.{pos}
use codex_mimo_adapter.Base.Result.{ok}
use codex_mimo_adapter.Json.{Value, string, number, pos_int, object, empty, obj, arr}
use codex_mimo_adapter.Tools.{no_tools}
use codex_mimo_adapter.Stream.Defs.{Setup, StreamingToolCall, new}
use codex_mimo_adapter.Stream.Walk.End.{Operation, starts, accepts, finalizes, fails, after}
use codex_mimo_adapter.Stream.Numbering.{Numbered, EndsOnce, after-Numbered, after-EndsOnce}
use codex_mimo_adapter.History.{
  call_id_of_call, validate_chat_tool_history, validate_requested_call_ids,
}
use codex_mimo_adapter.Request.Defs.{tool_call, chat_message}
use codex_mimo_adapter.Request.Repair.{repair_history}
use codex_mimo_adapter.Stream.Finalize.{Collected, finalize_calls, stored_response}
use codex_mimo_adapter.Stream.Continuation.{output_messages, repair_history-stored_response}
use codex_mimo_adapter.Stream.Replay.{finalize_calls-IsReplayed}
use codex_mimo_adapter.Tests.Samples.{host, user_message}

abbrev pub setup : Setup
setup = record {
  host = host;
  body = object empty;
  model_alias = "mimo";
  model_upstream = "mimo-v2";
  base_messages = [];
  tool_context = no_tools;
  state_put = λ item. ok tt;
  emit = λ log event. ok tt;
  response_id = "resp_1";
  created_at = pos 5;
  message_item_id = "msg_1";
  reasoning_item_id = "rs_1";
}

abbrev chunk : Value → Value
chunk delta = obj (("choices", arr (obj (("delta", delta) ∷ []) ∷ [])) ∷ [])

abbrev call_delta : Value
call_delta = obj (
    ("index", number (pos_int 0))
    ∷ ("id", string "call_1")
    ∷ ("function", obj (("name", string "shell") ∷ ("arguments", string "{}") ∷ []))
    ∷ [])

abbrev operations : List Operation
operations =
    starts
    ∷ accepts (chunk (obj (("content", string "hello") ∷ [])))
    ∷ accepts (chunk (obj (("tool_calls", arr (call_delta ∷ [])) ∷ [])))
    ∷ finalizes
    ∷ fails "late" "too late"
    ∷ []

after-Numbered_example : Numbered (after setup operations new)
after-Numbered_example = after-Numbered setup operations

after-EndsOnce_example : EndsOnce (after setup operations new)
after-EndsOnce_example = after-EndsOnce setup (λ log x. refl) operations

-- a stored response with one pending call, and its output
abbrev asked : Setup
asked = record setup { base_messages = user_message "hi" ∷ [] }

abbrev collected : Collected
unfolding tool_call
collected = record {
  output = [];
  replay_calls = tool_call "call_1" "shell" "{}" ∷ [];
  pending = "call_1" ∷ [];
}

abbrev outputs : List (String × String)
outputs = ("call_1", "done") ∷ []

repair_history-stored_response_example :
    repair_history (stored_response asked new collected).messages (some (output_messages outputs))
    ≡ ok ((stored_response asked new collected).messages ++ output_messages outputs)
unfolding stored_response call_id_of_call tool_call chat_message validate_chat_tool_history
    validate_requested_call_ids
repair_history-stored_response_example =
    repair_history-stored_response asked new collected outputs refl refl (refl, tt) (refl, tt) refl

-- a call that came without an id
abbrev unnamed : StreamingToolCall
unnamed = record {
  output_index = none;
  item_id = "fc_1";
  call_id = "";
  name = "shell";
  arguments = "{}";
  added = false;
  done = false;
}

finalize_calls-IsReplayed_example :
    filter_map call_id_of_call (tool_call "call_0" "shell" "{}" ∷ []) ≡ "call_0" ∷ []
unfolding finalize_calls tool_call
finalize_calls-IsReplayed_example =
    finalize_calls-IsReplayed setup (0 ∷ []) [] (record new { tool_calls = (0, unnamed) ∷ [] }) refl
