-- ===== src/Tests/Histories.antt =====
-- Tool histories and requests.
use codex_mimo_adapter.Base.{
  String, ◌≡◌, ◌↔◌, refl, false, none, some, List, [], ◌∷◌, ◌⊎◌, Distinct, Inside, All,
}
use codex_mimo_adapter.Base.Result.{ok, err}
use codex_mimo_adapter.Json.{Value, bool, string, null, obj, arr, fields, insert, get, lookup}
use codex_mimo_adapter.History.{
  duplicate_tool_output, unknown_tool_call, ensure_no_duplicate_call_outputs,
  validate_requested_call_ids, validate_chat_tool_history,
}
use codex_mimo_adapter.History.Ids.{
  ensure_no_duplicate_call_outputs_iff, validate_requested_call_ids_iff,
  ensure_no_duplicate_call_outputs-eq-err, validate_requested_call_ids-eq-err, FirstRepeat,
  FirstUnknown,
}
use codex_mimo_adapter.History.Messages.{ValidFrom, validate_chat_tool_history_iff}
use codex_mimo_adapter.Request.Defs.{
  output_call_ids, tool_call, tool_calls_message, tool_output_message, chat_message,
}
use codex_mimo_adapter.Request.Repair.{repair_history, normalize_upstream_roles}
use codex_mimo_adapter.Request.Payload.{build_chat_payload}
use codex_mimo_adapter.Request.Accepted.{HasCallId, repair_history_iff}
use codex_mimo_adapter.Request.Roles.{Headed, normalize_upstream_roles-Headed}
use codex_mimo_adapter.Request.Sent.{build_chat_payload-messages}
use codex_mimo_adapter.Tools.{no_tools}
use codex_mimo_adapter.Tests.Samples.{
  call_message, output_message, user_message, response, serde, host,
}

abbrev ids : List String
ids = "call_1" ∷ "call_2" ∷ []

abbrev repeated : List String
repeated = "call_1" ∷ "call_2" ∷ "call_1" ∷ []

ensure_no_duplicate_call_outputs_iff_example :
    (ensure_no_duplicate_call_outputs repeated ≡ ok tt) ↔ Distinct repeated
ensure_no_duplicate_call_outputs_iff_example = ensure_no_duplicate_call_outputs_iff repeated

validate_requested_call_ids_iff_example :
    (validate_requested_call_ids (response "resp_1" ids 5) ids ≡ ok tt)
    ↔ (Distinct ids × Inside ids ids)
validate_requested_call_ids_iff_example =
    validate_requested_call_ids_iff (response "resp_1" ids 5) ids

repeated_fails : ensure_no_duplicate_call_outputs repeated ≡ err (duplicate_tool_output "call_1")
unfolding ensure_no_duplicate_call_outputs
repeated_fails = refl

ensure_no_duplicate_call_outputs-eq-err_example :
    (x : String) × (duplicate_tool_output "call_1" ≡ duplicate_tool_output x)
    × FirstRepeat [] repeated x
ensure_no_duplicate_call_outputs-eq-err_example =
    ensure_no_duplicate_call_outputs-eq-err repeated repeated_fails

unknown_fails :
    validate_requested_call_ids (response "resp_1" ids 5) ("call_2" ∷ "call_9" ∷ [])
    ≡ err (unknown_tool_call "call_9")
unfolding validate_requested_call_ids
unknown_fails = refl

validate_requested_call_ids-eq-err_example :
    ((x : String) × (unknown_tool_call "call_9" ≡ duplicate_tool_output x)
      × FirstRepeat [] ("call_2" ∷ "call_9" ∷ []) x)
    ⊎ ((x : String) × (unknown_tool_call "call_9" ≡ unknown_tool_call x)
        × Distinct ("call_2" ∷ "call_9" ∷ [])
        × FirstUnknown ids ("call_2" ∷ "call_9" ∷ []) x)
validate_requested_call_ids-eq-err_example =
    validate_requested_call_ids-eq-err (response "resp_1" ids 5) ("call_2" ∷ "call_9" ∷ [])
      unknown_fails

abbrev answered : List Value
answered = user_message "hi" ∷ call_message "call_1" ∷ output_message "call_1" ∷ []

validate_chat_tool_history_iff_example :
    (validate_chat_tool_history answered ≡ ok tt) ↔ ValidFrom [] [] answered
validate_chat_tool_history_iff_example = validate_chat_tool_history_iff answered

answered_is_accepted : validate_chat_tool_history answered ≡ ok tt
unfolding validate_chat_tool_history tool_call tool_calls_message tool_output_message chat_message
answered_is_accepted = refl

repair_history_iff_example :
    (repair_history
        (user_message "hi" ∷ call_message "call_1" ∷ [])
        (some (output_message "call_1" ∷ []))
      ≡ ok answered)
    ↔ (Distinct (output_call_ids (output_message "call_1" ∷ []))
        × All HasCallId (output_message "call_1" ∷ [])
        × ValidFrom [] [] answered
        × (answered ≡ answered))
repair_history_iff_example =
    repair_history_iff (user_message "hi" ∷ call_message "call_1" ∷ [])
      (output_message "call_1" ∷ []) answered

abbrev mixed : List Value
mixed =
    user_message "hi"
    ∷ obj (("role", string "developer") ∷ ("content", string "be brief") ∷ [])
    ∷ obj (("role", string "critic") ∷ ("content", string "no") ∷ [])
    ∷ []

abbrev sent : List Value
unfolding fields insert chat_message
sent = chat_message "system" (string "be brief") ∷ user_message "hi" ∷ user_message "no" ∷ []

mixed_is_normalized : normalize_upstream_roles serde mixed ≡ ok sent
unfolding normalize_upstream_roles chat_message
mixed_is_normalized = refl

normalize_upstream_roles-Headed_example : Headed sent
normalize_upstream_roles-Headed_example =
    normalize_upstream_roles-Headed serde mixed mixed_is_normalized

-- a request with a tool call and its output, and no stored response
abbrev body : Value
body = obj (
    (
      "input",
      arr (
          obj (
            ("type", string "function_call")
            ∷ ("call_id", string "call_1")
            ∷ ("name", string "shell")
            ∷ ("arguments", string "{}")
            ∷ [])
          ∷ obj (
              ("type", string "function_call_output")
              ∷ ("call_id", string "call_1")
              ∷ ("output", string "done")
              ∷ [])
          ∷ []),
    )
    ∷ [])

abbrev body_messages : List Value
body_messages = call_message "call_1" ∷ output_message "call_1" ∷ []

abbrev body_payload : Value
body_payload =
    obj
      (("model", string "mimo-v2") ∷ ("messages", arr body_messages) ∷ ("stream", bool false) ∷ [])

body_is_built :
    build_chat_payload host body "mimo-v2" none null 0
    ≡ ok (body_payload, body_messages, no_tools, 1)
unfolding build_chat_payload tool_call tool_calls_message tool_output_message fields insert
body_is_built = refl

build_chat_payload-messages_example :
    (get "messages" body_payload ≡ some (arr body_messages))
    × ValidFrom [] [] body_messages
    × Headed body_messages
unfolding lookup
build_chat_payload-messages_example =
    build_chat_payload-messages host body "mimo-v2" none null 0 refl body_is_built
