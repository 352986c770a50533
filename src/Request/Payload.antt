-- ===== src/Request/Payload.antt =====
-- `build_chat_payload` and the functions that only it calls.
use codex_mimo_adapter.Base.{
  ℕ, suc, String, true, false, ◌&&◌, not, Option, none, some, List, [], ◌∷◌, ◌==◌, if◌then◌else◌,
  contains, drop, is_nil, length, num_eq,
}
use mathlib.Core.Option
use codex_mimo_adapter.Base.Str.{non_empty, contains_str, split_once}
use codex_mimo_adapter.Base.Result.{Result, ok, err, ◌>>=◌, ◌>>◌}
use codex_mimo_adapter.Json.{
  Value, Map, bool, string, array, object, empty, obj, arr, get, get_str, as_str, as_bool,
  as_object, and_then, or_else, unwrap_or, to_list, lookup, insert, fields,
}
use codex_mimo_adapter.Host.{Host}
use codex_mimo_adapter.State.{StoredResponse, to_set}
use codex_mimo_adapter.History.{validate_chat_tool_history}
use codex_mimo_adapter.Tools.{ToolContext, build_with_input, chat_name_for_response_function}
use codex_mimo_adapter.Request.Defs.{
  HistoryError, invalid, panicked, as_history_error, chat_message, output_call_ids,
}
use codex_mimo_adapter.Request.Items.{extract_request_with_context, is_call_kind, is_output_kind}
use codex_mimo_adapter.Request.Repair.{
  merge_new_messages, normalize_upstream_roles, repair_history, repair_stateless_history,
}

-- The loop's variables in `trim_self_contained_continuation_suffix`; `last_output` is one more than
-- `last_output_index`, and 0 for `None`.
pub record Trim : Type 0 where
  pub seen_calls : List String
  pub matched_outputs : List String
  pub last_output : ℕ

unfoldable pub trim_item : List String → ℕ → Value → Trim → Trim
unfolding get_str get
trim_item wanted index (object m) t =
    let kind = unwrap_or "" (get_str "type" (object m)) in
    let call =
      and_then (and_then (or_else (lookup "call_id" m) (lookup "id" m)) as_str) non_empty in
    let answered =
      and_then (and_then (or_else (lookup "call_id" m) (lookup "tool_call_id" m)) as_str)
        non_empty in
    if is_call_kind kind
    then elim call [ none ↦ t | some call_id ↦ record t { seen_calls = call_id ∷ t.seen_calls } ]
    else if not (is_output_kind kind)
    then t
    else elim answered [
      | none ↦ t
      | some call_id ↦
          if contains wanted call_id && contains t.seen_calls call_id
          then record t { matched_outputs = call_id ∷ t.matched_outputs; last_output = suc index }
          else t
    ]
trim_item wanted index _ t = t

unfoldable pub trim_items : List String → ℕ → List Value → Trim → Trim
unfolding trim_item
trim_items wanted index [] t = t
trim_items wanted index (item ∷ items) t =
    trim_items wanted (suc index) items (trim_item wanted index item t)

abbrev pub trim_start_state : Trim
trim_start_state = record { seen_calls = []; matched_outputs = []; last_output = 0 }

-- the input behind the last matched output, if every wanted id has one
unfoldable pub continuation_suffix : List String → Value → Option (List Value)
unfolding get trim_items to_set
continuation_suffix [] body = none
continuation_suffix (id ∷ ids) body = elim (get "input" body) [
  | some (array items) ↦
      let wanted = to_set (id ∷ ids) in
      let t = trim_items wanted 0 (to_list items) trim_start_state in
      if num_eq (length (to_set t.matched_outputs)) (length wanted)
      then some (drop t.last_output (to_list items))
      else none
  | _ ↦ none
]

-- `if messages.is_empty() { messages.push(...) }`
abbrev pub or_empty_message : List Value → List Value
or_empty_message [] = chat_message "user" (string "") ∷ []
or_empty_message (m ∷ ms) = m ∷ ms

-- `if let Some(value) = ... { payload[key] = value }`
abbrev pub put_some : String → Option Value → Map → Map
put_some key none m = m
put_some key (some v) m = insert key v m

module _ (host : Host) where
  -- `trim_self_contained_continuation_suffix`, with the count of identifiers drawn
  unfoldable pub trim_self_contained_continuation_suffix :
      Value → ToolContext → List String → ℕ → Result HistoryError (Option (List Value) × ℕ)
  unfolding continuation_suffix extract_request_with_context fields
  trim_self_contained_continuation_suffix body context output_ids drawn =
      elim (continuation_suffix output_ids body) [
        | none ↦ ok (none, drawn)
        | some suffix ↦ (do
          (messages, outputs, drawn') ←
              extract_request_with_context host context (obj (("input", arr suffix) ∷ [])) drawn
          ok (some messages, drawn'))
      ]

  -- the error of a stateless repair, reworded if no call matches
  unfoldable pub reword : HistoryError → HistoryError
  unfolding split_once
  reword (invalid message) =
      if contains_str "no matching stateless tool call" message
      then invalid "tool output has no matching stored response"
      else invalid message
  reword panicked = panicked

  unfoldable pub reworded : Result HistoryError (List Value) → Result HistoryError (List Value)
  unfolding reword
  reworded (ok messages) = ok messages
  reworded (err e) = err (reword e)

  -- the messages before they are normalized
  unfoldable pub assembled_messages :
      Value
      → ToolContext
      → Option StoredResponse
      → List Value
      → List Value
      → ℕ
      → Result HistoryError (List Value × ℕ)
  unfolding trim_self_contained_continuation_suffix repair_history repair_stateless_history
      merge_new_messages reworded output_call_ids
  assembled_messages body context none incoming [] drawn = ok (incoming, drawn)
  assembled_messages body context (some previous) incoming [] drawn =
      ok (merge_new_messages previous.messages incoming, drawn)
  assembled_messages body context none incoming (o ∷ os) drawn = do
    repaired ← reworded (repair_stateless_history incoming (o ∷ os))
    ok (repaired, drawn)
  assembled_messages body context (some previous) incoming (o ∷ os) drawn = do
    (trimmed, drawn') ←
        trim_self_contained_continuation_suffix body context (output_call_ids (o ∷ os)) drawn
    repaired ← repair_history previous.messages (some (o ∷ os))
    ok (merge_new_messages repaired (unwrap_or incoming trimmed), drawn')

  unfoldable pub function_choice : String → Value
  unfolding fields
  function_choice name =
      obj (("type", string "function") ∷ ("function", obj (("name", string name) ∷ [])) ∷ [])

  unfoldable pub convert_tool_choice : Option Value → ToolContext → Option Value
  unfolding get_str chat_name_for_response_function function_choice
  convert_tool_choice (some (string text)) context = some (string text)
  convert_tool_choice (some (object m)) context =
      let choice = object m in
      let kind = unwrap_or "" (get_str "type" choice) in
      let name = unwrap_or "" (get_str "name" choice) in
      if contains ("auto" ∷ "none" ∷ "required" ∷ []) kind
      then some (string kind)
      else if contains ("function" ∷ "tool" ∷ []) kind
      then some (
          function_choice
            (chat_name_for_response_function host.order context name (get_str "namespace" choice)))
      else if kind == "custom"
      then some (function_choice (chat_name_for_response_function host.order context name none))
      else if kind == "tool_search"
      then some
          (function_choice (chat_name_for_response_function host.order context "tool_search" none))
      else some choice
  convert_tool_choice _ context = none

  -- `if !context.chat_tools.is_empty() { ... }`
  unfoldable pub with_tools : Value → ToolContext → Map → Map
  unfolding convert_tool_choice get insert
  with_tools body context payload =
      if is_nil context.chat_tools
      then payload
      else put_some "parallel_tool_calls"
          (Option.map bool (and_then (get "parallel_tool_calls" body) as_bool))
          (put_some "tool_choice" (convert_tool_choice (get "tool_choice" body) context)
            (insert "tools" (arr context.chat_tools) payload))

-- the pairs of the loop over the passed-on parameters, in its order
abbrev pub passed_on : List (String × String)
passed_on =
    ("temperature", "temperature")
    ∷ ("top_p", "top_p")
    ∷ ("max_output_tokens", "max_completion_tokens")
    ∷ ("max_tokens", "max_tokens")
    ∷ ("max_completion_tokens", "max_completion_tokens")
    ∷ ("presence_penalty", "presence_penalty")
    ∷ ("frequency_penalty", "frequency_penalty")
    ∷ ("response_format", "response_format")
    ∷ ("seed", "seed")
    ∷ ("stop", "stop")
    ∷ ("logit_bias", "logit_bias")
    ∷ ("logprobs", "logprobs")
    ∷ ("metadata", "metadata")
    ∷ ("n", "n")
    ∷ ("service_tier", "service_tier")
    ∷ ("stream_options", "stream_options")
    ∷ ("top_logprobs", "top_logprobs")
    ∷ ("user", "user")
    ∷ []

unfoldable pub copy_parameters : List (String × String) → Value → Map → Map
unfolding get insert
copy_parameters [] body payload = payload
copy_parameters ((source, target) ∷ pairs) body payload =
    copy_parameters pairs body (put_some target (get source body) payload)

-- the usage option of a streamed request, merged into options that are an object
unfoldable pub with_stream_usage : Map → Map
unfolding lookup insert fields
with_stream_usage payload =
    if unwrap_or false (and_then (lookup "stream" payload) as_bool)
    then insert "stream_options"
        (object (
          insert "include_usage" (bool true) (
            unwrap_or empty
              (as_object (unwrap_or (object empty) (lookup "stream_options" payload))))))
        payload
    else payload

-- `for (key, value) in obj { payload[key] = value.clone() }`
abbrev pub overlay : Map → Map → Map
overlay empty payload = payload
overlay (Map.entry k v m) payload = overlay m (insert k v payload)

abbrev pub ChatPayload : Type 0
ChatPayload = Value × List Value × ToolContext × ℕ

unfoldable pub build_chat_payload :
    Host → Value → String → Option StoredResponse → Value → ℕ → Result HistoryError ChatPayload
unfolding build_with_input get extract_request_with_context assembled_messages
    normalize_upstream_roles validate_chat_tool_history with_tools copy_parameters with_stream_usage
    insert fields chat_message
build_chat_payload host body model_upstream previous reasoning_parameter drawn = do
  let context = build_with_input host.serde (get "tools" body) (get "input" body)
  (incoming, outputs, drawn') ← extract_request_with_context host context body drawn
  (assembled, drawn'') ← assembled_messages host body context previous incoming outputs drawn'
  messages ← normalize_upstream_roles host.serde (or_empty_message assembled)
  as_history_error (validate_chat_tool_history messages)
  let payload = fields (
      ("model", string model_upstream)
      ∷ ("messages", arr messages)
      ∷ ("stream", bool (unwrap_or false (and_then (get "stream" body) as_bool)))
      ∷ [])
  let payload' =
      with_stream_usage (copy_parameters passed_on body (with_tools host body context payload))
  ok (
    object (overlay (unwrap_or empty (as_object reasoning_parameter)) payload'),
    messages,
    context,
    drawn'',
  )
