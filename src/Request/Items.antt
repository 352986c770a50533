-- ===== src/Request/Items.antt =====
-- `extract_request_with_context`: the input items of a request, one after the other.
use codex_mimo_adapter.Base.{
  ℕ, suc, String, Bool, ◌||◌, Option, none, some, List, [], ◌∷◌, ◌++◌, ◌==◌, if◌then◌else◌,
  contains, is_nil,
}
use codex_mimo_adapter.Base.Str.{concat, is_empty}
use codex_mimo_adapter.Base.Result.{Result, ok, err, ◌>>=◌}
use codex_mimo_adapter.Json.{
  Value, null, string, array, object, obj, arr, get, get_str, as_str, as_array, and_then, or_else,
  unwrap_or, to_list, fields,
}
use codex_mimo_adapter.Host.{Host}
use codex_mimo_adapter.Text.{as_text, arguments_text}
use codex_mimo_adapter.Tools.{
  ToolContext, chat_name_for_response_function, build_with_input, custom_tool_input_field,
}
use codex_mimo_adapter.Multimodal.{
  chat_content_from_response_content, image_to_chat_content_part, file_to_chat_content_part,
  audio_to_chat_content_part, is_text_kind, is_image_kind,
}
use codex_mimo_adapter.Request.Defs.{
  HistoryError, invalid, tool_output_message, chat_message, tool_call, tool_calls_message,
}

-- The variables of the loop, and how many identifiers have been drawn.
pub record Extract : Type 0 where
  pub messages : List Value
  pub tool_outputs : List Value
  pub pending_calls : List Value
  pub drawn : ℕ

-- the closure `flush_pending`
unfoldable pub flush_pending : Extract → Extract
unfolding tool_calls_message
flush_pending x = if is_nil x.pending_calls then x else record x {
  messages = x.messages ++ tool_calls_message x.pending_calls ∷ [];
  pending_calls = [];
}

-- `flush_pending` and then one more message
unfoldable pub push_message : Value → Extract → Extract
unfolding flush_pending
push_message message x =
    let y = flush_pending x in record y { messages = y.messages ++ message ∷ [] }

abbrev pub is_output_kind : String → Bool
is_output_kind kind =
    contains ("function_call_output" ∷ "custom_tool_call_output" ∷ "tool_search_output" ∷ []) kind

abbrev pub is_call_kind : String → Bool
is_call_kind kind = contains ("function_call" ∷ "custom_tool_call" ∷ "tool_search_call" ∷ []) kind

module _ (host : Host) (context : ToolContext) where
  open host use {serde, uuid, order}

  -- the id of a replayed call, or a fresh one
  unfoldable pub replayed_call_id : Value → Extract → String
  unfolding get
  replayed_call_id item x =
      unwrap_or (concat ("call_" ∷ uuid x.drawn ∷ []))
        (and_then (or_else (get "call_id" item) (get "id" item)) as_str)

  abbrev push_call : Value → Extract → Extract
  push_call call x = record x { pending_calls = x.pending_calls ++ call ∷ []; drawn = suc x.drawn }

  unfoldable pub accept_output : String → Value → Extract → Result HistoryError Extract
  unfolding get_str get as_text flush_pending tool_output_message
  accept_output kind item x =
      let call_id = unwrap_or "" (get_str "call_id" item) in
      let content = as_text serde (unwrap_or (string "") (get "output" item)) in
      let y = flush_pending x in
      if is_empty call_id
      then err (invalid (concat (kind ∷ " requires call_id" ∷ [])))
      else ok
          (record y { tool_outputs = y.tool_outputs ++ tool_output_message call_id content ∷ [] })

  unfoldable pub accept_function_call : Value → Extract → Extract
  unfolding get_str get replayed_call_id chat_name_for_response_function arguments_text tool_call
  accept_function_call item x =
      let name = unwrap_or "" (get_str "name" item) in
      let chat_name =
        chat_name_for_response_function order context name (get_str "namespace" item) in
      if is_empty name
      then record x { drawn = suc x.drawn }
      else push_call
          (tool_call (replayed_call_id item x) chat_name
            (arguments_text serde (get "arguments" item)))
          x

  unfoldable pub accept_custom_call : Value → Extract → Extract
  unfolding get_str get replayed_call_id chat_name_for_response_function tool_call fields
  accept_custom_call item x =
      let name = unwrap_or "" (get_str "name" item) in
      let input = unwrap_or (string "") (get "input" item) in
      let chat_name = chat_name_for_response_function order context name none in
      if is_empty name
      then record x { drawn = suc x.drawn }
      else push_call
          (tool_call (replayed_call_id item x) chat_name
            (serde.to_string (obj ((custom_tool_input_field, input) ∷ []))))
          x

  unfoldable pub accept_search_call : Value → Extract → Extract
  unfolding get replayed_call_id tool_call
  accept_search_call item x =
      let arguments : String = elim (get "arguments" item) [
        | some v ↦ serde.to_string v
        | none ↦ "{}"
      ] in
      push_call (tool_call (replayed_call_id item x) "tool_search" arguments) x

  -- the text of the first summary, if it is there
  unfoldable pub summary_text : Value → Option String
  unfolding get get_str
  summary_text item = elim (unwrap_or [] (and_then (get "summary" item) as_array)) [
    | [] ↦ none
    | first ∷ rest ↦ get_str "text" first
  ]

  unfoldable pub accept_reasoning : Value → Extract → Extract
  unfolding summary_text push_message fields
  accept_reasoning item x =
      let text = unwrap_or "" (summary_text item) in
      if is_empty text
      then x
      else push_message
          (obj (
            ("role", string "assistant")
            ∷ ("reasoning_content", string text)
            ∷ ("content", string "")
            ∷ []))
          x

  -- the role of a message item, as the chat API takes it
  unfoldable pub chat_role : Value → String
  unfolding get_str
  chat_role item =
      let role = unwrap_or "user" (get_str "role" item) in
      if role == "developer"
      then "system"
      else if contains ("system" ∷ "user" ∷ "assistant" ∷ "tool" ∷ []) role
      then role
      else "user"

  unfoldable pub accept_message : Value → Extract → Extract
  unfolding get chat_role chat_content_from_response_content as_text push_message chat_message
  accept_message item x =
      let content = unwrap_or (string "") (get "content" item) in
      let chat_content =
        unwrap_or (string (as_text serde content)) (chat_content_from_response_content content) in
      push_message (chat_message (chat_role item) chat_content) x

  unfoldable pub accept_agent_message : Value → Extract → Extract
  unfolding get chat_content_from_response_content flush_pending push_message chat_message
  accept_agent_message item x =
      let content = unwrap_or (arr []) (get "content" item) in
      elim (chat_content_from_response_content content) [
        | some chat_content ↦ push_message (chat_message "user" chat_content) x
        | none ↦ flush_pending x
      ]

  -- an image, file or audio item, if it has a chat form
  unfoldable pub accept_part : Option Value → Extract → Extract
  unfolding push_message chat_message
  accept_part none x = x
  accept_part (some part) x = push_message (chat_message "user" (arr (part ∷ []))) x

  -- the match on the kind of an object item
  unfoldable pub accept_kind : String → Value → Extract → Result HistoryError Extract
  unfolding accept_output accept_function_call accept_custom_call accept_search_call
      accept_reasoning accept_message accept_agent_message accept_part as_text push_message
      chat_message image_to_chat_content_part file_to_chat_content_part audio_to_chat_content_part
  accept_kind kind item x =
      if is_output_kind kind
      then accept_output kind item x
      else if kind == "function_call"
      then ok (accept_function_call item x)
      else if kind == "custom_tool_call"
      then ok (accept_custom_call item x)
      else if kind == "tool_search_call"
      then ok (accept_search_call item x)
      else if kind == "reasoning" || kind == "summary"
      then ok (accept_reasoning item x)
      else if kind == "message" || kind == ""
      then ok (accept_message item x)
      else if kind == "agent_message"
      then ok (accept_agent_message item x)
      else if is_text_kind kind
      then ok (push_message (chat_message "user" (string (as_text serde item))) x)
      else if is_image_kind kind
      then ok (accept_part (image_to_chat_content_part item) x)
      else if kind == "input_file"
      then ok (accept_part (file_to_chat_content_part item) x)
      else if kind == "input_audio"
      then ok (accept_part (audio_to_chat_content_part item) x)
      else ok x

  -- one round of the loop
  unfoldable pub accept_item : Value → Extract → Result HistoryError Extract
  unfolding accept_kind push_message chat_message get_str
  accept_item (string text) x = ok (push_message (chat_message "user" (string text)) x)
  accept_item (object m) x = accept_kind (unwrap_or "" (get_str "type" (object m))) (object m) x
  accept_item _ x = ok x

  unfoldable pub accept_items : List Value → Extract → Result HistoryError Extract
  unfolding accept_item
  accept_items [] x = ok x
  accept_items (item ∷ items) x = do y ← accept_item item x; accept_items items y

  -- the system message of the instructions
  unfoldable pub instruction_messages : Value → List Value
  unfolding get as_text chat_message
  instruction_messages body = elim (get "instructions" body) [
    | none ↦ []
    | some null ↦ []
    | some v ↦ chat_message "system" (string (as_text serde v)) ∷ []
  ]

  -- the items of the field `input`
  unfoldable pub input_items : Option Value → Result HistoryError (List Value)
  unfolding chat_message
  input_items none = ok []
  input_items (some (string text)) = ok (chat_message "user" (string text) ∷ [])
  input_items (some (object m)) = ok (object m ∷ [])
  input_items (some (array items)) = ok (to_list items)
  input_items (some _) = err (invalid "input must be a string, object, or list")

  -- `extract_request_with_context`; `drawn` identifiers have been drawn before it
  unfoldable pub extract_request_with_context :
      Value → ℕ → Result HistoryError (List Value × List Value × ℕ)
  unfolding instruction_messages input_items accept_items flush_pending get
  extract_request_with_context body drawn = do
    items ← input_items (get "input" body)
    x ← accept_items items (record {
      messages = instruction_messages body;
      tool_outputs = [];
      pending_calls = [];
      drawn = drawn;
    })
    let y = flush_pending x
    ok (y.messages, y.tool_outputs, y.drawn)

-- `extract_request`
unfoldable pub extract_request :
    Host → Value → ℕ → Result HistoryError (List Value × List Value × ℕ)
unfolding extract_request_with_context build_with_input get
extract_request host body drawn =
    extract_request_with_context host
      (build_with_input host.serde (get "tools" body) (get "input" body)) body drawn
