-- ===== src/Response/Build.antt =====
-- `build_response`.
use codex_mimo_adapter.Base.{
  ℕ, suc, ◌+◌, String, Option, none, some, List, [], ◌∷◌, ◌++◌, map, if◌then◌else◌, is_nil,
}
use mathlib.Core.Option
use codex_mimo_adapter.Base.Int.{ℤ}
use codex_mimo_adapter.Base.Str.{is_empty, non_empty, concat}
use codex_mimo_adapter.Base.Decimal.{decimal}
use codex_mimo_adapter.Base.Result.{Result, ok, ◌>>=◌}
use codex_mimo_adapter.Json.{
  Value, Map, null, string, object, empty, arr, get, get_str, as_str, as_array, and_then, or_else,
  unwrap_or, insert, fields,
}
use codex_mimo_adapter.Host.{Host}
use codex_mimo_adapter.State.{StoredResponse}
use codex_mimo_adapter.Text.{
  as_text, reasoning_text, arguments_text, split_leading_think_block,
  canonicalize_json_string_if_parseable,
}
use codex_mimo_adapter.Tools.{
  ToolContext, ToolSpec, ToolKind, function, custom, tool_search, lookup_spec, restore_name,
}
use codex_mimo_adapter.Request.Defs.{tool_call}
use codex_mimo_adapter.Request.Payload.{put_some}
use codex_mimo_adapter.Response.Items.{
  custom_tool_input_from_chat_arguments, parse_tool_arguments_object, reasoning_item, message_item,
  completion_status, response_shell,
}

-- One tool call of the upstream message.
pub record UpstreamCall : Type 0 where
  pub call_id : String
  pub raw_name : String
  pub arguments : String

-- The stored response and the answer.
pub record Built : Type 0 where
  pub stored : StoredResponse
  pub response : Map

-- the first choice, or an empty object
abbrev pub head_choice : Value → Value
head_choice chat_response = elim (unwrap_or [] (and_then (get "choices" chat_response) as_array)) [
  | [] ↦ object empty
  | choice ∷ rest ↦ choice
]

module _ (host : Host) where
  open host use {serde, uuid}

  unfoldable pub read_call : ℕ → Value → Option UpstreamCall
  unfolding get arguments_text canonicalize_json_string_if_parseable decimal
  read_call index call =
      let call_function = unwrap_or null (get "function" call) in
      let raw_name =
        unwrap_or "" (and_then (or_else (get "name" call_function) (get "name" call)) as_str) in
      let call_id =
        unwrap_or (concat ("call_" ∷ decimal index ∷ []))
          (and_then (or_else (get "id" call) (get "call_id" call)) as_str) in
      let arguments =
        canonicalize_json_string_if_parseable serde
          (arguments_text serde (or_else (get "arguments" call_function) (get "arguments" call))) in
      if is_empty raw_name
      then none
      else some (record { call_id = call_id; raw_name = raw_name; arguments = arguments })

  -- the calls that have a name, in order
  unfoldable pub read_calls : ℕ → List Value → List UpstreamCall
  unfolding read_call
  read_calls index [] = []
  read_calls index (call ∷ calls) = elim (read_call index call) [
    | none ↦ read_calls (suc index) calls
    | some c ↦ c ∷ read_calls (suc index) calls
  ]

  -- the fields of a plain function call's item
  unfoldable pub function_item : ToolContext → UpstreamCall → Option ToolSpec → Map
  unfolding restore_name insert fields
  function_item context c spec =
      let restored : String = elim spec [
        | some s ↦ s.name
        | none ↦ restore_name context c.raw_name
      ] in
      let ns : Option String = elim spec [ some s ↦ s.namespace_of | none ↦ none ] in
      put_some "namespace" (Option.map string (and_then ns non_empty)) (
        fields (
          ("type", string "function_call")
          ∷ ("id", string (concat ("fc_" ∷ c.call_id ∷ [])))
          ∷ ("call_id", string c.call_id)
          ∷ ("name", string restored)
          ∷ ("arguments", string c.arguments)
          ∷ ("status", string "completed")
          ∷ []))

  unfoldable pub call_item_of_kind : ToolContext → UpstreamCall → Option ToolSpec → ToolKind → Map
  unfolding function_item custom_tool_input_from_chat_arguments parse_tool_arguments_object fields
  call_item_of_kind context c spec custom = fields (
      ("type", string "custom_tool_call")
      ∷ ("id", string (concat ("ctc_" ∷ c.call_id ∷ [])))
      ∷ ("call_id", string c.call_id)
      ∷ ("name", string (elim spec [ some s ↦ s.name | none ↦ "" ]))
      ∷ ("input", string (custom_tool_input_from_chat_arguments serde c.arguments))
      ∷ ("status", string "completed")
      ∷ [])
  call_item_of_kind context c spec tool_search = fields (
      ("type", string "tool_search_call")
      ∷ ("id", string (concat ("tsc_" ∷ c.call_id ∷ [])))
      ∷ ("call_id", string c.call_id)
      ∷ ("execution", string "client")
      ∷ ("arguments", parse_tool_arguments_object serde c.arguments)
      ∷ ("status", string "completed")
      ∷ [])
  call_item_of_kind context c spec _ = function_item context c spec

  -- the output item of one call, with the reasoning if there is some
  unfoldable pub call_item : ToolContext → String → UpstreamCall → Value
  unfolding lookup_spec call_item_of_kind insert
  call_item context reasoning c =
      let spec = lookup_spec context c.raw_name in
      let kind : ToolKind = elim spec [ some s ↦ s.kind | none ↦ function ] in
      object (
        put_some "reasoning_content" (Option.map string (non_empty reasoning))
          (call_item_of_kind context c spec kind))

  abbrev pub replay_call : UpstreamCall → Value
  replay_call c = tool_call c.call_id c.raw_name c.arguments

  -- the assistant message that is stored for the continuation
  unfoldable pub assistant_message : Value → String → String → List UpstreamCall → Value
  unfolding get insert fields tool_call
  assistant_message message content reasoning calls =
      let replayed : Option Value = elim calls [
        | [] ↦ none
        | c ∷ cs ↦ some (arr (map replay_call (c ∷ cs)))
      ] in
      object (
        put_some "tool_calls" replayed (
          put_some "thinking_blocks" (get "thinking_blocks" message) (
            put_some "reasoning_content" (Option.map string (non_empty reasoning))
              (fields (("role", string "assistant") ∷ ("content", string content) ∷ [])))))

  -- the content and the reasoning of the upstream message, a leading think block split off
  unfoldable pub content_and_reasoning : Value → String × String
  unfolding get as_text reasoning_text split_leading_think_block
  content_and_reasoning message =
      let content = unwrap_or "" (Option.map (as_text serde) (get "content" message)) in
      let reasoning = unwrap_or "" (reasoning_text message) in
      if is_empty reasoning
      then elim (split_leading_think_block content) [
        | some (extracted, answer) ↦ (answer, extracted)
        | none ↦ (content, reasoning)
      ]
      else (content, reasoning)

  unfoldable pub convert :
      Value → Value → String → String → List Value → ToolContext → ℤ → ℕ → Built
  unfolding get get_str content_and_reasoning read_calls call_item assistant_message reasoning_item
      message_item completion_status response_shell
  convert body chat_response model_alias model_upstream base_messages context now drawn =
      let choice = head_choice chat_response in
      let message = unwrap_or (object empty) (get "message" choice) in
      let (content, reasoning) = content_and_reasoning message in
      let response_id = concat ("resp_" ∷ uuid drawn ∷ []) in
      let calls = read_calls 0 (unwrap_or [] (and_then (get "tool_calls" message) as_array)) in
      let reasoning_items : List Value =
        if is_empty reasoning
        then []
        else reasoning_item reasoning (concat ("rs_" ∷ uuid (drawn + 1) ∷ [])) ∷ [] in
      let message_items : List Value =
        if is_empty content
        then []
        else if is_nil calls
        then message_item content (concat ("msg_" ∷ uuid (drawn + 2) ∷ [])) ∷ []
        else [] in
      let output = reasoning_items ++ (map (call_item context reasoning) calls ++ message_items) in
      let (status, incomplete) = completion_status (get "finish_reason" choice) in
      record {
        stored = record {
          response_id = response_id;
          model_alias = model_alias;
          model_upstream = model_upstream;
          messages = base_messages ++ assistant_message message content reasoning calls ∷ [];
          pending_call_ids = map (λ (c : UpstreamCall). c.call_id) calls;
          output = output;
          created_at = now;
          previous_response_id = unwrap_or "" (get_str "previous_response_id" body);
        };
        response =
            response_shell body response_id now model_alias output
              (unwrap_or (object empty) (get "usage" chat_response)) status incomplete;
      }

  -- `build_response`: the response, once `state_put` has stored the continuation
  unfoldable pub build_response {ℓ} :
      {S : Type ℓ}
      → (StoredResponse → S → Result String S)
      → Value
      → Value
      → String
      → String
      → List Value
      → ToolContext
      → ℤ
      → ℕ
      → S
      → Result String (Value × S)
  unfolding convert
  build_response state_put body chat_response model_alias model_upstream base context now drawn s =
      let built = convert body chat_response model_alias model_upstream base context now drawn in
      (do s' ← state_put built.stored s; ok (object built.response, s'))
