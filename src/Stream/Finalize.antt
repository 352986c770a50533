-- ===== src/Stream/Finalize.antt =====
-- `start`, `accept`, `finalize`, `fail` and the queries of the assembler.
use codex_mimo_adapter.Base.{
  ℕ, String, Bool, true, not, ◌&&◌, ◌||◌, Option, none, some, List, [], ◌∷◌, ◌++◌, map,
  if◌then◌else◌, any, is_nil, ◌==◌,
}
use mathlib.Core.Option
use codex_mimo_adapter.Base.Str.{is_empty, non_empty, concat, trim, take_chars, is_some}
use codex_mimo_adapter.Base.Decimal.{decimal}
use codex_mimo_adapter.Json.{
  Value, Map, null, string, object, empty, obj, arr, get, get_str, as_array, and_then, unwrap_or,
  fields, insert,
}
use codex_mimo_adapter.State.{StoredResponse}
use codex_mimo_adapter.Text.{as_text, reasoning_text, canonicalize_json_string_if_parseable}
use codex_mimo_adapter.Tools.{is_custom_tool_chat_name}
use codex_mimo_adapter.Request.Defs.{tool_call}
use codex_mimo_adapter.Request.Payload.{put_some}
use codex_mimo_adapter.Response.Items.{
  reasoning_item, message_item, completion_status, response_shell,
  custom_tool_input_from_chat_arguments,
}
use codex_mimo_adapter.Stream.Exec.{
  Exec, pure, either, modify, when, with_state, for_each, ◌>>=◌, ◌>>◌,
}
use codex_mimo_adapter.Stream.Exec
use codex_mimo_adapter.Stream.Defs.{
  Setup, Assembler, StreamingToolCall, get_call, set_call, emit_event, allocate_output_index, Event,
  created, in_progress, completed, incomplete, failed, item_added, item_done, arguments_done,
  custom_input_delta, custom_input_done,
}
use codex_mimo_adapter.Stream.Emit.{
  push_reasoning_delta, finish_reasoning_item, close_reasoning, finish_text_item,
}
use codex_mimo_adapter.Stream.Think.{
  flush_pending_think_buffer, disable_leading_think_detection, accept_content_delta,
}
use codex_mimo_adapter.Stream.ToolCalls.{accept_tool_delta, response_tool_item}

-- `v` unless it is null
abbrev pub not_null : Value → Option Value
not_null null = none
not_null v = some v

-- `self.tool_calls.values().any(|call| !call.done && !call.name.trim().is_empty())`
unfoldable pub has_tool_output : Assembler → Bool
unfolding trim
has_tool_output s = any (λ (k, c). not c.done && not (is_empty (trim c.name))) s.tool_calls

unfoldable pub has_substantive_output : Assembler → Bool
unfolding trim
has_substantive_output s =
    not (is_empty (trim s.content))
    || not (is_empty (trim s.reasoning))
    || not (is_empty (trim s.think_buffer))
    || any (λ (k, c). c.added || not (is_empty (trim c.arguments)) || not (is_empty (trim c.name)))
        s.tool_calls

abbrev pub has_finish_reason : Assembler → Bool
has_finish_reason s = is_some s.finish_reason

unfoldable pub mark_truncated_as_length : Assembler → Assembler
mark_truncated_as_length s =
    if is_some s.finish_reason then s else record s { finish_reason = some "length" }

-- What `finalize` has collected: the output items, the replayed calls and the pending ids.
pub record Collected : Type 0 where
  pub output : List Value
  pub replay_calls : List Value
  pub pending : List String

module _ (setup : Setup) where
  unfoldable pub shell : List Value → Value → String → Option Value → Map
  unfolding response_shell
  shell output usage status incomplete_details =
      response_shell setup.body setup.response_id setup.created_at setup.model_alias output usage
        status incomplete_details

  unfoldable pub start : Exec Assembler (Unit {0})
  unfolding ◌>>=◌ emit_event shell
  start = do
    emit_event setup (created (shell [] (object empty) "in_progress" none))
    emit_event setup (in_progress (shell [] (object empty) "in_progress" none))

  abbrev pub accept_reasoning : Option String → Exec Assembler (Unit {0})
  accept_reasoning none = Exec.done
  accept_reasoning (some text) = do
    disable_leading_think_detection setup
    push_reasoning_delta setup text

  abbrev pub accept_content : Option Value → Exec Assembler (Unit {0})
  accept_content none = Exec.done
  accept_content (some content) =
      let text = as_text setup.host.serde content in
      when (not (is_empty text)) (accept_content_delta setup text)

  abbrev pub accept_calls : Option (List Value) → Exec Assembler (Unit {0})
  accept_calls none = Exec.done
  accept_calls (some calls) = do
    flush_pending_think_buffer setup
    close_reasoning setup
    for_each (accept_tool_delta setup) calls

  abbrev pub note_finish : Option String → Assembler → Assembler
  note_finish none s = s
  note_finish (some reason) s = record s { finish_reason = some reason }

  -- one round of the loop over the choices
  unfoldable pub accept_choice : Value → Exec Assembler (Unit {0})
  unfolding ◌>>=◌ get get_str reasoning_text as_text disable_leading_think_detection
      push_reasoning_delta accept_content_delta flush_pending_think_buffer close_reasoning for_each
      accept_tool_delta
  accept_choice choice =
      let delta = unwrap_or null (get "delta" choice) in
      (do
        accept_reasoning (reasoning_text delta)
        accept_content (get "content" delta)
        accept_calls (and_then (get "tool_calls" delta) as_array)
        modify (note_finish (get_str "finish_reason" choice)))

  abbrev pub note_usage : Option Value → Assembler → Assembler
  note_usage none s = s
  note_usage (some usage) s = record s { usage = usage }

  unfoldable pub accept : Value → Exec Assembler (Unit {0})
  unfolding ◌>>=◌ get for_each accept_choice
  accept chunk = do
    modify (note_usage (and_then (get "usage" chunk) not_null))
    for_each accept_choice (unwrap_or [] (and_then (get "choices" chunk) as_array))

  -- `start_tool_for_finalize`: the entry with its id and its output index
  unfoldable pub start_tool_for_finalize : ℕ → StreamingToolCall → Exec Assembler StreamingToolCall
  unfolding ◌>>=◌ allocate_output_index set_call response_tool_item emit_event decimal
  start_tool_for_finalize index call = (do
    output_index ← allocate_output_index setup
    let started : StreamingToolCall = record call {
      call_id = unwrap_or (concat ("call_" ∷ decimal index ∷ [])) (non_empty call.call_id);
      output_index = some output_index;
      added = true;
    }
    modify (λ s. record s { tool_calls = set_call index started s.tool_calls })
    emit_event setup (
        item_added output_index
          (response_tool_item setup started.item_id "in_progress" started.call_id started.name ""))
    pure started)

  -- the events at the end of one call
  unfoldable pub end_call : ℕ → StreamingToolCall → String → Exec Assembler (Unit {0})
  unfolding ◌>>=◌ is_custom_tool_chat_name custom_tool_input_from_chat_arguments emit_event
  end_call output_index call arguments =
      let input = custom_tool_input_from_chat_arguments setup.host.serde arguments in
      either (is_custom_tool_chat_name setup.tool_context call.name)
        (do
          when (not (is_empty input))
              (emit_event setup (custom_input_delta output_index call.item_id input))
          emit_event setup (custom_input_done output_index call.item_id input))
        (emit_event setup (arguments_done output_index call.item_id call.call_id arguments))

  -- a call with a name, once it is announced: it is marked done and collected
  unfoldable pub finish_call : ℕ → StreamingToolCall → Collected → Exec Assembler Collected
  unfolding ◌>>=◌ set_call canonicalize_json_string_if_parseable response_tool_item end_call
      emit_event tool_call decimal
  finish_call key call collected =
      let call_id = unwrap_or (concat ("call_" ∷ decimal key ∷ [])) (non_empty call.call_id) in
      let output_index = unwrap_or 0 call.output_index in
      let arguments = canonicalize_json_string_if_parseable setup.host.serde call.arguments in
      let finished : StreamingToolCall = record call { call_id = call_id; done = true } in
      let item = response_tool_item setup call.item_id "completed" call_id call.name arguments in
      (do
        modify (λ s. record s { tool_calls = set_call key finished s.tool_calls })
        end_call output_index finished arguments
        emit_event setup (item_done output_index item)
        pure (record {
          output = collected.output ++ item ∷ [];
          replay_calls = collected.replay_calls ++ tool_call call_id call.name arguments ∷ [];
          pending = collected.pending ++ call_id ∷ [];
        }))

  -- one round of the loop over the keys
  abbrev pub finalize_call : ℕ → StreamingToolCall → Collected → Exec Assembler Collected
  finalize_call key call collected = either call.done (pure collected) (
      either (is_empty call.name)
        (do
          modify (λ s. record s {
            tool_calls = set_call key (record call { done = true }) s.tool_calls;
          })
          pure collected)
        (either call.added (finish_call key call collected)
          (do started ← start_tool_for_finalize key call; finish_call key started collected)))

  abbrev pub finalize_entry : ℕ → Option StreamingToolCall → Collected → Exec Assembler Collected
  finalize_entry key none collected = pure collected
  finalize_entry key (some call) collected = finalize_call key call collected

  unfoldable pub finalize_calls : List ℕ → Collected → Exec Assembler Collected
  unfolding ◌>>=◌ get_call set_call start_tool_for_finalize finish_call
  finalize_calls [] collected = pure collected
  finalize_calls (key ∷ keys) collected = do
    collected' ← with_state (λ s. finalize_entry key (get_call key s.tool_calls) collected)
    finalize_calls keys collected'

  -- the assistant message that is stored for the continuation
  unfoldable pub stored_assistant : Assembler → List Value → Value
  unfolding fields insert
  stored_assistant s replay_calls =
      let replayed : Option Value = if is_nil replay_calls then none else some (arr replay_calls) in
      object (
        put_some "tool_calls" replayed (
          put_some "reasoning_content" (Option.map string (non_empty s.reasoning))
            (fields (("role", string "assistant") ∷ ("content", string s.content) ∷ []))))

  -- the response that is stored for the continuation, its output and pending ids
  unfoldable pub stored_response : Assembler → Collected → StoredResponse
  unfolding stored_assistant get_str
  stored_response s collected = record {
    response_id = setup.response_id;
    model_alias = setup.model_alias;
    model_upstream = setup.model_upstream;
    messages = setup.base_messages ++ stored_assistant s collected.replay_calls ∷ [];
    pending_call_ids = collected.pending;
    output = collected.output;
    created_at = setup.created_at;
    previous_response_id = unwrap_or "" (get_str "previous_response_id" setup.body);
  }

  -- `(self.state_put)(...)`
  unfoldable pub put_state : StoredResponse → Exec Assembler (Unit {0})
  put_state item s = (setup.state_put item, record s { stored = s.stored ++ item ∷ [] })

  abbrev pub terminal : String → Map → Event
  terminal status response =
      if status == "completed" then completed response else incomplete response

  -- the items of the output before the tool calls
  unfoldable pub head_items : Assembler → Bool → List Value
  unfolding reasoning_item message_item
  head_items s has_tools =
      (if is_empty s.reasoning then [] else reasoning_item s.reasoning setup.reasoning_item_id ∷ [])
      ++ (if is_empty s.content || has_tools
          then []
          else message_item s.content setup.message_item_id ∷ [])

  -- the event that ends the stream, and its mark
  unfoldable pub end_stream : Event → Map → Exec Assembler Value
  unfolding ◌>>=◌ emit_event
  end_stream event response = do
    emit_event setup event
    modify (λ s. record s { terminal_emitted = true })
    pure (object response)

  -- `finalize` behind its first test; the entries' keys are read before the loop
  unfoldable pub finalize_open : Exec Assembler Value
  unfolding ◌>>=◌ flush_pending_think_buffer finish_reasoning_item finish_text_item has_tool_output
      head_items finalize_calls stored_response put_state completion_status shell end_stream
  finalize_open = do
    flush_pending_think_buffer setup
    with_state (λ s. when (not (is_empty s.reasoning)) (finish_reasoning_item setup))
    with_state
        (λ s. when (not (is_empty s.content) && not (has_tool_output s)) (finish_text_item setup))
    collected ← with_state (λ s.
        finalize_calls (map (λ (k, c). k) s.tool_calls)
          (record { output = head_items s (has_tool_output s); replay_calls = []; pending = [] }))
    with_state (λ s. put_state (stored_response s collected))
    with_state (λ s.
        let (status, details) = completion_status (Option.map string s.finish_reason) in
        let response = shell collected.output s.usage status details in
        end_stream (terminal status response) response)

  unfoldable pub finalize : Exec Assembler Value
  unfolding ◌>>=◌ finalize_open
  finalize = with_state (λ s. either s.terminal_emitted (pure (object empty)) finalize_open)

  unfoldable pub failed_response : String → String → Value → Map
  unfolding shell insert fields take_chars
  failed_response error_type message usage =
      insert "error"
        (obj (
          ("type", string error_type)
          ∷ ("code", string error_type)
          ∷ ("message", string (take_chars 1000 message))
          ∷ []))
        (shell [] usage "failed" none)

  unfoldable pub fail : String → String → Exec Assembler Value
  unfolding ◌>>=◌ failed_response end_stream
  fail error_type message = with_state (λ s.
      let response = failed_response error_type message s.usage in
      either s.terminal_emitted (pure (object empty)) (end_stream (failed response) response))
