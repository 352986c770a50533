-- ===== src/Stream/ToolCalls.antt =====
-- Tool call deltas: the entries of `tool_calls`, their items and their argument deltas.
use codex_mimo_adapter.Base.{
  ℕ, suc, String, str_append, Bool, true, false, not, ◌&&◌, ◌||◌, Option, none, some, [], ◌∷◌,
  if◌then◌else◌,
}
use mathlib.Core.Option
use codex_mimo_adapter.Base.Str.{is_empty, non_empty, concat}
use codex_mimo_adapter.Json.{
  Value, Map, null, string, object, get, as_str, as_u64, and_then, or_else, unwrap_or, fields,
  insert,
}
use codex_mimo_adapter.Text.{arguments_text}
use codex_mimo_adapter.Tools.{
  ToolSpec, ToolKind, function, custom, tool_search, lookup_spec, restore_name,
  is_custom_tool_chat_name,
}
use codex_mimo_adapter.Request.Payload.{put_some}
use codex_mimo_adapter.Response.Items.{
  custom_tool_input_from_chat_arguments, parse_tool_arguments_object,
}
use codex_mimo_adapter.Stream.Exec.{Exec, modify, when, with_state, ◌>>=◌, ◌>>◌}
use codex_mimo_adapter.Stream.Exec
use codex_mimo_adapter.Stream.Defs.{
  Setup, Assembler, StreamingToolCall, get_call, set_call, buffers_text, emit_event,
  allocate_output_index, item_added, arguments_delta,
}
use codex_mimo_adapter.Stream.Emit.{close_reasoning, finish_text_item}

-- What one delta says, behind the tests of `accept_tool_delta`.
pub record ToolDelta : Type 0 where
  pub index : ℕ
  pub new_id : Option String
  pub name : Option String
  pub arguments : Option String

-- `StreamingToolCall::new`
abbrev pub new_call : String → StreamingToolCall
new_call item_id = record {
  output_index = none;
  item_id = item_id;
  call_id = "";
  name = "";
  arguments = "";
  added = false;
  done = false;
}

-- the entry once a delta has been put into it
unfoldable pub apply_delta : ToolDelta → StreamingToolCall → StreamingToolCall
apply_delta delta entry = record entry {
  call_id = elim delta.new_id [
    | none ↦ entry.call_id
    | some id ↦ if not entry.added || is_empty entry.call_id then id else entry.call_id
  ];
  name = elim delta.name [
    | none ↦ entry.name
    | some name ↦ if entry.added then entry.name else name
  ];
  arguments = elim delta.arguments [
    | none ↦ entry.arguments
    | some part ↦ str_append entry.arguments part
  ];
}

-- whether an entry is ready to be announced
abbrev pub should_start : StreamingToolCall → Bool
should_start c = not c.added && not (is_empty c.call_id) && not (is_empty c.name)

module _ (setup : Setup) where
  unfoldable pub read_tool_delta : Value → Option ToolDelta
  unfolding get arguments_text
  read_tool_delta delta =
      let call_function = unwrap_or null (get "function" delta) in
      Option.map
        (λ index. record {
          index = index;
          new_id = and_then (and_then (get "id" delta) as_str) non_empty;
          name =
              and_then (and_then (or_else (get "name" call_function) (get "name" delta)) as_str)
                non_empty;
          arguments =
              and_then (or_else (get "arguments" call_function) (get "arguments" delta))
                (λ v. non_empty (arguments_text setup.host.serde (some v)));
        })
        (and_then (get "index" delta) as_u64)

  -- `response_tool_item`
  unfoldable pub tool_item_of_kind :
      ToolKind → Option ToolSpec → String → String → String → String → String → Map
  unfolding fields insert restore_name custom_tool_input_from_chat_arguments
      parse_tool_arguments_object
  tool_item_of_kind custom spec item_id status call_id chat_name arguments = fields (
      ("id", string item_id)
      ∷ ("type", string "custom_tool_call")
      ∷ ("status", string status)
      ∷ ("call_id", string call_id)
      ∷ ("name", string (elim spec [ some s ↦ s.name | none ↦ "" ]))
      ∷ ("input", string (custom_tool_input_from_chat_arguments setup.host.serde arguments))
      ∷ [])
  tool_item_of_kind tool_search spec item_id status call_id chat_name arguments = fields (
      ("id", string item_id)
      ∷ ("type", string "tool_search_call")
      ∷ ("status", string status)
      ∷ ("call_id", string call_id)
      ∷ ("execution", string "client")
      ∷ ("arguments", parse_tool_arguments_object setup.host.serde arguments)
      ∷ [])
  tool_item_of_kind _ spec item_id status call_id chat_name arguments =
      let restored : String = elim spec [
        | some s ↦ s.name
        | none ↦ restore_name setup.tool_context chat_name
      ] in
      let ns : Option String = elim spec [ some s ↦ s.namespace_of | none ↦ none ] in
      put_some "namespace" (Option.map string (and_then ns non_empty)) (
        fields (
          ("id", string item_id)
          ∷ ("type", string "function_call")
          ∷ ("status", string status)
          ∷ ("call_id", string call_id)
          ∷ ("name", string restored)
          ∷ ("arguments", string arguments)
          ∷ []))

  unfoldable pub response_tool_item : String → String → String → String → String → Value
  unfolding lookup_spec tool_item_of_kind
  response_tool_item item_id status call_id chat_name arguments =
      let spec = lookup_spec setup.tool_context chat_name in
      let kind : ToolKind = elim spec [ some s ↦ s.kind | none ↦ function ] in
      object (tool_item_of_kind kind spec item_id status call_id chat_name arguments)

  -- the deltas that `emit_tool_arguments` emits for an announced entry that is no custom tool
  abbrev pub arguments_of : StreamingToolCall → Option ℕ → Bool → String → Exec Assembler (Unit {0})
  arguments_of c none silent part = Exec.done
  arguments_of c (some output_index) true part = Exec.done
  arguments_of c (some output_index) false part =
      emit_event setup (arguments_delta output_index c.item_id c.call_id part)

  abbrev pub arguments_of_entry : Option StreamingToolCall → String → Exec Assembler (Unit {0})
  arguments_of_entry none part = Exec.done
  arguments_of_entry (some c) part =
      arguments_of c c.output_index
        (not c.added || is_custom_tool_chat_name setup.tool_context c.name) part

  unfoldable pub emit_tool_arguments : ℕ → String → Exec Assembler (Unit {0})
  unfolding ◌>>=◌ get_call is_custom_tool_chat_name emit_event
  emit_tool_arguments index part =
      when (not (is_empty part))
        (with_state (λ s. arguments_of_entry (get_call index s.tool_calls) part))

  -- the rest of `ensure_tool_started`, for an entry that is ready
  unfoldable pub start_tool : ℕ → StreamingToolCall → Exec Assembler (Unit {0})
  unfolding ◌>>=◌ finish_text_item close_reasoning allocate_output_index set_call response_tool_item
      emit_event emit_tool_arguments
  start_tool index entry = do
    with_state (λ s.
        when (not (buffers_text setup) && not (is_empty s.content) && not s.text_done)
          (finish_text_item setup))
    close_reasoning setup
    output_index ← allocate_output_index setup
    modify (λ s. record s {
      tool_calls =
          set_call index (record entry { output_index = some output_index; added = true })
            s.tool_calls;
    })
    emit_event setup (
        item_added output_index
          (response_tool_item entry.item_id "in_progress" entry.call_id entry.name ""))
    when (not (is_empty entry.arguments)) (emit_tool_arguments index entry.arguments)

  abbrev pub start_entry : ℕ → Option StreamingToolCall → Exec Assembler (Unit {0})
  start_entry index none = Exec.done
  start_entry index (some c) = when (should_start c) (start_tool index c)

  unfoldable pub ensure_tool_started : ℕ → Exec Assembler (Unit {0})
  unfolding ◌>>=◌ get_call start_tool
  ensure_tool_started index = with_state (λ s. start_entry index (get_call index s.tool_calls))

  -- `entry(index).or_insert_with(StreamingToolCall::new)`
  unfoldable pub entry_or_new : ℕ → Assembler → StreamingToolCall
  unfolding get_call
  entry_or_new index s =
      unwrap_or (new_call (concat ("fc_" ∷ setup.host.uuid s.drawn ∷ [])))
        (get_call index s.tool_calls)

  abbrev pub put_entry : ToolDelta → Assembler → Assembler
  put_entry delta s = record s {
    tool_calls = set_call delta.index (apply_delta delta (entry_or_new delta.index s)) s.tool_calls;
    drawn = suc s.drawn;
  }

  abbrev pub emitted_part : Bool → Option String → String
  emitted_part true (some part) = part
  emitted_part _ _ = ""

  -- what `accept_tool_delta` does with a delta that has an index
  unfoldable pub accept_read_delta : ToolDelta → Exec Assembler (Unit {0})
  unfolding ◌>>=◌ entry_or_new apply_delta set_call ensure_tool_started emit_tool_arguments
  accept_read_delta delta = with_state (λ s. (do
    modify (put_entry delta)
    ensure_tool_started delta.index
    emit_tool_arguments delta.index
        (emitted_part (entry_or_new delta.index s).added delta.arguments)))

  abbrev pub accept_option : Option ToolDelta → Exec Assembler (Unit {0})
  accept_option none = Exec.done
  accept_option (some d) = accept_read_delta d

  unfoldable pub accept_tool_delta : Value → Exec Assembler (Unit {0})
  unfolding ◌>>=◌ read_tool_delta accept_read_delta
  accept_tool_delta delta = accept_option (read_tool_delta delta)
