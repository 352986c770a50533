-- ===== src/Stream/Walk/Calls.antt =====
-- The walk over the actions on tool calls and over `start` and `accept`, up to the end.
use codex_mimo_adapter.Base.{ℕ, String, refl, Bool, true, false, Option, none, some, List, [], ◌∷◌}
use codex_mimo_adapter.Json.{Value}
use codex_mimo_adapter.Stream.Keeps.{Keeps, keeps_rules, Keeps-done}
use codex_mimo_adapter.Stream.Defs.{Setup, Assembler, StreamingToolCall}
use codex_mimo_adapter.Stream.ToolCalls.{
  ToolDelta, arguments_of, arguments_of_entry, emit_tool_arguments, start_tool, start_entry,
  ensure_tool_started, accept_read_delta, accept_option, accept_tool_delta,
}
use codex_mimo_adapter.Stream.Finalize.{
  start, accept_reasoning, accept_content, accept_calls, note_finish, accept_choice, note_usage,
  accept, start_tool_for_finalize, end_call, finish_call, finalize_call, finalize_entry,
  finalize_calls, Collected,
}
use codex_mimo_adapter.Stream.Walk.{
  SameLog, IsLogInvariant, same_log, is_terminal, emit-Keeps, frame-Keeps, walk_rules, item_rules,
  accept_content_delta-Keeps, flush_pending_think_buffer-Keeps,
  disable_leading_think_detection-Keeps,
}

module _ {setup : Setup} {P : Assembler → Type 0} (inv : IsLogInvariant setup P) where
  arguments_of-Keeps :
      (c : StreamingToolCall) (index : Option ℕ) (silent : Bool) (part : String)
      → Keeps P (arguments_of setup c index silent part)
  unfolding is_terminal
  arguments_of-Keeps c none silent part = Keeps-done
  arguments_of-Keeps c (some i) true part = Keeps-done
  arguments_of-Keeps c (some i) false part = emit-Keeps inv _ refl

  arguments_of_entry-Keeps :
      (c : Option StreamingToolCall) (part : String) → Keeps P (arguments_of_entry setup c part)
  arguments_of_entry-Keeps none part = Keeps-done
  arguments_of_entry-Keeps (some c) part = arguments_of-Keeps c c.output_index _ part

  emit_tool_arguments-Keeps :
      (index : ℕ) (part : String) → Keeps P (emit_tool_arguments setup index part)
  unfolding emit_tool_arguments
  emit_tool_arguments-Keeps index part = search (walk_rules, arguments_of_entry-Keeps) depth 9

  start_tool-Keeps :
      (index : ℕ) (entry : StreamingToolCall) → Keeps P (start_tool setup index entry)
  unfolding start_tool is_terminal
  start_tool-Keeps index entry = search (item_rules, emit_tool_arguments-Keeps) depth 9

  start_entry-Keeps :
      (index : ℕ) (entry : Option StreamingToolCall) → Keeps P (start_entry setup index entry)
  start_entry-Keeps index none = Keeps-done
  start_entry-Keeps index (some c) = search (keeps_rules, start_tool-Keeps)

  ensure_tool_started-Keeps : (index : ℕ) → Keeps P (ensure_tool_started setup index)
  unfolding ensure_tool_started
  ensure_tool_started-Keeps index = search (walk_rules, start_entry-Keeps) depth 9

  accept_read_delta-Keeps : (delta : ToolDelta) → Keeps P (accept_read_delta setup delta)
  unfolding accept_read_delta
  accept_read_delta-Keeps delta =
      search (walk_rules, ensure_tool_started-Keeps, emit_tool_arguments-Keeps) depth 9

  accept_option-Keeps : (delta : Option ToolDelta) → Keeps P (accept_option setup delta)
  accept_option-Keeps none = Keeps-done
  accept_option-Keeps (some d) = accept_read_delta-Keeps d

  accept_tool_delta-Keeps : (delta : Value) → Keeps P (accept_tool_delta setup delta)
  unfolding accept_tool_delta
  accept_tool_delta-Keeps delta = accept_option-Keeps _

  pub start-Keeps : Keeps P (start setup)
  unfolding start is_terminal
  start-Keeps = search walk_rules depth 9

  accept_reasoning-Keeps : (text : Option String) → Keeps P (accept_reasoning setup text)
  accept_reasoning-Keeps none = Keeps-done
  accept_reasoning-Keeps (some text) = search (item_rules, disable_leading_think_detection-Keeps)

  accept_content-Keeps : (content : Option Value) → Keeps P (accept_content setup content)
  accept_content-Keeps none = Keeps-done
  accept_content-Keeps (some content) = search (item_rules, accept_content_delta-Keeps)

  accept_calls-Keeps : (calls : Option (List Value)) → Keeps P (accept_calls setup calls)
  accept_calls-Keeps none = Keeps-done
  accept_calls-Keeps (some calls) =
      search (item_rules, flush_pending_think_buffer-Keeps, accept_tool_delta-Keeps)

  note_finish-log :
      (reason : Option String) (s : Assembler) → SameLog s (note_finish setup reason s)
  note_finish-log none s = same_log _ _ refl refl refl
  note_finish-log (some r) s = same_log _ _ refl refl refl

  note_usage-log : (usage : Option Value) (s : Assembler) → SameLog s (note_usage setup usage s)
  note_usage-log none s = same_log _ _ refl refl refl
  note_usage-log (some u) s = same_log _ _ refl refl refl

  accept_choice-Keeps : (choice : Value) → Keeps P (accept_choice setup choice)
  unfolding accept_choice
  accept_choice-Keeps choice =
      search
        (
          keeps_rules, frame-Keeps, note_finish-log, accept_reasoning-Keeps, accept_content-Keeps,
          accept_calls-Keeps,
        )
        depth 9

  pub accept-Keeps : (chunk : Value) → Keeps P (accept setup chunk)
  unfolding accept
  accept-Keeps chunk =
      search (keeps_rules, frame-Keeps, note_usage-log, accept_choice-Keeps) depth 9

  start_tool_for_finalize-Keeps :
      (index : ℕ) (call : StreamingToolCall) → Keeps P (start_tool_for_finalize setup index call)
  unfolding start_tool_for_finalize is_terminal
  start_tool_for_finalize-Keeps index call = search walk_rules depth 9

  end_call-Keeps :
      (index : ℕ) (call : StreamingToolCall) (arguments : String)
      → Keeps P (end_call setup index call arguments)
  unfolding end_call is_terminal
  end_call-Keeps index call arguments = search walk_rules depth 9

  finish_call-Keeps :
      (key : ℕ) (call : StreamingToolCall) (collected : Collected)
      → Keeps P (finish_call setup key call collected)
  unfolding finish_call is_terminal
  finish_call-Keeps key call collected = search (walk_rules, end_call-Keeps) depth 9

  finalize_call-Keeps :
      (key : ℕ) (call : StreamingToolCall) (collected : Collected)
      → Keeps P (finalize_call setup key call collected)
  finalize_call-Keeps key call collected =
      search (walk_rules, start_tool_for_finalize-Keeps, finish_call-Keeps) depth 8

  finalize_entry-Keeps :
      (key : ℕ) (call : Option StreamingToolCall) (collected : Collected)
      → Keeps P (finalize_entry setup key call collected)
  finalize_entry-Keeps key none collected = search keeps_rules
  finalize_entry-Keeps key (some call) collected = finalize_call-Keeps key call collected

  pub finalize_calls-Keeps :
      (keys : List ℕ) (collected : Collected) → Keeps P (finalize_calls setup keys collected)
  unfolding finalize_calls
  finalize_calls-Keeps [] collected = search keeps_rules
  finalize_calls-Keeps (key ∷ keys) collected =
      search (keeps_rules, finalize_entry-Keeps, finalize_calls-Keeps keys)
