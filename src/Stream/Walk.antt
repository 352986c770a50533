-- ===== src/Stream/Walk.antt =====
-- One walk over the assembler's actions: an invariant that an event which does not end the
-- stream keeps, and that looks at the log, its count and the mark of the end only, is kept by all.
use codex_mimo_adapter.Base.{
  ℕ, ◌+◌, String, ◌≡◌, refl, Bool, true, false, Option, none, some, List, [], ◌∷◌,
}
use codex_mimo_adapter.Json.{Value}
use codex_mimo_adapter.Stream.Exec.{
  Exec, done, pure, modify, when, with_state, for_each, either, ◌>>=◌, ◌>>◌,
}
use codex_mimo_adapter.Stream.Keeps.{
  Keeps, keeps_rules, Keeps-modify, Keeps-done, Keeps-with_state, Keeps-bind,
}
use codex_mimo_adapter.Stream.Defs.{
  Setup, Assembler, StreamingToolCall, ThinkBlockState, detecting, in_think, Event, created,
  in_progress, completed, incomplete, failed, emit_event, allocate_output_index,
}
use codex_mimo_adapter.Stream.Think.{
  set_buffer, set_think, reasoning_unless_empty, text_unless_empty, accept_closed, accept_open,
  in_think_buffer, accept_in_think_content, accept_opened, accept_plain, detect, accept_detecting,
  accept_content_in, accept_content_delta, flush_in, flush_pending_think_buffer,
  disable_leading_think_detection,
}
use codex_mimo_adapter.Stream.ToolCalls.{
  ToolDelta, arguments_of, arguments_of_entry, emit_tool_arguments, start_tool, start_entry,
  ensure_tool_started, accept_read_delta, accept_option, accept_tool_delta,
}
use codex_mimo_adapter.Stream.Finalize.{
  start, accept_reasoning, accept_content, accept_calls, note_finish, accept_choice, note_usage,
  accept, start_tool_for_finalize, end_call, finish_call, finalize_call, finalize_entry,
  finalize_calls, put_state, Collected,
}
use codex_mimo_adapter.Stream.Emit.{
  start_reasoning, push_reasoning_delta, end_reasoning, end_reasoning_at, finish_reasoning_item,
  close_reasoning, start_text, ensure_text_started, push_text_delta, end_text, end_text_at,
  finish_text_item,
}
pub mod Calls
pub mod End

-- The events behind which a stream is over.
unfoldable pub is_terminal : Event → Bool
is_terminal (completed r) = true
is_terminal (incomplete r) = true
is_terminal (failed r) = true
is_terminal _ = false

-- What an invariant must look at only.
pub record SameLog (s t : Assembler) : Type 0 where
  pub same_sent : s.sent ≡ t.sent
  pub same_sequence : s.sequence ≡ t.sequence
  pub same_end : s.terminal_emitted ≡ t.terminal_emitted

pub same_log :
    (s t : Assembler)
    → s.sent ≡ t.sent
    → s.sequence ≡ t.sequence
    → s.terminal_emitted ≡ t.terminal_emitted
    → SameLog s t
same_log s t a b c = record { same_sent = a; same_sequence = b; same_end = c }

pub record IsLogInvariant (setup : Setup) (P : Assembler → Type 0) : Type 0 where
  pub event : (e : Event) → is_terminal e ≡ false → Keeps P (emit_event setup e)
  pub frame : (s t : Assembler) → SameLog s t → P s → P t

module _ {setup : Setup} {P : Assembler → Type 0} (inv : IsLogInvariant setup P) where
  pub emit-Keeps : (e : Event) → is_terminal e ≡ false → Keeps P (emit_event setup e)
  emit-Keeps = inv.event

  pub frame-Keeps :
      (f : Assembler → Assembler) → ((s : Assembler) → SameLog s (f s)) → Keeps P (modify f)
  frame-Keeps f same = Keeps-modify f λ s h. inv.frame s (f s) (same s) h

  pub allocate_output_index-Keeps : Keeps P (allocate_output_index setup)
  unfolding allocate_output_index
  allocate_output_index-Keeps = record {
    at = λ s h.
        inv.frame s (record s { next_output_index = s.next_output_index + 1 })
          (same_log _ _ refl refl refl) h;
  }

  pub ruleset walk_rules =
      (keeps_rules, emit-Keeps, frame-Keeps, allocate_output_index-Keeps, same_log)

  pub start_reasoning-Keeps : Keeps P (start_reasoning setup)
  unfolding start_reasoning is_terminal
  start_reasoning-Keeps = search walk_rules

  pub push_reasoning_delta-Keeps : (text : String) → Keeps P (push_reasoning_delta setup text)
  unfolding push_reasoning_delta is_terminal
  push_reasoning_delta-Keeps text = search (walk_rules, start_reasoning-Keeps)

  pub end_reasoning-Keeps : (index : ℕ) → Keeps P (end_reasoning setup index)
  unfolding end_reasoning is_terminal
  end_reasoning-Keeps index = search walk_rules

  pub end_reasoning_at-Keeps :
      (index : Option ℕ) (is_done : Bool) → Keeps P (end_reasoning_at setup index is_done)
  end_reasoning_at-Keeps none b = Keeps-done
  end_reasoning_at-Keeps (some index) true = Keeps-done
  end_reasoning_at-Keeps (some index) false = end_reasoning-Keeps index

  pub finish_reasoning_item-Keeps : Keeps P (finish_reasoning_item setup)
  unfolding finish_reasoning_item
  finish_reasoning_item-Keeps = search (walk_rules, end_reasoning_at-Keeps)

  pub close_reasoning-Keeps : Keeps P (close_reasoning setup)
  unfolding close_reasoning
  close_reasoning-Keeps = search (walk_rules, finish_reasoning_item-Keeps)

  pub start_text-Keeps : Keeps P (start_text setup)
  unfolding start_text is_terminal
  start_text-Keeps = search (walk_rules, close_reasoning-Keeps)

  pub ensure_text_started-Keeps : Keeps P (ensure_text_started setup)
  unfolding ensure_text_started
  ensure_text_started-Keeps = search (walk_rules, start_text-Keeps)

  pub push_text_delta-Keeps : (text : String) → Keeps P (push_text_delta setup text)
  unfolding push_text_delta is_terminal
  push_text_delta-Keeps text = search (walk_rules, ensure_text_started-Keeps)

  pub end_text-Keeps : (index : ℕ) → Keeps P (end_text setup index)
  unfolding end_text is_terminal
  end_text-Keeps index = search walk_rules depth 8

  pub end_text_at-Keeps : (index : Option ℕ) → Keeps P (end_text_at setup index)
  end_text_at-Keeps none = Keeps-done
  end_text_at-Keeps (some index) = end_text-Keeps index

  pub finish_text_item-Keeps : Keeps P (finish_text_item setup)
  unfolding finish_text_item
  finish_text_item-Keeps = search (walk_rules, ensure_text_started-Keeps, end_text_at-Keeps)

  pub ruleset item_rules = (
    walk_rules, push_reasoning_delta-Keeps, finish_reasoning_item-Keeps, close_reasoning-Keeps,
    push_text_delta-Keeps, finish_text_item-Keeps,
  )

  pub reasoning_unless_empty-Keeps : (text : String) → Keeps P (reasoning_unless_empty setup text)
  unfolding reasoning_unless_empty
  reasoning_unless_empty-Keeps text = search item_rules

  pub text_unless_empty-Keeps : (text : String) → Keeps P (text_unless_empty setup text)
  unfolding text_unless_empty
  text_unless_empty-Keeps text = search item_rules

  pub accept_closed-Keeps :
      (reasoning : String) (answer : String) → Keeps P (accept_closed setup reasoning answer)
  unfolding accept_closed
  accept_closed-Keeps reasoning answer =
      search (item_rules, reasoning_unless_empty-Keeps, text_unless_empty-Keeps)

  pub accept_open-Keeps : (parts : String × String) → Keeps P (accept_open setup parts)
  unfolding accept_open
  accept_open-Keeps parts = search (item_rules, reasoning_unless_empty-Keeps)

  pub in_think_buffer-Keeps :
      (split : Option (String × String)) (buffer : String)
      → Keeps P (in_think_buffer setup split buffer)
  in_think_buffer-Keeps none buffer = accept_open-Keeps _
  in_think_buffer-Keeps (some (reasoning, answer)) buffer = accept_closed-Keeps reasoning answer

  pub accept_in_think_content-Keeps : (text : String) → Keeps P (accept_in_think_content setup text)
  unfolding accept_in_think_content
  accept_in_think_content-Keeps text = search (item_rules, in_think_buffer-Keeps)

  pub accept_opened-Keeps : (text : String) → Keeps P (accept_opened setup text)
  unfolding accept_opened
  accept_opened-Keeps text = search (item_rules, accept_in_think_content-Keeps)

  pub accept_plain-Keeps : (buffer : String) → Keeps P (accept_plain setup buffer)
  unfolding accept_plain
  accept_plain-Keeps buffer = search item_rules

  pub detect-Keeps :
      (block : Option (String × String)) (opened : Option String) (prefix : Bool) (buffer : String)
      → Keeps P (detect setup block opened prefix buffer)
  detect-Keeps (some (reasoning, answer)) opened prefix buffer =
      accept_closed-Keeps reasoning answer
  detect-Keeps none (some text) prefix buffer = accept_opened-Keeps text
  detect-Keeps none none true buffer = Keeps-done
  detect-Keeps none none false buffer = accept_plain-Keeps buffer

  pub accept_detecting-Keeps : (text : String) → Keeps P (accept_detecting setup text)
  unfolding accept_detecting
  accept_detecting-Keeps text = search (item_rules, detect-Keeps)

  pub accept_content_in-Keeps :
      (state : ThinkBlockState) (text : String) → Keeps P (accept_content_in setup state text)
  accept_content_in-Keeps ThinkBlockState.done text = push_text_delta-Keeps text
  accept_content_in-Keeps detecting text = accept_detecting-Keeps text
  accept_content_in-Keeps in_think text = accept_in_think_content-Keeps text

  pub accept_content_delta-Keeps : (text : String) → Keeps P (accept_content_delta setup text)
  unfolding accept_content_delta
  accept_content_delta-Keeps text = search (item_rules, accept_content_in-Keeps)

  pub flush_in-Keeps :
      (state : ThinkBlockState) (buffer : String) → Keeps P (flush_in setup state buffer)
  flush_in-Keeps ThinkBlockState.done buffer = Keeps-done
  flush_in-Keeps detecting buffer = search item_rules
  flush_in-Keeps in_think buffer = search item_rules

  pub flush_pending_think_buffer-Keeps : Keeps P (flush_pending_think_buffer setup)
  unfolding flush_pending_think_buffer
  flush_pending_think_buffer-Keeps = search (item_rules, flush_in-Keeps)

  pub disable_leading_think_detection-Keeps : Keeps P (disable_leading_think_detection setup)
  unfolding disable_leading_think_detection
  disable_leading_think_detection-Keeps = search (item_rules, flush_pending_think_buffer-Keeps)
