-- ===== src/Stream/Emit.antt =====
-- The reasoning item and the text item: their starts, deltas and ends.
use codex_mimo_adapter.Base.{
  ℕ, String, str_append, Bool, true, false, not, ◌&&◌, ◌||◌, Option, none, some,
}
use codex_mimo_adapter.Base.Str.{is_empty, is_some}
use codex_mimo_adapter.Response.Items.{reasoning_item, message_item}
use codex_mimo_adapter.Stream.Exec.{Exec, done, modify, when, with_state, ◌>>=◌, ◌>>◌}
use codex_mimo_adapter.Stream.Defs.{
  Setup, Assembler, buffers_text, emit_event, allocate_output_index, item_added, item_done,
  summary_part_added, reasoning_delta, reasoning_text_done, reasoning_part_done, text_part_added,
  text_delta, text_done, text_part_done, reasoning_skeleton, message_skeleton,
}

module _ (setup : Setup) where
  -- the first part of `push_reasoning_delta`
  unfoldable pub start_reasoning : Exec Assembler (Unit {0})
  unfolding ◌>>=◌ emit_event allocate_output_index
  start_reasoning = do
    index ← allocate_output_index setup
    modify (λ s. record s { reasoning_output_index = some index })
    emit_event setup (item_added index (reasoning_skeleton setup))
    emit_event setup (summary_part_added index)

  unfoldable pub push_reasoning_delta : String → Exec Assembler (Unit {0})
  unfolding ◌>>=◌ start_reasoning emit_event
  push_reasoning_delta delta = do
    with_state (λ s. when (not (is_some s.reasoning_output_index)) start_reasoning)
    modify (λ s. record s { reasoning = str_append s.reasoning delta })
    with_state (λ s. emit_event setup (reasoning_delta s.reasoning_output_index delta))

  -- the rest of `finish_reasoning_item`, for an item that is started and not done
  unfoldable pub end_reasoning : ℕ → Exec Assembler (Unit {0})
  unfolding ◌>>=◌ emit_event reasoning_item
  end_reasoning index = do
    with_state (λ s. emit_event setup (reasoning_text_done index s.reasoning))
    with_state (λ s. emit_event setup (reasoning_part_done index s.reasoning))
    with_state (λ s.
        emit_event setup (item_done index (reasoning_item s.reasoning setup.reasoning_item_id)))
    modify (λ s. record s { reasoning_done = true })

  abbrev pub end_reasoning_at : Option ℕ → Bool → Exec Assembler (Unit {0})
  end_reasoning_at none is_done = done
  end_reasoning_at (some index) true = done
  end_reasoning_at (some index) false = end_reasoning index

  unfoldable pub finish_reasoning_item : Exec Assembler (Unit {0})
  unfolding ◌>>=◌ end_reasoning
  finish_reasoning_item =
      with_state (λ s. end_reasoning_at s.reasoning_output_index s.reasoning_done)

  -- `if !self.reasoning.is_empty() && !self.reasoning_done { self.finish_reasoning_item()?; }`
  unfoldable pub close_reasoning : Exec Assembler (Unit {0})
  unfolding ◌>>=◌ finish_reasoning_item
  close_reasoning =
      with_state
        (λ s. when (not (is_empty s.reasoning) && not s.reasoning_done) finish_reasoning_item)

  -- the rest of `ensure_text_started`, for an item that is not started
  unfoldable pub start_text : Exec Assembler (Unit {0})
  unfolding ◌>>=◌ close_reasoning emit_event allocate_output_index
  start_text = do
    close_reasoning
    index ← allocate_output_index setup
    modify (λ s. record s { text_output_index = some index })
    emit_event setup (item_added index (message_skeleton setup))
    emit_event setup (text_part_added index)

  unfoldable pub ensure_text_started : Exec Assembler (Unit {0})
  unfolding ◌>>=◌ start_text
  ensure_text_started = with_state (λ s. when (not (is_some s.text_output_index)) start_text)

  unfoldable pub push_text_delta : String → Exec Assembler (Unit {0})
  unfolding ◌>>=◌ ensure_text_started emit_event
  push_text_delta text = do
    when (not (buffers_text setup)) ensure_text_started
    modify (λ s. record s { content = str_append s.content text })
    when (not (buffers_text setup))
        (with_state (λ s. emit_event setup (text_delta s.text_output_index text)))

  -- the rest of `finish_text_item`, behind `ensure_text_started`
  unfoldable pub end_text : ℕ → Exec Assembler (Unit {0})
  unfolding ◌>>=◌ emit_event message_item
  end_text index = do
    when (buffers_text setup)
        (with_state (λ s. emit_event setup (text_delta (some index) s.content)))
    with_state (λ s. emit_event setup (text_done index s.content))
    with_state (λ s. emit_event setup (text_part_done index s.content))
    with_state
        (λ s. emit_event setup (item_done index (message_item s.content setup.message_item_id)))
    modify (λ s. record s { text_done = true })

  -- `self.text_output_index.unwrap()`: the index is there behind `ensure_text_started`
  abbrev pub end_text_at : Option ℕ → Exec Assembler (Unit {0})
  end_text_at none = done
  end_text_at (some index) = end_text index

  unfoldable pub finish_text_item : Exec Assembler (Unit {0})
  unfolding ◌>>=◌ ensure_text_started end_text
  finish_text_item = with_state (λ s.
      when (not (is_empty s.content || s.text_done))
        (do ensure_text_started; with_state (λ t. end_text_at t.text_output_index)))
