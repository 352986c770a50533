-- ===== src/Stream/Think.antt =====
-- Content deltas, with the detection of a leading think block.
use codex_mimo_adapter.Base.{String, str_append, Bool, true, false, not, Option, none, some}
use codex_mimo_adapter.Base.Str.{is_empty}
use codex_mimo_adapter.Text.{
  split_leading_think_block, strip_leading_think_open_tag, is_leading_think_prefix,
  split_at_think_close, split_incomplete_think_close_suffix,
}
use codex_mimo_adapter.Stream.Exec.{Exec, modify, when, with_state, ◌>>=◌, ◌>>◌}
use codex_mimo_adapter.Stream.Exec
use codex_mimo_adapter.Stream.Defs.{Setup, Assembler, ThinkBlockState, detecting, in_think}
use codex_mimo_adapter.Stream.Emit.{push_reasoning_delta, push_text_delta}

abbrev pub set_buffer : String → Assembler → Assembler
set_buffer text s = record s { think_buffer = text }

abbrev pub set_think : ThinkBlockState → Assembler → Assembler
set_think state s = record s { think_state = state }

module _ (setup : Setup) where
  -- a delta unless it is empty
  unfoldable pub reasoning_unless_empty : String → Exec Assembler (Unit {0})
  unfolding ◌>>=◌ push_reasoning_delta
  reasoning_unless_empty text = when (not (is_empty text)) (push_reasoning_delta setup text)

  unfoldable pub text_unless_empty : String → Exec Assembler (Unit {0})
  unfolding ◌>>=◌ push_text_delta
  text_unless_empty text = when (not (is_empty text)) (push_text_delta setup text)

  -- a block that is closed: its reasoning, and the answer behind it
  unfoldable pub accept_closed : String → String → Exec Assembler (Unit {0})
  unfolding ◌>>=◌ reasoning_unless_empty text_unless_empty
  accept_closed reasoning answer = do
    reasoning_unless_empty reasoning
    modify (set_buffer "")
    modify (set_think ThinkBlockState.done)
    text_unless_empty answer

  -- the buffer of a block that is not closed, but for a suffix that may begin the closing tag
  unfoldable pub accept_open : String × String → Exec Assembler (Unit {0})
  unfolding ◌>>=◌ reasoning_unless_empty
  accept_open (emit, keep) = do reasoning_unless_empty emit; modify (set_buffer keep)

  abbrev pub in_think_buffer : Option (String × String) → String → Exec Assembler (Unit {0})
  in_think_buffer none buffer = accept_open (split_incomplete_think_close_suffix buffer)
  in_think_buffer (some (reasoning, answer)) buffer = accept_closed reasoning answer

  unfoldable pub accept_in_think_content : String → Exec Assembler (Unit {0})
  unfolding ◌>>=◌ accept_closed accept_open split_at_think_close split_incomplete_think_close_suffix
  accept_in_think_content text = do
    modify (λ s. set_buffer (str_append s.think_buffer text) s)
    with_state (λ s. in_think_buffer (split_at_think_close s.think_buffer) s.think_buffer)

  unfoldable pub accept_opened : String → Exec Assembler (Unit {0})
  unfolding ◌>>=◌ accept_in_think_content
  accept_opened start = do
    modify (set_buffer "")
    modify (set_think in_think)
    when (not (is_empty start)) (accept_in_think_content start)

  unfoldable pub accept_plain : String → Exec Assembler (Unit {0})
  unfolding ◌>>=◌ push_text_delta
  accept_plain buffer = do
    modify (set_buffer "")
    modify (set_think ThinkBlockState.done)
    push_text_delta setup buffer

  -- the buffer while a block may still begin
  abbrev pub detect :
      Option (String × String) → Option String → Bool → String → Exec Assembler (Unit {0})
  detect (some (reasoning, answer)) opened prefix buffer = accept_closed reasoning answer
  detect none (some start) prefix buffer = accept_opened start
  detect none none true buffer = Exec.done
  detect none none false buffer = accept_plain buffer

  unfoldable pub accept_detecting : String → Exec Assembler (Unit {0})
  unfolding ◌>>=◌ accept_closed accept_opened accept_plain split_leading_think_block
      strip_leading_think_open_tag is_leading_think_prefix
  accept_detecting text = do
    modify (λ s. set_buffer (str_append s.think_buffer text) s)
    with_state (λ s.
        detect (split_leading_think_block s.think_buffer)
          (strip_leading_think_open_tag s.think_buffer) (is_leading_think_prefix s.think_buffer)
          s.think_buffer)

  abbrev pub accept_content_in : ThinkBlockState → String → Exec Assembler (Unit {0})
  accept_content_in ThinkBlockState.done text = push_text_delta setup text
  accept_content_in detecting text = accept_detecting text
  accept_content_in in_think text = accept_in_think_content text

  unfoldable pub accept_content_delta : String → Exec Assembler (Unit {0})
  unfolding ◌>>=◌ push_text_delta accept_detecting accept_in_think_content
  accept_content_delta text = with_state (λ s. accept_content_in s.think_state text)

  abbrev pub flush_in : ThinkBlockState → String → Exec Assembler (Unit {0})
  flush_in ThinkBlockState.done buffer = Exec.done
  flush_in detecting buffer = when (not (is_empty buffer)) (do
    modify (set_buffer "")
    modify (set_think ThinkBlockState.done)
    push_text_delta setup buffer)
  flush_in in_think buffer = do
    when (not (is_empty buffer)) (do modify (set_buffer ""); push_reasoning_delta setup buffer)
    modify (set_think ThinkBlockState.done)

  unfoldable pub flush_pending_think_buffer : Exec Assembler (Unit {0})
  unfolding ◌>>=◌ push_text_delta push_reasoning_delta
  flush_pending_think_buffer = with_state (λ s. flush_in s.think_state s.think_buffer)

  -- `disable_leading_think_detection`; in the state `Done` neither step does anything
  unfoldable pub disable_leading_think_detection : Exec Assembler (Unit {0})
  unfolding ◌>>=◌ flush_pending_think_buffer
  disable_leading_think_detection = do
    flush_pending_think_buffer
    modify (set_think ThinkBlockState.done)
