-- ===== src/Server/Driver.antt =====
-- src/server.rs, the task of `stream_response` that drives the assembler by what the upstream
-- model sends. What it sends is an argument: whether the request is answered, and the chunks of
-- the answer's body, each its bytes or the text of a network error.
use codex_mimo_adapter.Base.{
  ℕ, String, Bool, true, false, ◌||◌, Option, none, some, List, [], ◌∷◌, ◌++◌, map, ◌==◌,
  if◌then◌else◌,
}
use codex_mimo_adapter.Base.Str.{trim, is_empty, is_some, concat}
use codex_mimo_adapter.Base.Result.{Result, ok, err, to_option}
use codex_mimo_adapter.Json.{Value, get, and_then, or_else, unwrap_or}
use codex_mimo_adapter.Base.Int.{ℤ}
use codex_mimo_adapter.Stream.Defs.{Setup, Assembler, new}
use codex_mimo_adapter.Stream.Finalize.{
  start, accept, finalize, fail, mark_truncated_as_length, has_finish_reason,
  has_substantive_output,
}
use codex_mimo_adapter.Upstream.{
  SseBuffer, no_bytes, UpstreamError, error_text, extract_error_message, parse_chat_sse_bytes,
  sse_event_from_block, sse_data_from_block,
}
use codex_mimo_adapter.Server.Frames.{Frame, event, failed, done}
use codex_mimo_adapter.Server.Failed.{responses_failed_value}
use codex_mimo_adapter.Server.Errors.{upstream_stream_error_type, upstream_stream_error_message}

-- How the handling of a block ends: the loop goes on, or the end mark is sent and the task returns.
pub data Flow : Type 0 where
  continues returns : Assembler → Flow

-- The assembler at the end of the task, and what the task itself sent behind the events.
pub record Finished : Type 0 where
  pub assembler : Assembler
  pub sent_last : List Frame

-- the code behind a block, which is not reached where the task has returned
abbrev pub and_next : Flow → (Assembler → Flow) → Flow
and_next (continues s) next = next s
and_next (returns s) next = returns s

abbrev pub or_returned : Flow → (Assembler → Assembler) → Assembler
or_returned (continues s) next = next s
or_returned (returns s) next = s

abbrev pub frames : Finished → List Frame
frames f = map event f.assembler.sent ++ f.sent_last

-- the callback that the task hands to the assembler: it sends the event and returns `Ok(())`
abbrev pub task_setup : Setup → Setup
task_setup setup = record setup { emit = λ log sent. ok tt }

abbrev pub error_message : Option String → String
error_message found = unwrap_or "upstream stream error" found

-- a text that is more than whitespace
abbrev pub not_blank : String → Option String
unfolding trim
not_blank text = if is_empty (trim text) then none else some text

module _ (setup : Setup) where
  -- `if let Err(error) = assembler.fail(...)`: the error is only logged
  unfoldable pub fail_with : String → String → Assembler → Assembler
  unfolding fail
  fail_with kind message s = (fail setup kind message s).1

  unfoldable pub fail_upstream : String → Assembler → Assembler
  unfolding fail_with upstream_stream_error_type upstream_stream_error_message
  fail_upstream message =
      fail_with (upstream_stream_error_type message) (upstream_stream_error_message message)

  abbrev pub unless_failed : Result String Value × Assembler → Assembler
  unless_failed (ok response, s) = s
  unless_failed (err error, s) = fail_with "internal_error" error s

  unfoldable pub finalize_or_fail : Assembler → Assembler
  unfolding finalize fail_with
  finalize_or_fail s = unless_failed (finalize setup s)

  -- the message of a block with the event `error`
  unfoldable pub error_block_message : Option String → String
  unfolding extract_error_message trim
  error_block_message text =
      let parsed = and_then text (λ t. to_option (setup.host.serde.from_str t)) in
      error_message (or_else (and_then parsed extract_error_message) (and_then text not_blank))

  abbrev pub accepted : Result String (Unit {0}) × Assembler → Flow
  accepted (ok taken, s) = continues s
  accepted (err error, s) = returns (fail_with "internal_error" error s)

  unfoldable pub handle_value : Value → Assembler → Flow
  unfolding get extract_error_message accept fail_upstream fail_with
  handle_value value s =
      if is_some (get "error" value) || is_some (get "base_resp" value)
      then returns (fail_upstream (error_message (extract_error_message value)) s)
      else accepted (accept setup value s)

  abbrev pub handle_parsed : Result String Value → Assembler → Flow
  handle_parsed (ok value) s = handle_value value s
  handle_parsed (err error) s = returns (
      fail_with "upstream_error"
        (concat ("failed to parse upstream SSE data as JSON: " ∷ error ∷ [])) s)

  abbrev pub handle_data : Option String → Assembler → Flow
  handle_data none s = continues s
  handle_data (some text) s =
      if trim text == "[DONE]"
      then returns (finalize_or_fail s)
      else handle_parsed (setup.host.serde.from_str text) s

  -- one round of the loop over the blocks
  unfoldable pub handle_block : String → Assembler → Flow
  unfolding sse_event_from_block sse_data_from_block error_block_message fail_upstream handle_value
      fail_with finalize_or_fail trim
  handle_block block s =
      let text = sse_data_from_block block in
      if unwrap_or "" (sse_event_from_block block) == "error"
      then returns (fail_upstream (error_block_message text) s)
      else handle_data text s

  unfoldable pub handle_blocks : List String → Assembler → Flow
  unfolding handle_block
  handle_blocks [] s = continues s
  handle_blocks (block ∷ blocks) s = and_next (handle_block block s) (handle_blocks blocks)

  -- the end of the body
  unfoldable pub end_of_body : Assembler → Assembler
  unfolding has_substantive_output mark_truncated_as_length finalize_or_fail fail_with
  end_of_body s =
      if has_finish_reason s
      then finalize_or_fail s
      else if has_substantive_output s
      then finalize_or_fail (mark_truncated_as_length s)
      else fail_with "stream_truncated" "Upstream stream ended before sending finish_reason" s

  -- the loop over the chunks
  unfoldable pub handle_chunks : List (Result String (List ℕ)) → SseBuffer → Assembler → Assembler
  unfolding parse_chat_sse_bytes handle_blocks end_of_body fail_upstream
  handle_chunks [] buffers s = end_of_body s
  handle_chunks (err message ∷ chunks) buffers s = fail_upstream message s
  handle_chunks (ok bytes ∷ chunks) buffers s =
      let (blocks, buffers') = parse_chat_sse_bytes bytes buffers in
      or_returned (handle_blocks blocks s) (handle_chunks chunks buffers')

  abbrev pub handle_upstream :
      Result UpstreamError (List (Result String (List ℕ))) → Assembler → Assembler
  handle_upstream (ok chunks) s = handle_chunks chunks no_bytes s
  handle_upstream (err error) s = fail_upstream (error_text error) s

  -- behind `assembler.start()`; `late` is the identifier and the time of a failure of its own
  abbrev pub handle_started :
      Bool
      → String × ℤ
      → Result UpstreamError (List (Result String (List ℕ)))
      → Result String (Unit {0}) × Assembler
      → Finished
  handle_started has_permit late upstream (err error, s) = record {
    assembler = s;
    sent_last =
        failed (responses_failed_value setup.body setup.model_alias "internal_error" error late)
        ∷ done
        ∷ [];
  }
  handle_started false late upstream (ok started, s) = record {
    assembler = fail_with "rate_limit_error" "adapter concurrency limit reached" s;
    sent_last = done ∷ [];
  }
  handle_started true late upstream (ok started, s) = record {
    assembler = handle_upstream upstream s;
    sent_last = done ∷ [];
  }

-- The task. `has_permit` is the answer of `try_acquire_owned`.
unfoldable pub stream_task :
    Setup → Bool → String × ℤ → Result UpstreamError (List (Result String (List ℕ))) → Finished
unfolding responses_failed_value start handle_chunks fail_upstream fail_with error_text
stream_task setup has_permit late upstream =
    let given = task_setup setup in handle_started given has_permit late upstream (start given new)
