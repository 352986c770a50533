-- ===== src/Server/Ends.antt =====
-- How the task of a stream ends: whatever the upstream model sends, one event ends the stream, it
-- is the last one, and the end mark follows it.
use codex_mimo_adapter.Base.{
  ℕ, ◌+◌, String, ◌≡◌, refl, ap, ◌∙◌, if◌then◌else◌, Bool, true, false, List, [], ◌∷◌, ◌++◌, map,
  ◌==◌, ◌||◌, Option, none, some, map, append_assoc,
}
use mathlib.Core.List.{map-append}
use codex_mimo_adapter.Base.Str.{is_some, trim, concat}
use codex_mimo_adapter.Base.Int.{ℤ}
use codex_mimo_adapter.Base.Result.{Result, ok, err}
use codex_mimo_adapter.Json.{Value, Map, get, unwrap_or}
use codex_mimo_adapter.Stream.Exec.{Exec, with_state, either, continue, ◌>>=◌}
use codex_mimo_adapter.Stream.Keeps.{Keeps}
use codex_mimo_adapter.Stream.Defs.{Setup, Assembler, Sent, Event, failed, emit_event, new}
use codex_mimo_adapter.Stream.Finalize.{
  start, accept, mark_truncated_as_length, has_finish_reason, has_substantive_output, end_stream,
  finalize_open, finalize, fail, failed_response,
}
use codex_mimo_adapter.Stream.Walk.{
  IsLogInvariant, is_terminal, item_rules, flush_pending_think_buffer-Keeps,
}
use codex_mimo_adapter.Stream.Walk.Calls.{start-Keeps, accept-Keeps, finalize_calls-Keeps}
use codex_mimo_adapter.Stream.Walk.End.{
  Running, Running-IsLogInvariant, put_state-Keeps, terminal-is_terminal, truncated-log,
}
use codex_mimo_adapter.Stream.Numbering.{terminals, EndsOnce, EndsOnce-IsLogInvariant}
use codex_mimo_adapter.Upstream.{
  UpstreamError, SseBuffer, no_bytes, error_text, parse_chat_sse_bytes, sse_event_from_block,
  sse_data_from_block, extract_error_message,
}
use codex_mimo_adapter.Server.Errors.{upstream_stream_error_type, upstream_stream_error_message}
use codex_mimo_adapter.Server.Driver.{
  task_setup, Flow, continues, returns, fail_with, fail_upstream, unless_failed, finalize_or_fail,
  accepted, and_next, or_returned, Finished, error_message, error_block_message, handle_value,
  handle_parsed, handle_data, handle_block, handle_blocks, end_of_body, handle_chunks,
  handle_upstream, handle_started, stream_task, frames,
}
use codex_mimo_adapter.Server.Frames.{Frame, event, done}

-- A stream that has not ended.
abbrev pub Open : Assembler → Type 0
Open = Running EndsOnce

-- A stream that has ended: its last event ends it, and none before does.
pub record Closed (s : Assembler) : Type 0 where
  pub before : List Sent
  pub last : Sent
  pub log : s.sent ≡ before ++ last ∷ []
  pub ends : is_terminal last.event ≡ true
  pub quiet : terminals before ≡ 0

-- An action that closes the stream, or fails and leaves it open.
abbrev Outcome : {A : Type 0} → Result String A × Assembler → Type 0
Outcome (ok a, s) = Closed s
Outcome (err e, s) = Open s

record Closes {A : Type 0} (m : Exec Assembler A) : Type 0 where
  closes : (s : Assembler) → Open s → Outcome (m s)

Closes-continue :
    {A B : Type 0} (r : Result String A) (f : A → Exec Assembler B) (s : Assembler)
    → ((a : A) → Closes (f a))
    → Open s
    → Outcome (continue r f s)
Closes-continue (ok a) f s k h = (k a).closes s h
Closes-continue (err e) f s k h = h

Closes-bind :
    {A B : Type 0} (m : Exec Assembler A) (f : A → Exec Assembler B)
    → Keeps Open m
    → ((a : A) → Closes (f a))
    → Closes (m >>= f)
unfolding ◌>>=◌
Closes-bind m f km kf = record {
  closes = λ s h. let (r, s') = m s in Closes-continue r f s' kf (km.at s h);
}

Closes-with_state :
    {A : Type 0} (f : Assembler → Exec Assembler A)
    → ((s : Assembler) → Closes (f s))
    → Closes (with_state f)
unfolding with_state
Closes-with_state f k = record { closes = λ s h. (k s).closes s h }

module _ (given : Setup) where
  abbrev setup : Setup
  setup = task_setup given

  end_stream-Closed :
      (e : Event) (r : Map) (s : Assembler)
      → is_terminal e ≡ true
      → Open s
      → Closed (end_stream setup e r s).1
  unfolding end_stream ◌>>=◌ emit_event
  end_stream-Closed e r s last h = record {
    before = s.sent;
    last = record { sequence_number = s.sequence + 1; event = e };
    log = refl;
    ends = last;
    quiet = rw h.1 at h.0;
  }

  end_stream-Closes : (e : Event) (r : Map) → is_terminal e ≡ true → Closes (end_stream setup e r)
  unfolding end_stream ◌>>=◌ emit_event
  end_stream-Closes e r last = record { closes = λ s h. end_stream-Closed e r s last h }

  once : IsLogInvariant setup EndsOnce
  once = EndsOnce-IsLogInvariant setup

  Open-IsLogInvariant : IsLogInvariant setup Open
  Open-IsLogInvariant = Running-IsLogInvariant once

  finalize_open-Closes : Closes (finalize_open setup)
  unfolding finalize_open
  finalize_open-Closes =
      search
        (
          Closes-bind,
          Closes-with_state,
          end_stream-Closes,
          terminal-is_terminal setup,
          put_state-Keeps once,
          Open-IsLogInvariant,
          item_rules,
          flush_pending_think_buffer-Keeps,
          finalize_calls-Keeps,
        )
        depth 9

  closing :
      (b : Bool) (m n : Exec Assembler Value) (s : Assembler)
      → b ≡ false
      → Closes n
      → Open s
      → Outcome (either b m n s)
  closing true m n s e k h = cc
  closing false m n s e k h = k.closes s h

  finalize-Closes : (s : Assembler) → Open s → Outcome (finalize setup s)
  unfolding finalize with_state
  finalize-Closes s h = closing s.terminal_emitted _ _ s h.1 finalize_open-Closes h

  Closed-either :
      (b : Bool) (m n : Exec Assembler Value) (s : Assembler)
      → b ≡ false
      → Closed (n s).1
      → Closed (either b m n s).1
  Closed-either true m n s e h = cc
  Closed-either false m n s e h = h

  fail-Closed :
      (kind message : String) (s : Assembler) → Open s → Closed (fail setup kind message s).1
  unfolding fail with_state is_terminal
  fail-Closed kind message s h =
      let response = failed_response setup kind message s.usage in
      Closed-either s.terminal_emitted _ _ s h.1
        (end_stream-Closed (failed response) response s refl h)

  fail_with-Closed :
      (kind message : String) (s : Assembler) → Open s → Closed (fail_with setup kind message s)
  unfolding fail_with
  fail_with-Closed kind message s h = fail-Closed kind message s h

  fail_upstream-Closed :
      (message : String) (s : Assembler) → Open s → Closed (fail_upstream setup message s)
  unfolding fail_upstream
  fail_upstream-Closed message s h =
      fail_with-Closed (upstream_stream_error_type message) (upstream_stream_error_message message)
        s h

  unless_failed-Closed :
      (result : Result String Value × Assembler)
      → Outcome result
      → Closed (unless_failed setup result)
  unless_failed-Closed (ok response, s) h = h
  unless_failed-Closed (err error, s) h = fail_with-Closed "internal_error" error s h

  finalize_or_fail-Closed : (s : Assembler) → Open s → Closed (finalize_or_fail setup s)
  unfolding finalize_or_fail
  finalize_or_fail-Closed s h = unless_failed-Closed (finalize setup s) (finalize-Closes s h)

  -- While the loop goes on the stream is open, and where the task returns it is closed.
  FlowHolds : Flow → Type 0
  FlowHolds (continues s) = Open s
  FlowHolds (returns s) = Closed s

  if-FlowHolds :
      (b : Bool) (m n : Flow) → FlowHolds m → FlowHolds n → FlowHolds (if b then m else n)
  if-FlowHolds true m n h k = h
  if-FlowHolds false m n h k = k

  accepted-FlowHolds :
      (result : Result String (Unit {0}) × Assembler)
      → Open result.1
      → FlowHolds (accepted setup result)
  unfolding FlowHolds
  accepted-FlowHolds (ok taken, s) h = h
  accepted-FlowHolds (err error, s) h = fail_with-Closed "internal_error" error s h

  handle_value-FlowHolds :
      (value : Value) (s : Assembler) → Open s → FlowHolds (handle_value setup value s)
  unfolding handle_value FlowHolds
  handle_value-FlowHolds value s h =
      if-FlowHolds (is_some (get "error" value) || is_some (get "base_resp" value)) _ _
        (fail_upstream-Closed (error_message (extract_error_message value)) s h)
        (accepted-FlowHolds (accept setup value s)
          ((accept-Keeps Open-IsLogInvariant value).at s h))

  handle_parsed-FlowHolds :
      (parsed : Result String Value) (s : Assembler)
      → Open s
      → FlowHolds (handle_parsed setup parsed s)
  unfolding FlowHolds
  handle_parsed-FlowHolds (ok value) s h = handle_value-FlowHolds value s h
  handle_parsed-FlowHolds (err error) s h =
      fail_with-Closed "upstream_error"
        (concat ("failed to parse upstream SSE data as JSON: " ∷ error ∷ [])) s h

  handle_data-FlowHolds :
      (text : Option String) (s : Assembler) → Open s → FlowHolds (handle_data setup text s)
  unfolding FlowHolds
  handle_data-FlowHolds none s h = h
  handle_data-FlowHolds (some text) s h =
      if-FlowHolds (trim text == "[DONE]") _ _ (finalize_or_fail-Closed s h)
        (handle_parsed-FlowHolds (given.host.serde.from_str text) s h)

  handle_block-FlowHolds :
      (block : String) (s : Assembler) → Open s → FlowHolds (handle_block setup block s)
  unfolding handle_block FlowHolds
  handle_block-FlowHolds block s h =
      let text = sse_data_from_block block in
      if-FlowHolds (unwrap_or "" (sse_event_from_block block) == "error") _ _
        (fail_upstream-Closed (error_block_message setup text) s h) (handle_data-FlowHolds text s h)

  and_next-FlowHolds :
      (flow : Flow) (next : Assembler → Flow)
      → FlowHolds flow
      → ((s : Assembler) → Open s → FlowHolds (next s))
      → FlowHolds (and_next flow next)
  unfolding FlowHolds
  and_next-FlowHolds (continues s) next h k = k s h
  and_next-FlowHolds (returns s) next h k = h

  or_returned-Closed :
      (flow : Flow) (next : Assembler → Assembler)
      → FlowHolds flow
      → ((s : Assembler) → Open s → Closed (next s))
      → Closed (or_returned flow next)
  unfolding FlowHolds
  or_returned-Closed (continues s) next h k = k s h
  or_returned-Closed (returns s) next h k = h

  handle_blocks-FlowHolds :
      (blocks : List String) (s : Assembler) → Open s → FlowHolds (handle_blocks setup blocks s)
  unfolding handle_blocks FlowHolds
  handle_blocks-FlowHolds [] s h = h
  handle_blocks-FlowHolds (block ∷ blocks) s h =
      and_next-FlowHolds (handle_block setup block s) (handle_blocks setup blocks)
        (handle_block-FlowHolds block s h) (handle_blocks-FlowHolds blocks)

  truncated-Open : (s : Assembler) → Open s → Open (mark_truncated_as_length s)
  truncated-Open s h = Open-IsLogInvariant.frame s _ (truncated-log s) h

  if-Closed : (b : Bool) (s t : Assembler) → Closed s → Closed t → Closed (if b then s else t)
  if-Closed true s t h k = h
  if-Closed false s t h k = k

  end_of_body-Closed : (s : Assembler) → Open s → Closed (end_of_body setup s)
  unfolding end_of_body
  end_of_body-Closed s h = if-Closed (has_finish_reason s) _ _ (finalize_or_fail-Closed s h) (
      if-Closed (has_substantive_output s) _ _
        (finalize_or_fail-Closed (mark_truncated_as_length s) (truncated-Open s h))
        (fail_with-Closed "stream_truncated" "Upstream stream ended before sending finish_reason" s
          h))

  handle_chunks-Closed :
      (chunks : List (Result String (List ℕ))) (buffers : SseBuffer) (s : Assembler)
      → Open s
      → Closed (handle_chunks setup chunks buffers s)
  unfolding handle_chunks
  handle_chunks-Closed [] buffers s h = end_of_body-Closed s h
  handle_chunks-Closed (err message ∷ chunks) buffers s h = fail_upstream-Closed message s h
  handle_chunks-Closed (ok bytes ∷ chunks) buffers s h =
      let (blocks, buffers') = parse_chat_sse_bytes bytes buffers in
      or_returned-Closed (handle_blocks setup blocks s) (handle_chunks setup chunks buffers')
        (handle_blocks-FlowHolds blocks s h) (handle_chunks-Closed chunks buffers')

  handle_upstream-Closed :
      (upstream : Result UpstreamError (List (Result String (List ℕ)))) (s : Assembler)
      → Open s
      → Closed (handle_upstream setup upstream s)
  handle_upstream-Closed (ok chunks) s h = handle_chunks-Closed chunks no_bytes s h
  handle_upstream-Closed (err error) s h = fail_upstream-Closed (error_text error) s h

-- What the client gets of a stream that ended, in order.
pub record IsAnswered (sent : List Frame) : Type 0 where
  pub before : List Sent
  pub last : Sent
  pub all : sent ≡ map event before ++ (event last ∷ done ∷ [])
  pub ends : is_terminal last.event ≡ true
  pub quiet : terminals before ≡ 0

-- How a task ends: the end mark is all that it sends itself.
record IsEnded (f : Finished) : Type 0 where
  closed : Closed f.assembler
  last_frame : f.sent_last ≡ done ∷ []

ended-IsAnswered : (f : Finished) → IsEnded f → IsAnswered (frames f)
ended-IsAnswered f h = record {
  before = h.closed.before;
  last = h.closed.last;
  all =
      rw (h.closed.log, h.last_frame)
        (ap (λ xs. xs ++ done ∷ []) (map-append event h.closed.before (h.closed.last ∷ []))
          ∙ append_assoc (map event h.closed.before) (event h.closed.last ∷ []) (done ∷ []));
  ends = h.closed.ends;
  quiet = h.closed.quiet;
}

module _ (given : Setup) (late : String × ℤ)
    (upstream : Result UpstreamError (List (Result String (List ℕ)))) where
  handle_started-IsEnded :
      (has_permit : Bool) (result : Result String (Unit {0}) × Assembler)
      → result.0 ≡ ok tt
      → Open result.1
      → IsEnded (handle_started (task_setup given) has_permit late upstream result)
  handle_started-IsEnded has_permit (err error, s) taken h = cc
  handle_started-IsEnded false (ok started, s) taken h = record {
    closed = fail_with-Closed given "rate_limit_error" "adapter concurrency limit reached" s h;
    last_frame = refl;
  }
  handle_started-IsEnded true (ok started, s) taken h = record {
    closed = handle_upstream-Closed given upstream s h;
    last_frame = refl;
  }

  start-ok : (start (task_setup given) new).0 ≡ ok tt
  unfolding start ◌>>=◌ emit_event
  start-ok = refl

  stream_task-IsEnded : (has_permit : Bool) → IsEnded (stream_task given has_permit late upstream)
  unfolding stream_task terminals
  stream_task-IsEnded has_permit =
      handle_started-IsEnded has_permit (start (task_setup given) new) start-ok
        ((start-Keeps (Open-IsLogInvariant given)).at new (refl, refl))

  -- Whatever the upstream model answers, an error, any chunks or none, whether or not there is a
  -- permit, and whether or not the response can be stored: the client of a stream gets events, of
  -- which the last one ends the stream and no other does, and then the end mark.
  pub stream_task-IsAnswered :
      (has_permit : Bool) → IsAnswered (frames (stream_task given has_permit late upstream))
  stream_task-IsAnswered has_permit = ended-IsAnswered _ (stream_task-IsEnded has_permit)

module _ (given : Setup) where
  -- a stream that is started and failed at once
  pub fail_started-IsAnswered :
      (kind message : String)
      → IsAnswered (
          frames (record {
            assembler = fail_with (task_setup given) kind message (start (task_setup given) new).1;
            sent_last = done ∷ [];
          }))
  unfolding terminals
  fail_started-IsAnswered kind message = ended-IsAnswered _ (record {
    closed =
        fail_with-Closed given kind message (start (task_setup given) new).1
          ((start-Keeps (Open-IsLogInvariant given)).at new (refl, refl));
    last_frame = refl;
  })
