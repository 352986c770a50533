-- ===== src/Upstream.antt =====
-- src/upstream.rs: the bytes of an event stream cut into blocks, the fields of a block, and the
-- message of an error. The requests themselves, made by reqwest (a third-party crate), are left out.
pub mod Cut
pub mod Chunks
pub mod Ends
use codex_mimo_adapter.Base.{
  ℕ, zero, suc, ◌+◌, Bool, String, str_append, Option, none, some, List, [], ◌∷◌, ◌++◌, ltb, is_nil,
  if◌then◌else◌,
}
use mathlib.Core.Option
use codex_mimo_adapter.Base.Str.{
  strip_prefix, char_count, take_chars, drop_chars, find, lines, trim, trim_start, non_empty, join,
  concat,
}
use codex_mimo_adapter.Base.Decimal.{decimal}
use codex_mimo_adapter.Base.Result.{to_option}
use codex_mimo_adapter.Base.Utf8.{from_utf8}
use codex_mimo_adapter.Json.{
  Value, bool, index_set, get, as_str, and_then, or_else, unwrap_or, Serde,
}

-- `UpstreamError`, and its text by the derived `Display`
pub data UpstreamError : Type 0 where
  http : ℕ → String → UpstreamError
  network invalid : String → UpstreamError

unfoldable pub error_text : UpstreamError → String
unfolding decimal
error_text (http status message) = concat ("MiMo API HTTP " ∷ decimal status ∷ ": " ∷ message ∷ [])
error_text (network message) = concat ("MiMo API network error: " ∷ message ∷ [])
error_text (invalid message) = concat ("MiMo API returned invalid response: " ∷ message ∷ [])

-- `payload["stream"] = json!(...)` of the client's `chat` and `chat_stream`
unfoldable pub with_stream : Bool → Value → Value
unfolding index_set
with_stream streams payload = unwrap_or payload (index_set "stream" (bool streams) payload)

-- `extract_error_message`
unfoldable pub extract_error_message : Value → Option String
unfolding get
extract_error_message value =
    let source = unwrap_or value (get "error" value) in
    let found = or_else (get "message" source) (
      or_else (get "detail" source) (
        or_else (get "status_msg" source)
          (and_then (get "base_resp" source) (get "status_msg")))) in
    and_then (and_then found as_str) non_empty

-- `error_from_response`, from the status and the text of the body
unfoldable pub error_from_response : Serde → ℕ → String → UpstreamError
unfolding extract_error_message take_chars
error_from_response serde status body =
    let message =
      unwrap_or body (and_then (to_option (serde.from_str body)) extract_error_message) in
    http status (take_chars 2000 message)

-- What is kept between two chunks.
pub record SseBuffer : Type 0 where
  pub buffer : String
  pub utf8_remainder : List ℕ

abbrev pub no_bytes : SseBuffer
no_bytes = record { buffer = ""; utf8_remainder = [] }

-- the better of the best delimiter so far and one more
abbrev pub nearer : Option (ℕ × ℕ) → Option ℕ → ℕ → Option (ℕ × ℕ)
nearer best none len = best
nearer none (some pos) len = some (pos, len)
nearer (some (best_pos, best_len)) (some pos) len =
    if ltb pos best_pos then some (pos, len) else some (best_pos, best_len)

abbrev pub crlf_delimiter : String
crlf_delimiter = "\r\n\r\n"

abbrev pub lf_delimiter : String
lf_delimiter = "\n\n"

-- `next_sse_block_delimiter`, with the position counted in characters
unfoldable pub next_sse_block_delimiter : String → Option (ℕ × ℕ)
unfolding find
next_sse_block_delimiter buffer =
    nearer (nearer none (find crlf_delimiter buffer) 4) (find lf_delimiter buffer) 2

abbrev pub cons_block : String → List String × String → List String × String
cons_block block (blocks, rest) = (block ∷ blocks, rest)

-- the loop that takes the blocks off the buffer
unfoldable pub drain_blocks : ℕ → String → List String × String
unfolding next_sse_block_delimiter take_chars drop_chars
drain_blocks zero buffer = ([], buffer)
drain_blocks (suc fuel) buffer = elim (next_sse_block_delimiter buffer) [
  | none ↦ ([], buffer)
  | some (pos, delimiter_len) ↦
      cons_block (take_chars pos buffer)
        (drain_blocks fuel (drop_chars (pos + delimiter_len) buffer))
]

-- `parse_chat_sse_bytes`. Whether the bytes are valid to their end or not, the valid text is moved
-- to the buffer and the bytes behind it, if any, are kept. A block takes two characters at least
-- off the buffer, so the characters are fuel enough.
unfoldable pub parse_chat_sse_bytes : List ℕ → SseBuffer → List String × SseBuffer
unfolding from_utf8 drain_blocks
parse_chat_sse_bytes bytes s =
    let (text, rest) = from_utf8 (s.utf8_remainder ++ bytes) in
    let buffer = str_append s.buffer text in
    let (blocks, buffer') = drain_blocks (char_count buffer) buffer in
    (blocks, record { buffer = buffer'; utf8_remainder = rest })

-- `sse_event_from_block`
abbrev pub event_from_lines : List String → Option String
event_from_lines [] = none
event_from_lines (line ∷ lines) =
    or_else (and_then (Option.map trim (strip_prefix "event:" line)) non_empty)
      (event_from_lines lines)

unfoldable pub sse_event_from_block : String → Option String
unfolding lines trim strip_prefix
sse_event_from_block block = event_from_lines (lines block)

-- `sse_data_from_block`
abbrev pub data_from_lines : List String → List String
data_from_lines [] = []
data_from_lines (line ∷ lines) =
    let rest = data_from_lines lines in
    elim (strip_prefix "data:" line) [ none ↦ rest | some data_text ↦ trim_start data_text ∷ rest ]

unfoldable pub sse_data_from_block : String → Option String
unfolding lines trim_start strip_prefix join
sse_data_from_block block =
    let found = data_from_lines (lines block) in
    if is_nil found then none else some (join "\n" found)
