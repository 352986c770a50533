-- ===== src/Tests/Upstreams.antt =====
-- The parser of the event stream on concrete bytes.
use codex_mimo_adapter.Base.{ℕ, ◌≡◌, refl, some, none, List, [], ◌∷◌}
use codex_mimo_adapter.Json.{string, obj, fields}
use codex_mimo_adapter.Upstream.{
  SseBuffer, no_bytes, parse_chat_sse_bytes, next_sse_block_delimiter, sse_event_from_block,
  sse_data_from_block, extract_error_message,
}
use codex_mimo_adapter.Upstream.Chunks.{parse_chunks, parse_chunks_lem, flatten}
use codex_mimo_adapter.Upstream.Ends.{parse_chat_sse_bytes_drained, parse_chunks_stalled}

-- `data: 你`, with its delimiter, cut inside the character and inside the delimiter
abbrev chunks : List (List ℕ)
chunks =
    (0x64 ∷ 0x61 ∷ 0x74 ∷ 0x61 ∷ 0x3a ∷ 0x20 ∷ 0xe4 ∷ 0xbd ∷ [])
    ∷ (0xa0 ∷ 0x0d ∷ 0x0a ∷ 0x0d ∷ [])
    ∷ (0x0a ∷ 0x78 ∷ [])
    ∷ []

parsed :
    parse_chunks chunks no_bytes ≡ ("data: 你" ∷ [], record { buffer = "x"; utf8_remainder = [] })
unfolding parse_chat_sse_bytes
parsed = refl

parse_chunks_lem_example :
    parse_chunks chunks no_bytes ≡ parse_chat_sse_bytes (flatten chunks) no_bytes
parse_chunks_lem_example = parse_chunks_lem chunks

parse_chat_sse_bytes_drained_example :
    next_sse_block_delimiter (parse_chat_sse_bytes (flatten chunks) no_bytes).1.buffer ≡ none
parse_chat_sse_bytes_drained_example = parse_chat_sse_bytes_drained (flatten chunks) no_bytes

abbrev stalled : SseBuffer
stalled = record { buffer = "data: 1"; utf8_remainder = 0xff ∷ [] }

no_delimiter : next_sse_block_delimiter "data: 1" ≡ none
unfolding next_sse_block_delimiter
no_delimiter = refl

parse_chunks_stalled_example : (parse_chunks chunks stalled).0 ≡ []
parse_chunks_stalled_example =
    parse_chunks_stalled chunks stalled
      (record { first = 0xff; others = []; remainder = refl; bad = refl; drained = no_delimiter })

field : sse_event_from_block "id: 1\nevent: error\r\ndata: x" ≡ some "error"
unfolding sse_event_from_block
field = refl

data_lines : sse_data_from_block "event: e\ndata: 1\r\ndata:2" ≡ some "1\n2"
unfolding sse_data_from_block
data_lines = refl

no_data : sse_data_from_block "event: e" ≡ none
unfolding sse_data_from_block
no_data = refl

message :
    extract_error_message (obj (("error", obj (("message", string "no") ∷ [])) ∷ [])) ≡ some "no"
unfolding extract_error_message fields
message = refl
