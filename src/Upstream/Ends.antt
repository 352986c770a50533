-- ===== src/Upstream/Ends.antt =====
-- What the parser of an event stream leaves in its buffers.
use text.Mathlib.TextLemmas.{append-nil as str_append-nil}
use codex_mimo_adapter.Base.{
  ℕ, zero, suc, String, str_append, ◌≡◌, refl, ap, arith, none, List, [], ◌∷◌, ◌++◌, inl, inr,
  Option-cases,
}
use codex_mimo_adapter.Base.Str.{char_count}
use codex_mimo_adapter.Base.Utf8.{from_utf8, Lead, lead, decode, decode_char, after_lead}
use codex_mimo_adapter.Upstream.{
  SseBuffer, next_sse_block_delimiter, drain_blocks, parse_chat_sse_bytes,
}
use codex_mimo_adapter.Upstream.Cut.{cut, next_sse_block_delimiter-cut}
use codex_mimo_adapter.Upstream.Chunks.{Blocks, rest, block, drain-Blocks, parse_chunks}

cut-none : (s : String) → cut s ≡ none → next_sse_block_delimiter s ≡ none
cut-none s h = elim (Option-cases (next_sse_block_delimiter s)) [
  | inl e ↦ e
  | inr (found, e) ↦ absurd (cc (h, (rw e at (next_sse_block_delimiter-cut s))))
]

Blocks-rest :
    {s : String} {found : List String × String}
    → Blocks s found
    → next_sse_block_delimiter found.1 ≡ none
Blocks-rest (rest e) = cut-none _ e
Blocks-rest (block e b) = Blocks-rest b

-- The loop over the blocks runs until no delimiter is left: after any chunk, from any state, the
-- buffer holds no complete block.
pub parse_chat_sse_bytes_drained :
    (bytes : List ℕ) (s : SseBuffer)
    → next_sse_block_delimiter (parse_chat_sse_bytes bytes s).1.buffer ≡ none
unfolding parse_chat_sse_bytes
parse_chat_sse_bytes_drained bytes s =
    let buffer = str_append s.buffer (from_utf8 (s.utf8_remainder ++ bytes)).0 in
    Blocks-rest (drain-Blocks (char_count buffer) buffer (omega arith))

decode_bad : (a : ℕ) (bytes : List ℕ) → lead a ≡ Lead.bad → from_utf8 (a ∷ bytes) ≡ ("", a ∷ bytes)
unfolding from_utf8 decode_char
decode_bad a bytes h = rw (h, after_lead, decode) refl

-- The buffers of a stream that has met a byte that begins no character.
pub record IsStalled (s : SseBuffer) : Type 0 where
  pub first : ℕ
  pub others : List ℕ
  pub remainder : s.utf8_remainder ≡ first ∷ others
  pub bad : lead first ≡ Lead.bad
  pub drained : next_sse_block_delimiter s.buffer ≡ none

drain_none :
    (fuel : ℕ) (buffer : String)
    → next_sse_block_delimiter buffer ≡ none
    → drain_blocks fuel buffer ≡ ([], buffer)
unfolding drain_blocks
drain_none zero buffer h = refl
drain_none (suc fuel) buffer h = rw (h, drain_blocks) refl

stalled :
    (bytes : List ℕ) (s : SseBuffer) (h : IsStalled s)
    → parse_chat_sse_bytes bytes s
      ≡ ([], record { buffer = s.buffer; utf8_remainder = h.first ∷ h.others ++ bytes })
unfolding parse_chat_sse_bytes
stalled bytes s h =
    rw
      (
        h.remainder,
        decode_bad h.first (h.others ++ bytes) h.bad,
        str_append-nil s.buffer,
        drain_none (char_count s.buffer) s.buffer h.drained,
      )
      refl

kept-IsStalled :
    (bytes : List ℕ) (s : SseBuffer) → IsStalled s → IsStalled (parse_chat_sse_bytes bytes s).1
kept-IsStalled bytes s h = rw (stalled bytes s h) (record {
  first = h.first;
  others = h.others ++ bytes;
  remainder = refl;
  bad = h.bad;
  drained = h.drained;
})

-- Once a byte that can begin no character stands first among the kept bytes, and the buffer holds
-- no complete block, no chunk gives a block any more, whatever it holds.
pub parse_chunks_stalled :
    (chunks : List (List ℕ)) (s : SseBuffer) → IsStalled s → (parse_chunks chunks s).0 ≡ []
parse_chunks_stalled [] s h = refl
parse_chunks_stalled (bytes ∷ chunks) s h =
    rw (ap (λ (x : List String × SseBuffer). x.0) (stalled bytes s h))
      (parse_chunks_stalled chunks (parse_chat_sse_bytes bytes s).1 (kept-IsStalled bytes s h))
