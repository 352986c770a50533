-- ===== src/Upstream/Chunks.antt =====
-- The blocks of an event stream, however its bytes are cut into chunks.
use text.Mathlib.TextLemmas.{append_assoc as str_append_assoc}
use codex_mimo_adapter.Base.{
  ℕ, zero, suc, ◌≤◌, String, str_append, ◌≡◌, refl, sym, ap, ◌∙◌, arith, none, some, List, [], ◌∷◌,
  ◌++◌, append_assoc, append-nil, inl, inr, Option-cases,
}
use mathlib.Core.Option.{some-injective}
use codex_mimo_adapter.Base.Str.{char_count}
use codex_mimo_adapter.Base.Utf8.{from_utf8}
use codex_mimo_adapter.Base.Utf8.Chunks.{from_utf8-append}
use codex_mimo_adapter.Upstream.{
  SseBuffer, next_sse_block_delimiter, cons_block, drain_blocks, parse_chat_sse_bytes, no_bytes,
}
use codex_mimo_adapter.Upstream.Cut.{
  cut, pick, cut-append, cut_shorter, next_sse_block_delimiter-cut,
}

-- A text is these blocks, each with its delimiter, and a rest without one.
pub data Blocks : String → List String × String → Type 0 where
  rest : {s : String} → cut s ≡ none → Blocks s ([], s)
  block :
      {s before after : String} {found : List String × String}
      → cut s ≡ some (before, after)
      → Blocks after found
      → Blocks s (cons_block before found)

drain_rest : (fuel : ℕ) (s : String) → cut s ≡ none → drain_blocks fuel s ≡ ([], s)
unfolding drain_blocks pick
drain_rest zero s h = refl
drain_rest (suc fuel) s h = elim (Option-cases (next_sse_block_delimiter s)) [
  | inl e ↦ rw (e, drain_blocks) refl
  | inr (found, e) ↦ absurd (cc (h, (rw e at (next_sse_block_delimiter-cut s))))
]

drain_block :
    (fuel : ℕ) (s : String) {before after : String}
    → cut s ≡ some (before, after)
    → drain_blocks (suc fuel) s ≡ cons_block before (drain_blocks fuel after)
unfolding drain_blocks pick
drain_block fuel s {before} {after} h = elim (Option-cases (next_sse_block_delimiter s)) [
  | inl e ↦ absurd (cc (h, (rw e at (next_sse_block_delimiter-cut s))))
  | inr ((pos, len), e) ↦
      let same = some-injective _ _ ((rw e at (next_sse_block_delimiter-cut s)) ∙ h) in
      rw (e, drain_blocks)
        (ap (λ (x : String × String). cons_block x.0 (drain_blocks fuel x.1)) same)
]

-- The fuel is enough for every block of the text.
Blocks-drain :
    {s : String} {found : List String × String} (fuel : ℕ)
    → Blocks s found
    → char_count s ≤ fuel
    → drain_blocks fuel s ≡ found
Blocks-drain fuel (rest e) h = drain_rest fuel _ e
Blocks-drain zero (block {s} e b) h = absurd (omega (arith, cut_shorter s e))
Blocks-drain (suc fuel) (block {s} {before} e b) h =
    drain_block fuel s e
    ∙ ap (cons_block before) (Blocks-drain fuel b (omega (arith, cut_shorter s e)))

pub drain-Blocks : (fuel : ℕ) (s : String) → char_count s ≤ fuel → Blocks s (drain_blocks fuel s)
drain-Blocks zero s h = elim (Option-cases (cut s)) [
  | inl e ↦ rw (drain_rest zero s e) (rest e)
  | inr ((before, after), e) ↦ absurd (omega (arith, cut_shorter s e))
]
drain-Blocks (suc fuel) s h = elim (Option-cases (cut s)) [
  | inl e ↦ rw (drain_rest (suc fuel) s e) (rest e)
  | inr ((before, after), e) ↦
      rw (drain_block fuel s e) (block e (drain-Blocks fuel after (omega (arith, cut_shorter s e))))
]

Blocks-append :
    {s : String} {found more : List String × String} (t : String)
    → Blocks s found
    → Blocks (str_append found.1 t) more
    → Blocks (str_append s t) (found.0 ++ more.0, more.1)
Blocks-append t (rest e) b = b
Blocks-append t (block {s} e b) b' = block (cut-append s t e) (Blocks-append t b b')

-- The blocks of a text, and of more text behind it.
drain-append :
    (s t : String)
    → let (found, left) = drain_blocks (char_count s) s in
      let joined = str_append left t in
      let (more, left') = drain_blocks (char_count joined) joined in
      let whole = str_append s t in drain_blocks (char_count whole) whole ≡ (found ++ more, left')
drain-append s t =
    let first = drain-Blocks (char_count s) s (omega arith) in
    let joined = str_append (drain_blocks (char_count s) s).1 t in
    Blocks-drain _ (Blocks-append t first (drain-Blocks (char_count joined) joined (omega arith)))
      (omega arith)

-- The blocks of two chunks, one after the other.
abbrev then_parse : List ℕ → List String × SseBuffer → List String × SseBuffer
then_parse more (found, s) = let (found', s') = parse_chat_sse_bytes more s in (found ++ found', s')

parse_chat_sse_bytes-append :
    (bytes more : List ℕ) (s : SseBuffer)
    → parse_chat_sse_bytes (bytes ++ more) s ≡ then_parse more (parse_chat_sse_bytes bytes s)
unfolding parse_chat_sse_bytes
parse_chat_sse_bytes-append bytes more s =
    let (text, kept) = from_utf8 (s.utf8_remainder ++ bytes) in
    let (text', kept') = from_utf8 (kept ++ more) in
    rw
      (
        sym (append_assoc s.utf8_remainder bytes more),
        from_utf8-append (s.utf8_remainder ++ bytes) more,
      )
      (rw
        (sym (str_append_assoc s.buffer text text'), drain-append (str_append s.buffer text) text')
        refl)

-- What the chunks of a stream give, from the left.
abbrev pub parse_chunks : List (List ℕ) → SseBuffer → List String × SseBuffer
parse_chunks [] s = ([], s)
parse_chunks (bytes ∷ chunks) s =
    let (found, s') = parse_chat_sse_bytes bytes s in
    let (more, s'') = parse_chunks chunks s' in (found ++ more, s'')

abbrev pub flatten : List (List ℕ) → List ℕ
flatten [] = []
flatten (bytes ∷ chunks) = bytes ++ flatten chunks

parse_chunks-flatten :
    (bytes : List ℕ) (chunks : List (List ℕ)) (s : SseBuffer)
    → parse_chunks (bytes ∷ chunks) s ≡ parse_chat_sse_bytes (flatten (bytes ∷ chunks)) s
parse_chunks-flatten bytes [] s =
    rw (append-nil bytes) (ap (λ found. (found, (parse_chat_sse_bytes bytes s).1)) (append-nil _))
parse_chunks-flatten bytes (next ∷ chunks) s =
    rw (parse_chat_sse_bytes-append bytes (flatten (next ∷ chunks)) s)
      (rw (← parse_chunks-flatten next chunks (parse_chat_sse_bytes bytes s).1) refl)

-- However the bytes of a stream are cut into chunks, also inside a character or a delimiter: the
-- chunks together give the blocks that all the bytes at once give, and leave the same behind.
pub parse_chunks_lem :
    (chunks : List (List ℕ))
    → parse_chunks chunks no_bytes ≡ parse_chat_sse_bytes (flatten chunks) no_bytes
unfolding parse_chat_sse_bytes
parse_chunks_lem [] = refl
parse_chunks_lem (bytes ∷ chunks) = parse_chunks-flatten bytes chunks no_bytes
