-- ===== src/Base/Utf8/Chunks.antt =====
-- Decoding bytes that come in pieces: what is decoded of the first piece stays so.
use text.Mathlib.TextLemmas.{nil-append, cons-append}
use codex_mimo_adapter.Base.{
  ℕ, zero, suc, ◌≤◌, ◌<◌, String, Char, str_append, ◌≡◌, refl, ap, arith, none, some, List, [], ◌∷◌,
  ◌++◌, length, inl, inr, Option-cases,
}
use codex_mimo_adapter.Base.Utf8.{
  Reader, ◌>>=◌, byte_in, emit, from_u32, Lead, ascii, two, bad, three, four, lead, continuation,
  after_lead, decode_char, cons_first, decode, from_utf8,
}

-- More bytes behind change nothing of what is read, and none is added to what was read.
record Advances {A : Type 0} (m : Reader A) : Type 0 where
  stable :
      (bs more : List ℕ) (a : A) (rest : List ℕ)
      → m bs ≡ some (a, rest)
      → m (bs ++ more) ≡ some (a, rest ++ more)
  shrinks : (bs : List ℕ) (a : A) (rest : List ℕ) → m bs ≡ some (a, rest) → length rest ≤ length bs

Advances-bind :
    {A B : Type 0} (m : Reader A) (f : A → Reader B)
    → Advances m
    → ((a : A) → Advances (f a))
    → Advances (m >>= f)
unfolding ◌>>=◌
Advances-bind m f am af = record {
  stable = λ bs more b rest h. elim (Option-cases (m bs)) [
    | inl e ↦ absurd (cc (rw (e, ◌>>=◌) at h))
    | inr ((a, mid), e) ↦
        rw (am.stable bs more a mid e, ◌>>=◌) ((af a).stable mid more b rest (rw (e, ◌>>=◌) at h))
  ];
  shrinks = λ bs b rest h. elim (Option-cases (m bs)) [
    | inl e ↦ absurd (cc (rw (e, ◌>>=◌) at h))
    | inr ((a, mid), e) ↦
        omega (arith, am.shrinks bs a mid e, (af a).shrinks mid b rest (rw (e, ◌>>=◌) at h))
  ];
}

byte_in-stable :
    (lo hi : ℕ) (bs more : List ℕ) (a : ℕ) (rest : List ℕ)
    → byte_in lo hi bs ≡ some (a, rest)
    → byte_in lo hi (bs ++ more) ≡ some (a, rest ++ more)
unfolding byte_in
byte_in-stable lo hi [] more a rest h = cc
byte_in-stable lo hi (b ∷ bs) more a rest h = ground arith

byte_in-shrinks :
    (lo hi : ℕ) (bs : List ℕ) (a : ℕ) (rest : List ℕ)
    → byte_in lo hi bs ≡ some (a, rest)
    → length rest ≤ length bs
unfolding byte_in
byte_in-shrinks lo hi [] a rest h = cc
byte_in-shrinks lo hi (b ∷ bs) a rest h = ground arith

byte_in-Advances : (lo hi : ℕ) → Advances (byte_in lo hi)
byte_in-Advances lo hi = record { stable = byte_in-stable lo hi; shrinks = byte_in-shrinks lo hi }

continuation-Advances : Advances continuation
unfolding continuation
continuation-Advances = byte_in-Advances 0x80 0xbf

emit-Advances : (n : ℕ) → Advances (emit n)
unfolding emit
emit-Advances n = record {
  stable = λ bs more a rest h. elim (Option-cases (from_u32 n)) [
    | inl e ↦ absurd (cc (rw (e, emit) at h))
    | inr (c, e) ↦ rw (e, emit) (ground (arith, (rw (e, emit) at h)))
  ];
  shrinks = λ bs a rest h. elim (Option-cases (from_u32 n)) [
    | inl e ↦ absurd (cc (rw (e, emit) at h))
    | inr (c, e) ↦ ground (arith, (rw (e, emit) at h))
  ];
}

after_lead-Advances : (a : ℕ) (kind : Lead) → Advances (after_lead a kind)
unfolding after_lead
after_lead-Advances a ascii = emit-Advances a
after_lead-Advances a bad = record { stable = λ bs more c rest h. cc; shrinks = λ bs c rest h. cc }
after_lead-Advances a two = search (Advances-bind, byte_in-Advances, emit-Advances)
after_lead-Advances a (three lo hi) = search (Advances-bind, byte_in-Advances, emit-Advances)
after_lead-Advances a (four lo hi) = search (Advances-bind, byte_in-Advances, emit-Advances) depth 8

pub decode_char-append :
    (bs more : List ℕ) {c : Char} {rest : List ℕ}
    → decode_char bs ≡ some (c, rest)
    → decode_char (bs ++ more) ≡ some (c, rest ++ more)
unfolding decode_char
decode_char-append [] more h = cc
decode_char-append (a ∷ bs) more h = (after_lead-Advances a (lead a)).stable bs more _ _ h

decode_char_nil : decode_char [] ≡ none
unfolding decode_char
decode_char_nil = refl

decode_char_shorter :
    (bs : List ℕ) {c : Char} {rest : List ℕ}
    → decode_char bs ≡ some (c, rest)
    → length rest < length bs
unfolding decode_char
decode_char_shorter [] h = cc
decode_char_shorter (a ∷ bs) {c} {rest} h =
    omega (arith, (after_lead-Advances a (lead a)).shrinks bs c rest h)

-- The text that the characters in front spell, up to bytes that are none.
pub data Decodes : List ℕ → String × List ℕ → Type 0 where
  stop : {bs : List ℕ} → decode_char bs ≡ none → Decodes bs ("", bs)
  next :
      {bs rest : List ℕ} {c : Char} {text : String × List ℕ}
      → decode_char bs ≡ some (c, rest)
      → Decodes rest text
      → Decodes bs (cons_first c text)

decode-Decodes : (fuel : ℕ) (bs : List ℕ) → length bs ≤ fuel → Decodes bs (decode fuel bs)
unfolding decode
decode-Decodes zero [] h = stop decode_char_nil
decode-Decodes zero (b ∷ bs) h = absurd (omega arith)
decode-Decodes (suc fuel) bs h = elim (Option-cases (decode_char bs)) [
  | inl e ↦ rw (e, decode) (stop e)
  | inr ((c, rest), e) ↦
      rw (e, decode) (next e (decode-Decodes fuel rest (omega (arith, decode_char_shorter bs e))))
]

Decodes-decode :
    {bs : List ℕ} {x : String × List ℕ} (fuel : ℕ)
    → Decodes bs x
    → length bs ≤ fuel
    → decode fuel bs ≡ x
unfolding decode
Decodes-decode zero (stop e) h = refl
Decodes-decode zero (next {bs} e d) h = absurd (omega (arith, decode_char_shorter bs e))
Decodes-decode (suc fuel) (stop e) h = rw (e, decode) refl
Decodes-decode (suc fuel) (next {bs} {c} e d) h =
    rw (e, decode)
      (ap (cons_first c) (Decodes-decode fuel d (omega (arith, decode_char_shorter bs e))))

Decodes-append :
    {bs : List ℕ} {x y : String × List ℕ} (more : List ℕ)
    → Decodes bs x
    → Decodes (x.1 ++ more) y
    → Decodes (bs ++ more) (str_append x.0 y.0, y.1)
Decodes-append {y} more (stop e) d = rw (nil-append y.0) d
Decodes-append {y} more (next {bs} {c} {text} e d) d' =
    rw (cons-append c text.0 y.0) (next (decode_char-append bs more e) (Decodes-append more d d'))

-- Decoding goes on from the bytes that were left: the text of more bytes stands behind the text
-- of the first ones.
pub from_utf8-append :
    (bs more : List ℕ)
    → let (text, rest) = from_utf8 bs in
      let (text', rest') = from_utf8 (rest ++ more) in
      from_utf8 (bs ++ more) ≡ (str_append text text', rest')
unfolding from_utf8
from_utf8-append bs more =
    let first = decode-Decodes (length bs) bs (omega arith) in
    let bytes = (decode (length bs) bs).1 ++ more in
    Decodes-decode _ (Decodes-append more first (decode-Decodes (length bytes) bytes (omega arith)))
      (omega arith)
