-- ===== src/Base/Utf8.antt =====
-- `std::str::from_utf8` on a slice of bytes: the text that the valid bytes in front spell, and the
-- bytes from the first that does not go on as UTF-8.
pub mod Chunks
use Prim.Native.Nat.{Ordering, compare}
use Prim.Native.Char.{IsLt, char}
use text.Mathlib.TextLemmas.{nil-append, cons-append}
use codex_mimo_adapter.Base.{
  ℕ, zero, suc, ◌+◌, ◌-◌, ◌*◌, ◌≤◌, ◌<◌, String, Char, str_append, ◌≡◌, refl, sym, ap, ◌∙◌, arith,
  Bool, true, false, ◌&&◌, Option, none, some, List, [], ◌∷◌, ◌++◌, length, leb, num_eq,
  if◌then◌else◌, Bool-cases, Option-cases,
}
use mathlib.Core.Option
use mathlib.Core.Option.{some-injective}

-- the two helpers of the built-in `IsScalar`, which compute alike
abbrev BothLt : Ordering → Ordering → Type 0
BothLt Ordering.lt o = IsLt o
BothLt Ordering.eq o = ⊥
BothLt Ordering.gt o = ⊥

abbrev Scalar : Ordering → Ordering → Ordering → Type 0
Scalar Ordering.lt o p = Unit
Scalar Ordering.eq o p = BothLt o p
Scalar Ordering.gt o p = BothLt o p

both_lt : (o p : Ordering) → Option (BothLt o p)
both_lt Ordering.lt Ordering.lt = some tt
both_lt Ordering.lt Ordering.eq = none
both_lt Ordering.lt Ordering.gt = none
both_lt Ordering.eq p = none
both_lt Ordering.gt p = none

scalar : (o p q : Ordering) → Option (Scalar o p q)
unfolding both_lt
scalar Ordering.lt p q = some tt
scalar Ordering.eq p q = both_lt p q
scalar Ordering.gt p q = both_lt p q

-- `char::from_u32`
unfoldable pub from_u32 : ℕ → Option Char
unfolding scalar
from_u32 n = Option.map (char n) (scalar (compare n 0xd800) (compare 0xdfff n) (compare n 0x110000))

-- What reads from the front of the bytes, or finds that they do not go on as it needs.
abbrev pub Reader : Type 0 → Type 0
Reader A = List ℕ → Option (A × List ℕ)

infixl 10 ◌>>=◌
unfoldable pub ◌>>=◌ : {A B : Type 0} → Reader A → (A → Reader B) → Reader B
◌>>=◌ m f bs = elim (m bs) [ none ↦ none | some (a, rest) ↦ f a rest ]

-- one byte from `lo` to `hi`
unfoldable pub byte_in : ℕ → ℕ → Reader ℕ
byte_in lo hi [] = none
byte_in lo hi (b ∷ bs) = if leb lo b && leb b hi then some (b, bs) else none

unfoldable pub emit : ℕ → Reader Char
unfolding from_u32
emit n bs = Option.map (λ c. (c, bs)) (from_u32 n)

-- What the first byte says of those behind it: how many, and the range of the second.
pub data Lead : Type 0 where
  ascii two bad : Lead
  three four : ℕ → ℕ → Lead

-- the table of well-formed UTF-8 byte sequences of the Unicode standard
abbrev pub lead : ℕ → Lead
lead a =
    if leb a 0x7f
    then ascii
    else if leb a 0xc1
    then bad
    else if leb a 0xdf
    then two
    else if num_eq a 0xe0
    then three 0xa0 0xbf
    else if num_eq a 0xed
    then three 0x80 0x9f
    else if leb a 0xef
    then three 0x80 0xbf
    else if num_eq a 0xf0
    then four 0x90 0xbf
    else if leb a 0xf3
    then four 0x80 0xbf
    else if num_eq a 0xf4
    then four 0x80 0x8f
    else bad

-- the bytes behind the first one
unfoldable pub continuation : Reader ℕ
unfolding byte_in
continuation = byte_in 0x80 0xbf

unfoldable pub after_lead : ℕ → Lead → Reader Char
unfolding ◌>>=◌ emit continuation
after_lead a ascii = emit a
after_lead a bad = λ bs. none
after_lead a two = continuation >>= λ b. emit ((a - 0xc0) * 64 + (b - 0x80))
after_lead a (three lo hi) = byte_in lo hi >>= λ b.
    continuation >>= λ c. emit ((a - 0xe0) * 4096 + (b - 0x80) * 64 + (c - 0x80))
after_lead a (four lo hi) = byte_in lo hi >>= λ b. continuation >>= λ c. continuation >>= λ d.
    emit ((a - 0xf0) * 262144 + (b - 0x80) * 4096 + (c - 0x80) * 64 + (d - 0x80))

-- the first character
unfoldable pub decode_char : Reader Char
unfolding ◌>>=◌ after_lead
decode_char [] = none
decode_char (a ∷ bs) = after_lead a (lead a) bs

-- a character more in front
abbrev pub cons_first : Char → String × List ℕ → String × List ℕ
cons_first c (text, rest) = (String.◌∷◌ c text, rest)

pub decode : ℕ → List ℕ → String × List ℕ
unfolding decode_char
decode zero bs = ("", bs)
decode (suc fuel) bs = elim (decode_char bs) [
  | none ↦ ("", bs)
  | some (c, rest) ↦ cons_first c (decode fuel rest)
]

-- A character takes a byte at least, so there is fuel for all of them.
unfoldable pub from_utf8 : List ℕ → String × List ℕ
unfolding decode
from_utf8 bs = decode (length bs) bs
