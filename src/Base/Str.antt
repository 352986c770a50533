-- ===== src/Base/Str.antt =====
-- The functions of Rust's `str` and `String` that the program calls, by recursion on characters.
use Prim.Native.Nat.{ℕ, zero, suc, ◌+◌}
use Prim.Native.Char.{Char, code, len_utf8}
use Prim.Native.String.{String, ◌++◌}
use mathlib.Core.Bool.{Bool, true, false, ◌&&◌, ◌||◌}
use mathlib.Core.Option
use mathlib.Core.Option.{Option, none, some}
use mathlib.Core.List.{List, [], ◌∷◌}
use codex_mimo_adapter.Base.Tests.{leb, num_eq, if◌then◌else◌}

abbrev pub is_empty : String → Bool
is_empty String.[] = true
is_empty (String.◌∷◌ c s) = false

-- `Option::filter(|value| !value.is_empty())`
abbrev pub non_empty : String → Option String
non_empty String.[] = none
non_empty (String.◌∷◌ c s) = some (String.◌∷◌ c s)

-- `chars().count()`
abbrev pub char_count : String → ℕ
char_count String.[] = 0
char_count (String.◌∷◌ c s) = suc (char_count s)

-- `len()`, in bytes
abbrev pub byte_count : String → ℕ
byte_count String.[] = 0
byte_count (String.◌∷◌ c s) = len_utf8 c + byte_count s

abbrev within : ℕ → ℕ → ℕ → Bool
within lo hi c = leb lo c && leb c hi

-- `char::is_whitespace`: the code points with the property White_Space
unfoldable pub is_whitespace : Char → Bool
is_whitespace ch =
    let c = code ch in
    within 9 13 c
    || num_eq c 0x20
    || num_eq c 0x85
    || num_eq c 0xa0
    || num_eq c 0x1680
    || within 0x2000 0x200a c
    || num_eq c 0x2028
    || num_eq c 0x2029
    || num_eq c 0x202f
    || num_eq c 0x205f
    || num_eq c 0x3000

-- `trim_start_matches` with a test on characters
unfoldable pub trim_start_matches : (Char → Bool) → String → String
trim_start_matches p String.[] = ""
trim_start_matches p (String.◌∷◌ c s) = elim (p c) [
  | true ↦ trim_start_matches p s
  | false ↦ String.◌∷◌ c s
]

unfoldable pub trim_start : String → String
unfolding trim_start_matches is_whitespace
trim_start = trim_start_matches is_whitespace

-- what one more character in front does to a text trimmed at its end
abbrev pub cons_trimmed : Char → String → String
cons_trimmed c String.[] = elim (is_whitespace c) [ true ↦ "" | false ↦ String.◌∷◌ c "" ]
cons_trimmed c s = String.◌∷◌ c s

unfoldable pub trim_end : String → String
unfolding is_whitespace
trim_end String.[] = ""
trim_end (String.◌∷◌ c s) = cons_trimmed c (trim_end s)

unfoldable pub trim : String → String
unfolding trim_start trim_end
trim s = trim_end (trim_start s)

abbrev char_eq : Char → Char → Bool
char_eq c d = num_eq (code c) (code d)

-- `text.strip_prefix(prefix)`, the prefix first
unfoldable pub strip_prefix : String → String → Option String
strip_prefix String.[] s = some s
strip_prefix (String.◌∷◌ p ps) String.[] = none
strip_prefix (String.◌∷◌ p ps) (String.◌∷◌ c s) = elim (char_eq p c) [
  | true ↦ strip_prefix ps s
  | false ↦ none
]

abbrev pub is_some {ℓ} : {A : Type ℓ} → Option A → Bool
is_some none = false
is_some (some a) = true

-- `text.starts_with(prefix)`, the prefix first
abbrev pub has_prefix : String → String → Bool
has_prefix p s = is_some (strip_prefix p s)

abbrev pub cons_before : Char → String × String → String × String
cons_before c (before, after) = (String.◌∷◌ c before, after)

-- `text.split_once(pattern)`, which is `find` with the two slices around the first match
unfoldable pub split_once : String → String → Option (String × String)
unfolding strip_prefix
split_once p String.[] = elim (strip_prefix p "") [ some rest ↦ some ("", rest) | none ↦ none ]
split_once p (String.◌∷◌ c s) = elim (strip_prefix p (String.◌∷◌ c s)) [
  | some rest ↦ some ("", rest)
  | none ↦ Option.map (cons_before c) (split_once p s)
]

-- `text.contains(pattern)`, the pattern first
abbrev pub contains_str : String → String → Bool
contains_str p s = is_some (split_once p s)

-- `chars().take(n).collect()`
unfoldable pub take_chars : ℕ → String → String
take_chars zero s = ""
take_chars (suc n) String.[] = ""
take_chars (suc n) (String.◌∷◌ c s) = String.◌∷◌ c (take_chars n s)

-- what is left behind the first `n` characters
unfoldable pub drop_chars : ℕ → String → String
drop_chars zero s = s
drop_chars (suc n) String.[] = ""
drop_chars (suc n) (String.◌∷◌ c s) = drop_chars n s

-- `text.find(pattern)`, the pattern first, with the position counted in characters
unfoldable pub find : String → String → Option ℕ
unfolding strip_prefix
find p String.[] = elim (strip_prefix p "") [ some rest ↦ some 0 | none ↦ none ]
find p (String.◌∷◌ c s) = elim (strip_prefix p (String.◌∷◌ c s)) [
  | some rest ↦ some 0
  | none ↦ Option.map suc (find p s)
]

-- `text.lines()`: split at line feeds, without a carriage return at the end of a line that has
-- its line feed, and without the empty piece behind a last line feed
abbrev pub cons_line : Char → List String → List String
cons_line c [] = String.◌∷◌ c "" ∷ []
cons_line c (line ∷ rest) = String.◌∷◌ c line ∷ rest

abbrev pub starts_with_line_feed : String → Bool
starts_with_line_feed String.[] = false
starts_with_line_feed (String.◌∷◌ c s) = num_eq (code c) 10

unfoldable pub lines : String → List String
lines String.[] = []
lines (String.◌∷◌ c s) =
    let rest = lines s in
    if num_eq (code c) 10
    then "" ∷ rest
    else if num_eq (code c) 13 && starts_with_line_feed s
    then rest
    else cons_line c rest

-- `parts.join(separator)`
unfoldable pub join : String → List String → String
join sep [] = ""
join sep (s ∷ []) = s
join sep (s ∷ t ∷ rest) = s ++ (sep ++ join sep (t ∷ rest))

-- `format!` of pieces in a row
abbrev pub concat : List String → String
concat [] = ""
concat (s ∷ []) = s
concat (s ∷ t ∷ rest) = s ++ concat (t ∷ rest)

-- `char::to_ascii_lowercase` on a code point is by its number; texts are compared by it
abbrev pub lower_code : ℕ → ℕ
lower_code c = if within 0x41 0x5a c then c + 32 else c
