-- ===== src/Base/Parse.antt =====
-- `str::parse` at the integer types, with the texts of its errors.
use codex_mimo_adapter.Base.{
  ℕ, zero, suc, ◌+◌, ◌-◌, ◌*◌, ◌<◌, String, Char, code, ◌≡◌, arith, ◌&&◌, Option, none, some, ltb,
  leb, num_eq, if◌then◌else◌, inl, inr, Bool-cases, Option-cases,
}
use codex_mimo_adapter.Base.Int.{ℤ, pos, negsuc}
use codex_mimo_adapter.Base.Result.{Result, ok, err, ◌>>=◌}

abbrev empty_error : String
empty_error = "cannot parse integer from empty string"

abbrev digit_error : String
digit_error = "invalid digit found in string"

-- `char::to_digit(10)`
abbrev digit_value : Char → Option ℕ
digit_value c = if leb b'0' (code c) && leb (code c) b'9' then some (code c - b'0') else none

-- the loop over the digits: an error as soon as a digit is none, or as the number reaches `limit`
abbrev add_digit : String → ℕ → ℕ → Option ℕ → Result String ℕ
add_digit range_error limit acc none = err digit_error
add_digit range_error limit acc (some d) =
    if ltb (acc * 10 + d) limit then ok (acc * 10 + d) else err range_error

unfoldable pub parse_digits : String → ℕ → ℕ → String → Result String ℕ
parse_digits range_error limit acc String.[] = ok acc
parse_digits range_error limit acc (String.◌∷◌ c s) = do
  acc' ← add_digit range_error limit acc (digit_value c)
  parse_digits range_error limit acc' s

-- the text behind a sign has a digit at least
abbrev parse_signed : String → ℕ → String → Result String ℕ
parse_signed range_error limit String.[] = err digit_error
parse_signed range_error limit (String.◌∷◌ c s) = parse_digits range_error limit 0 (String.◌∷◌ c s)

abbrev large_error : String
large_error = "number too large to fit in target type"

abbrev small_error : String
small_error = "number too small to fit in target type"

-- a type of the numbers below `limit`
unfoldable pub parse_unsigned : ℕ → String → Result String ℕ
unfolding parse_digits
parse_unsigned limit String.[] = err empty_error
parse_unsigned limit (String.◌∷◌ c s) =
    if num_eq (code c) b'+'
    then parse_signed large_error limit s
    else parse_digits large_error limit 0 (String.◌∷◌ c s)

abbrev negate : ℕ → ℤ
negate zero = pos 0
negate (suc n) = negsuc n

-- `i64`
unfoldable pub parse_i64 : String → Result String ℤ
unfolding parse_digits
parse_i64 String.[] = err empty_error
parse_i64 (String.◌∷◌ c s) =
    if num_eq (code c) b'+'
    then parse_signed large_error 0x8000000000000000 s >>= (λ n. ok (pos n))
    else if num_eq (code c) b'-'
    then parse_signed small_error 0x8000000000000001 s >>= (λ n. ok (negate n))
    else parse_digits large_error 0x8000000000000000 0 (String.◌∷◌ c s) >>= (λ n. ok (pos n))

parse_digits-lt :
    (range_error : String) (limit acc : ℕ) (s : String) {n : ℕ}
    → acc < limit
    → parse_digits range_error limit acc s ≡ ok n
    → n < limit
unfolding parse_digits
parse_digits-lt e limit acc String.[] small h = ground arith
parse_digits-lt e limit acc (String.◌∷◌ c s) small h = elim (Option-cases (digit_value c)) [
  | inl none_left ↦ absurd (cc (rw none_left at h))
  | inr (d, is_digit) ↦ elim (Bool-cases (ltb (acc * 10 + d) limit)) [
    | inl fits ↦
        parse_digits-lt e limit (acc * 10 + d) s (ground (arith, fits))
          (rw (is_digit, fits, parse_digits) at h)
    | inr large ↦ absurd (cc (rw (is_digit, large, parse_digits) at h))
  ]
]

parse_signed-lt :
    (limit : ℕ) (s : String) {n : ℕ}
    → 0 < limit
    → parse_signed large_error limit s ≡ ok n
    → n < limit
unfolding parse_digits
parse_signed-lt limit String.[] some_limit h = cc
parse_signed-lt limit (String.◌∷◌ c s) some_limit h =
    parse_digits-lt large_error limit 0 (String.◌∷◌ c s) some_limit h

-- A number that is parsed lies in its type.
pub parse_unsigned-lt :
    (limit : ℕ) (s : String) {n : ℕ} → 0 < limit → parse_unsigned limit s ≡ ok n → n < limit
unfolding parse_unsigned
parse_unsigned-lt limit String.[] some_limit h = cc
parse_unsigned-lt limit (String.◌∷◌ c s) some_limit h = elim (Bool-cases (num_eq (code c) b'+')) [
  | inr e ↦
      parse_digits-lt large_error limit 0 (String.◌∷◌ c s) some_limit (rw (e, parse_unsigned) at h)
  | inl e ↦ parse_signed-lt limit s some_limit (rw (e, parse_unsigned) at h)
]
