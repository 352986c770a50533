-- ===== src/Base/Decimal.antt =====
-- Unsigned numbers printed in decimal, as `Display` prints them.
use codex_mimo_adapter.Base.Tests.{ltb, num_eq, if◌then◌else◌, Bool-cases}
use Prim.Native.Nat.{ℕ, zero, suc, ◌+◌, ◌-◌, ◌*◌, ◌/◌, ◌%◌, ◌^◌, ◌<◌, ◌≤◌}
use Prim.Native.Char.{Char, code}
use Prim.Native.String.{String, ◌++◌}
use codex_mimo_adapter.Base.Str.{char_count}
use mathlib.Core.Path.{◌≡◌, refl, sym, ap, ◌∙◌, subst}
use mathlib.Core.Bool.{Bool, true}
use mathlib.Core.Logic.{inl, inr}
use native.Mathlib.Omega.{arith}
use native.Mathlib.Nat.{pow-succ'}
use text.Mathlib.TextLemmas.{nil-append, cons-append}

digit : ℕ → Char
digit zero = "0"
digit (suc zero) = "1"
digit (suc (suc zero)) = "2"
digit (suc (suc (suc zero))) = "3"
digit (suc (suc (suc (suc zero)))) = "4"
digit (suc (suc (suc (suc (suc zero))))) = "5"
digit (suc (suc (suc (suc (suc (suc zero)))))) = "6"
digit (suc (suc (suc (suc (suc (suc (suc zero))))))) = "7"
digit (suc (suc (suc (suc (suc (suc (suc (suc zero)))))))) = "8"
digit _ = "9"

-- The digits of the number in front of `out`; the fuel exceeds the number.
digits : ℕ → ℕ → String → String
unfolding digit
digits zero n out = out
digits (suc fuel) n out =
    let rest = digits fuel (n / 10) (String.◌∷◌ (digit (n % 10)) out) in
    if ltb n 10 then String.◌∷◌ (digit n) out else rest

unfoldable pub decimal : ℕ → String
unfolding digits
decimal n = digits (suc n) n ""

decimal_runs : decimal 4090 ≡ "4090"
unfolding decimal
decimal_runs = refl

-- The number read from the digits behind the last underscore, going on from `acc`.
unfoldable pub tail_value : ℕ → String → ℕ
tail_value acc String.[] = acc
tail_value acc (String.◌∷◌ c s) =
    tail_value (if num_eq (code c) b'_' then 0 else acc * 10 + (code c - b'0')) s

pub tail_value-append :
    (acc : ℕ) (s t : String) → tail_value acc (s ++ t) ≡ tail_value (tail_value acc s) t
unfolding tail_value
tail_value-append acc String.[] t = ap (tail_value acc) (nil-append t)
tail_value-append acc (String.◌∷◌ c s) t =
    ap (tail_value acc) (cons-append c s t)
    ∙ tail_value-append (if num_eq (code c) b'_' then 0 else acc * 10 + (code c - b'0')) s t

tail_value-digit :
    (acc d : ℕ) (out : String)
    → d < 10
    → tail_value acc (String.◌∷◌ (digit d) out) ≡ tail_value (acc * 10 + d) out
unfolding tail_value digit
tail_value-digit acc zero out h = refl
tail_value-digit acc (suc zero) out h = refl
tail_value-digit acc (suc (suc zero)) out h = refl
tail_value-digit acc (suc (suc (suc zero))) out h = refl
tail_value-digit acc (suc (suc (suc (suc zero)))) out h = refl
tail_value-digit acc (suc (suc (suc (suc (suc zero))))) out h = refl
tail_value-digit acc (suc (suc (suc (suc (suc (suc zero)))))) out h = refl
tail_value-digit acc (suc (suc (suc (suc (suc (suc (suc zero))))))) out h = refl
tail_value-digit acc (suc (suc (suc (suc (suc (suc (suc (suc zero)))))))) out h = refl
tail_value-digit acc (suc (suc (suc (suc (suc (suc (suc (suc (suc zero))))))))) out h = refl
tail_value-digit acc (suc (suc (suc (suc (suc (suc (suc (suc (suc (suc d)))))))))) out h =
    absurd (omega (arith, h))

tail_value-digits :
    (fuel n : ℕ) (out : String) → n < fuel → tail_value 0 (digits fuel n out) ≡ tail_value n out
unfolding digits
tail_value-digits zero n out h = absurd (omega (arith, h))
tail_value-digits (suc fuel) n out h = elim (Bool-cases (ltb n 10)) [
  | inl small ↦
      rw small (
        tail_value-digit 0 n out (ground (arith, small)) ∙ ap (λ k. tail_value k out) (omega arith))
  | inr large ↦ rw large (
      tail_value-digits fuel (n / 10) _ (ground (arith, large, h))
      ∙ tail_value-digit (n / 10) (n % 10) out (omega arith)
      ∙ ap (λ k. tail_value k out) (omega arith))
]

-- A number that is printed is read back.
pub tail_value-decimal : (n : ℕ) → tail_value 0 (decimal n) ≡ n
unfolding decimal tail_value
tail_value-decimal n = tail_value-digits (suc n) n "" (omega arith)

-- A test that holds of all characters of a text.
abbrev pub AllChars : (Char → Bool) → String → Type 0
AllChars test String.[] = Unit
AllChars test (String.◌∷◌ c s) = (test c ≡ true) × AllChars test s

pub AllChars-append :
    (test : Char → Bool) (s t : String) → AllChars test s → AllChars test t → AllChars test (s ++ t)
AllChars-append test String.[] t h k = subst (AllChars test) (sym (nil-append t)) k
AllChars-append test (String.◌∷◌ c s) t h k =
    subst (AllChars test) (sym (cons-append c s t)) (h.0, AllChars-append test s t h.1 k)

pub char_count-append : (s t : String) → char_count (s ++ t) ≡ char_count s + char_count t
char_count-append String.[] t = ap char_count (nil-append t) ∙ omega arith
char_count-append (String.◌∷◌ c s) t =
    ap char_count (cons-append c s t) ∙ omega (arith, char_count-append s t)

module _ (test : Char → Bool) (on_digits : AllChars test "0123456789") where
  digit-AllChars : (d : ℕ) → test (digit d) ≡ true
  unfolding digit
  digit-AllChars zero = on_digits.0
  digit-AllChars (suc zero) = on_digits.1.0
  digit-AllChars (suc (suc zero)) = on_digits.1.1.0
  digit-AllChars (suc (suc (suc zero))) = on_digits.1.1.1.0
  digit-AllChars (suc (suc (suc (suc zero)))) = on_digits.1.1.1.1.0
  digit-AllChars (suc (suc (suc (suc (suc zero))))) = on_digits.1.1.1.1.1.0
  digit-AllChars (suc (suc (suc (suc (suc (suc zero)))))) = on_digits.1.1.1.1.1.1.0
  digit-AllChars (suc (suc (suc (suc (suc (suc (suc zero))))))) = on_digits.1.1.1.1.1.1.1.0
  digit-AllChars (suc (suc (suc (suc (suc (suc (suc (suc zero)))))))) = on_digits.1.1.1.1.1.1.1.1.0
  digit-AllChars (suc (suc (suc (suc (suc (suc (suc (suc (suc d))))))))) =
      on_digits.1.1.1.1.1.1.1.1.1.0

  digits-AllChars :
      (fuel n : ℕ) (out : String) → AllChars test out → AllChars test (digits fuel n out)
  unfolding digits
  digits-AllChars zero n out h = h
  digits-AllChars (suc fuel) n out h = elim (Bool-cases (ltb n 10)) [
    | inl small ↦ rw small (digit-AllChars n, h)
    | inr large ↦ rw large (
        digits-AllChars fuel (n / 10) (String.◌∷◌ (digit (n % 10)) out)
          (digit-AllChars (n % 10), h))
  ]

  pub decimal-AllChars : (n : ℕ) → AllChars test (decimal n)
  unfolding decimal
  decimal-AllChars n = digits-AllChars (suc n) n "" tt

char_count-digits :
    (k fuel n : ℕ) (out : String)
    → n < 10 ^ suc k
    → char_count (digits fuel n out) ≤ suc k + char_count out
unfolding digits
char_count-digits k zero n out h = omega arith
char_count-digits zero (suc fuel) n out h = elim (Bool-cases (ltb n 10)) [
  | inl small ↦ rw small (omega arith)
  | inr large ↦ absurd (ground (arith, large, h))
]
char_count-digits (suc k) (suc fuel) n out h = elim (Bool-cases (ltb n 10)) [
  | inl small ↦ rw small (omega arith)
  | inr large ↦
      let rest =
        char_count-digits k fuel (n / 10) (String.◌∷◌ (digit (n % 10)) out)
          (omega (arith, h, pow-succ' 10 (suc k))) in
      rw large (omega (arith, rest))
]

-- A number below 10 ^ (k + 1) has at most k + 1 digits.
pub char_count-decimal : (k n : ℕ) → n < 10 ^ suc k → char_count (decimal n) ≤ suc k
unfolding decimal
char_count-decimal k n h = omega (arith, char_count-digits k (suc n) n "" h)
