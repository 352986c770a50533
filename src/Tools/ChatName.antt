-- ===== src/Tools/ChatName.antt =====
-- The names that `safe_name` gives are names that the upstream model takes: short, and of letters,
-- digits, underscores and dashes.
use codex_mimo_adapter.Base.{
  ℕ, zero, suc, ◌+◌, ◌-◌, ◌^◌, ◌≤◌, ◌<◌, String, Char, ◌≡◌, refl, arith, Bool, true, List, contains,
  length, Bool-cases, inl, inr,
}
use codex_mimo_adapter.Base.Decimal.{
  decimal, AllChars, AllChars-append, char_count-append, decimal-AllChars, char_count-decimal,
}
use codex_mimo_adapter.Base.Str.{char_count, take_chars, is_empty}
use codex_mimo_adapter.Tools.{is_safe_char, sanitize, base_name, numbered, unused_name, safe_name}

abbrev pub IsChatName : String → Type 0
IsChatName name = (char_count name ≤ 64) × AllChars is_safe_char name

underscore : is_safe_char "_" ≡ true
unfolding is_safe_char
underscore = refl

sanitize-AllChars : (s : String) → AllChars is_safe_char (sanitize s)
unfolding sanitize
sanitize-AllChars String.[] = tt
sanitize-AllChars (String.◌∷◌ c s) = elim (Bool-cases (is_safe_char c)) [
  | inl safe ↦ rw safe (safe, sanitize-AllChars s)
  | inr other ↦ rw other (underscore, sanitize-AllChars s)
]

take_chars-AllChars :
    (test : Char → Bool) (n : ℕ) (s : String) → AllChars test s → AllChars test (take_chars n s)
unfolding take_chars
take_chars-AllChars test zero s h = tt
take_chars-AllChars test (suc n) String.[] h = tt
take_chars-AllChars test (suc n) (String.◌∷◌ c s) h = (h.0, take_chars-AllChars test n s h.1)

char_count-take_chars : (n : ℕ) (s : String) → char_count (take_chars n s) ≤ n
unfolding take_chars
char_count-take_chars zero s = omega arith
char_count-take_chars (suc n) String.[] = omega arith
char_count-take_chars (suc n) (String.◌∷◌ c s) = omega (arith, char_count-take_chars n s)

base_name-IsChatName : (original : String) → IsChatName (base_name original)
unfolding base_name is_safe_char
base_name-IsChatName original =
    let base = take_chars 64 (sanitize original) in
    elim (Bool-cases (is_empty base)) [
      | inl bare ↦ rw bare (omega arith, (refl, (refl, (refl, (refl, tt)))))
      | inr filled ↦ rw filled (
        char_count-take_chars 64 (sanitize original),
        take_chars-AllChars is_safe_char 64 (sanitize original) (sanitize-AllChars original),
      )
    ]

numbered-IsChatName :
    (base : String) (n : ℕ) → IsChatName base → n < 10 ^ 63 → IsChatName (numbered base n)
unfolding numbered is_safe_char
numbered-IsChatName base n h small =
    let tail = String.◌∷◌ "_" (decimal n) in
    let room = 64 - char_count tail in
    (
      omega (
        arith,
        char_count-append (take_chars room base) tail,
        char_count-take_chars room base,
        char_count-decimal 62 n small,
      ),
      AllChars-append is_safe_char (take_chars room base) tail
          (take_chars-AllChars is_safe_char room base h.1)
          (
            refl,
            decimal-AllChars is_safe_char
                (refl, (refl, (refl, (refl, (refl, (refl, (refl, (refl, (refl, (refl, tt))))))))))
                n,
          ),
    )

unused_name-IsChatName :
    (fuel : ℕ) (used : List String) (base : String) (n : ℕ) (candidate : String)
    → IsChatName base
    → n + fuel ≤ 10 ^ 63
    → IsChatName candidate
    → IsChatName (unused_name fuel used base n candidate)
unfolding unused_name
unused_name-IsChatName zero used base n candidate b small h = h
unused_name-IsChatName (suc fuel) used base n candidate b small h =
    elim (Bool-cases (contains used candidate)) [
      | inr unused ↦ rw (unused, unused_name) h
      | inl taken ↦
          rw (taken, unused_name)
            (unused_name-IsChatName fuel used base (n + 1) (numbered base n) b
              (omega (arith, small)) (numbered-IsChatName base n b (omega (arith, small))))
    ]

-- With fewer than 10 ^ 62 names in use, the name that `safe_name` gives has at most 64 characters,
-- all of them letters, digits, underscores or dashes.
pub safe_name-IsChatName :
    (used : List String) (original : String)
    → length used < 10 ^ 62
    → IsChatName (safe_name used original)
unfolding safe_name
safe_name-IsChatName used original few =
    unused_name-IsChatName (length used + 2) used (base_name original) 2 (base_name original)
      (base_name-IsChatName original) (omega (arith, few)) (base_name-IsChatName original)
