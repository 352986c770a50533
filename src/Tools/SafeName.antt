-- ===== src/Tools/SafeName.antt =====
-- The names that `safe_name` gives: its search ends, with a name that is not in use.
use codex_mimo_adapter.Base.{
  ℕ, zero, suc, ◌+◌, ◌-◌, ◌≤◌, String, ◌≡◌, refl, sym, ap, ◌∙◌, arith, true, false, List, [], ◌∷◌,
  ◌==◌, eq_iff, contains, length, Inside, Distinct, Distinct-length-le, Bool-cases, inl, inr,
}
use codex_mimo_adapter.Base.Decimal.{decimal, tail_value, tail_value-append, tail_value-decimal}
use codex_mimo_adapter.Base.Str.{char_count, take_chars}
use codex_mimo_adapter.Tools.{chat_tool_name_max_len, base_name, numbered, unused_name, safe_name}

-- the number at a candidate's end is the round's
tail_value-numbered : (base : String) (n : ℕ) → tail_value 0 (numbered base n) ≡ n
unfolding numbered tail_value
tail_value-numbered base n =
    tail_value-append 0
      (take_chars (chat_tool_name_max_len - char_count (String.◌∷◌ "_" (decimal n))) base)
      (String.◌∷◌ "_" (decimal n))
    ∙ tail_value-decimal n

numbered-injective : (base : String) (m n : ℕ) → numbered base m ≡ numbered base n → m ≡ n
numbered-injective base m n h =
    sym (tail_value-numbered base m) ∙ ap (tail_value 0) h ∙ tail_value-numbered base n

-- the candidates of `count` rounds
abbrev candidates : String → ℕ → ℕ → List String
candidates base n zero = []
candidates base n (suc count) = numbered base n ∷ candidates base (n + 1) count

length-candidates : (base : String) (n count : ℕ) → length (candidates base n count) ≡ count
length-candidates base n zero = refl
length-candidates base n (suc count) = ap suc (length-candidates base (n + 1) count)

contains-candidates :
    (base : String) (m n count : ℕ)
    → suc m ≤ n
    → contains (candidates base n count) (numbered base m) ≡ false
contains-candidates base m n zero h = refl
contains-candidates base m n (suc count) h =
    elim (Bool-cases (numbered base n == numbered base m)) [
      | inl same ↦
          let e =
            numbered-injective base n m ((eq_iff (numbered base n) (numbered base m)).0 same) in
          absurd (omega (arith, h, e))
      | inr other ↦ rw other (contains-candidates base m (n + 1) count (omega (arith, h)))
    ]

candidates-Distinct : (base : String) (n count : ℕ) → Distinct (candidates base n count)
candidates-Distinct base n zero = tt
candidates-Distinct base n (suc count) =
    (contains-candidates base n (n + 1) count (omega arith), candidates-Distinct base (n + 1) count)

-- a search that ends with a used name has started with one
unused_name-start :
    (fuel : ℕ) (used : List String) (base : String) (n : ℕ) (candidate : String)
    → contains used (unused_name fuel used base n candidate) ≡ true
    → contains used candidate ≡ true
unfolding unused_name
unused_name-start zero used base n candidate h = h
unused_name-start (suc fuel) used base n candidate h = elim (Bool-cases (contains used candidate)) [
  | inr unused ↦ rw (unused, unused_name) at h
  | inl taken ↦ taken
]

-- a search that ends with a used name has found all its candidates used
unused_name-Inside :
    (fuel : ℕ) (used : List String) (base : String) (n : ℕ) (candidate : String)
    → contains used (unused_name fuel used base n candidate) ≡ true
    → Inside used (candidates base n fuel)
unfolding unused_name
unused_name-Inside zero used base n candidate h = tt
unused_name-Inside (suc fuel) used base n candidate h =
    elim (Bool-cases (contains used candidate)) [
      | inr unused ↦ absurd (cc (rw (unused, unused_name) at h))
      | inl taken ↦
          let rest = rw (taken, unused_name) at h in
          (
            unused_name-start fuel used base (n + 1) (numbered base n) rest,
            unused_name-Inside fuel used base (n + 1) (numbered base n) rest,
          )
    ]

-- The name that `safe_name` gives is not in use, whatever names are: the rounds that the model's
-- fuel allows are enough.
pub safe_name_lem :
    (used : List String) (original : String) → contains used (safe_name used original) ≡ false
unfolding safe_name
safe_name_lem used original = elim (Bool-cases (contains used (safe_name used original))) [
  | inr unused ↦ unused
  | inl taken ↦
      let base = base_name original in
      let inside = unused_name-Inside (length used + 2) used base 2 base taken in
      let few =
        Distinct-length-le (candidates base 2 (length used + 2)) used
          (candidates-Distinct base 2 (length used + 2)) inside in
      absurd (omega (arith, few, length-candidates base 2 (length used + 2)))
]
