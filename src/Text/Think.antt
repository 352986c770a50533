-- ===== src/Text/Think.antt =====
-- Splitting at the closing think tag loses nothing.
use codex_mimo_adapter.Base.{
  String, Char, code, str_append, ◌≡◌, sym, ap, ◌∙◌, arith, Bool, some, Bool-cases, Option-cases,
  inl, inr, num_eq,
}
use mathlib.Core.Path.{subst}
use mathlib.Core.Option.{some-injective}
use text.Mathlib.TextEquality.{Char-path}
use text.Mathlib.TextLemmas.{nil-append, cons-append}
use codex_mimo_adapter.Base.Decimal.{AllChars}
use codex_mimo_adapter.Base.Str.{strip_prefix, split_once, trim_start_matches}
use codex_mimo_adapter.Text.{
  think_close_tag, is_separator, strip_think_answer_separator, split_at_think_close,
}

pub strip_prefix_lem :
    (p s : String) {rest : String} → strip_prefix p s ≡ some rest → s ≡ str_append p rest
unfolding strip_prefix
strip_prefix_lem String.[] s h = some-injective _ _ h ∙ sym (nil-append _)
strip_prefix_lem (String.◌∷◌ p ps) String.[] h = cc
strip_prefix_lem (String.◌∷◌ p ps) (String.◌∷◌ c s) {rest} h =
    elim (Bool-cases (num_eq (code p) (code c))) [
      | inr other ↦ absurd (cc (rw (other, strip_prefix) at h))
      | inl same ↦
          let e : c ≡ p = Char-path c p (ground (arith, same)) in
          ap (λ x. String.◌∷◌ x s) e
          ∙ ap (String.◌∷◌ p) (strip_prefix_lem ps s (rw (same, strip_prefix) at h))
          ∙ sym (cons-append p ps rest)
    ]

-- `text` is the first part, the pattern and the second part.
abbrev pub Surrounds : String → String → String × String → Type 0
Surrounds pattern text (before, after) = text ≡ str_append before (str_append pattern after)

split_once_lem :
    (p s : String) {parts : String × String} → split_once p s ≡ some parts → Surrounds p s parts
unfolding split_once
split_once_lem p String.[] h = elim (Option-cases (strip_prefix p "")) [
  | inl e ↦ absurd (cc (rw (e, split_once) at h))
  | inr (rest, e) ↦
      subst (Surrounds p "") (some-injective _ _ (rw (e, split_once) at h))
        (strip_prefix_lem p "" e ∙ sym (nil-append (str_append p rest)))
]
split_once_lem p (String.◌∷◌ c s) h = elim (Option-cases (strip_prefix p (String.◌∷◌ c s))) [
  | inr (rest, e) ↦
      subst (Surrounds p (String.◌∷◌ c s)) (some-injective _ _ (rw (e, split_once) at h))
        (strip_prefix_lem p (String.◌∷◌ c s) e ∙ sym (nil-append (str_append p rest)))
  | inl e ↦ elim (Option-cases (split_once p s)) [
    | inl e' ↦ absurd (cc (rw (e, e', split_once) at h))
    | inr ((front, back), e') ↦
        subst (Surrounds p (String.◌∷◌ c s)) (some-injective _ _ (rw (e, e', split_once) at h)) (
          ap (String.◌∷◌ c) (split_once_lem p s e') ∙ sym (cons-append c front (str_append p back)))
  ]
]

trim_start_matches_lem :
    (test : Char → Bool) (s : String)
    → (dropped : String) × AllChars test dropped
      × (s ≡ str_append dropped (trim_start_matches test s))
unfolding trim_start_matches
trim_start_matches_lem test String.[] = ("", tt, sym (nil-append ""))
trim_start_matches_lem test (String.◌∷◌ c s) = elim (Bool-cases (test c)) [
  | inr other ↦ rw (other, trim_start_matches) ("", tt, sym (nil-append _))
  | inl dropped ↦
      let (front, all, e) = trim_start_matches_lem test s in
      rw (dropped, trim_start_matches)
        (
          String.◌∷◌ c front,
          (dropped, all),
          ap (String.◌∷◌ c) e ∙ sym (cons-append c front (trim_start_matches test s)),
        )
]

-- The parts of a closed block: the text is the reasoning, the closing tag, separators and the answer.
abbrev pub IsClosed : String → String × String → Type 0
IsClosed text (reasoning, answer) =
    (separator : String) × AllChars is_separator separator
    × (text ≡ str_append reasoning (str_append think_close_tag (str_append separator answer)))

-- Where `split_at_think_close` finds the closing tag, it loses nothing but that tag and the
-- separators behind it: the reasoning, the tag, some separators and the answer make up the text.
pub split_at_think_close-IsClosed :
    (text : String) {parts : String × String}
    → split_at_think_close text ≡ some parts
    → IsClosed text parts
unfolding split_at_think_close strip_think_answer_separator
split_at_think_close-IsClosed text h = elim (Option-cases (split_once think_close_tag text)) [
  | inl e ↦ absurd (cc (rw (e, split_at_think_close) at h))
  | inr ((before, after), e) ↦
      let (separator, all, whole) = trim_start_matches_lem is_separator after in
      subst (IsClosed text) (some-injective _ _ (rw (e, split_at_think_close) at h)) (
        separator,
        all,
        split_once_lem think_close_tag text e
            ∙ ap (λ x. str_append before (str_append think_close_tag x)) whole,
      )
]
