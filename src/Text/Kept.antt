-- ===== src/Text/Kept.antt =====
-- What is kept back of a text that may end in a part of the closing think tag.
use codex_mimo_adapter.Base.{
  ◌≤◌, String, Char, str_append, ◌≡◌, ◌≢◌, ◌⊎◌, refl, sym, ap, ◌∙◌, arith, Option, none, some, List,
  [], ◌∷◌, ◌==◌, eq_iff, eq_refl, All, All-at, Among, Bool-cases, Option-cases, inl, inr, map,
}
use mathlib.Core.Option
use mathlib.Core.Path.{subst}
use mathlib.Core.Option.{some-injective}
use text.Mathlib.TextLemmas.{
  nil-append, cons-append, nil≢cons, head-eq_of_cons-eq, tail-eq_of_cons-eq,
}
use codex_mimo_adapter.Base.Str.{char_count}
use codex_mimo_adapter.Text.{
  think_close_tag, strip_suffix, split_suffixes, close_tag_prefixes,
  split_incomplete_think_close_suffix,
}

strip_suffix_lem :
    (suffix s : String) {e : String} → strip_suffix suffix s ≡ some e → str_append e suffix ≡ s
unfolding strip_suffix
strip_suffix_lem suffix String.[] h = elim (Bool-cases (suffix == "")) [
  | inl same ↦
      ap (λ e. str_append e suffix) (sym (some-injective _ _ (rw (same, strip_suffix) at h)))
      ∙ nil-append suffix
      ∙ (eq_iff suffix "").0 same
  | inr other ↦ absurd (cc (rw (other, strip_suffix) at h))
]
strip_suffix_lem suffix (String.◌∷◌ c s) h = elim (Bool-cases (suffix == String.◌∷◌ c s)) [
  | inl same ↦
      ap (λ e. str_append e suffix) (sym (some-injective _ _ (rw (same, strip_suffix) at h)))
      ∙ nil-append suffix
      ∙ (eq_iff suffix (String.◌∷◌ c s)).0 same
  | inr other ↦ elim (Option-cases (strip_suffix suffix s)) [
    | inl e ↦ absurd (cc (rw (other, e, strip_suffix) at h))
    | inr (front, e) ↦
        ap (λ x. str_append x suffix) (sym (some-injective _ _ (rw (other, e, strip_suffix) at h)))
        ∙ cons-append c front suffix
        ∙ ap (String.◌∷◌ c) (strip_suffix_lem suffix s e)
  ]
]

append-nil : (s : String) → str_append s "" ≡ s
append-nil String.[] = nil-append ""
append-nil (String.◌∷◌ c s) = cons-append c s "" ∙ ap (String.◌∷◌ c) (append-nil s)

strip_suffix_self : (s : String) → strip_suffix s s ≡ some ""
unfolding strip_suffix
strip_suffix_self String.[] = refl
strip_suffix_self (String.◌∷◌ c s) = rw (eq_refl (String.◌∷◌ c s)) refl

none_of_map : (c : Char) (o : Option String) → Option.map (String.◌∷◌ c) o ≡ none → o ≡ none
none_of_map c none h = refl
none_of_map c (some s) h = absurd (cc)

-- A text that ends in the suffix is stripped of it.
strip_suffix_found :
    (front suffix : String) → (strip_suffix suffix (str_append front suffix) ≡ none) → ⊥
unfolding strip_suffix
strip_suffix_found String.[] suffix h =
    absurd (cc (strip_suffix_self suffix, ap (strip_suffix suffix) (nil-append suffix), h))
strip_suffix_found (String.◌∷◌ c front) suffix h =
    let text = str_append front suffix in
    let none_found = sym (ap (strip_suffix suffix) (cons-append c front suffix)) ∙ h in
    elim (Bool-cases (suffix == String.◌∷◌ c text)) [
      | inl same ↦ absurd (cc (rw (strip_suffix, same) at none_found))
      | inr other ↦
          strip_suffix_found front suffix
            (none_of_map c (strip_suffix suffix text) (rw (strip_suffix, other) at none_found))
    ]

-- a part of the tag from its start, and not all of it
abbrev pub IsProperPrefix : String → String → Type 0
IsProperPrefix tag p = (rest : String) × (str_append p rest ≡ tag) × (rest ≢ "")

-- the proper prefixes of a text, the empty one among them
abbrev proper_prefixes : String → List String
proper_prefixes String.[] = []
proper_prefixes (String.◌∷◌ c s) = "" ∷ map (String.◌∷◌ c) (proper_prefixes s)

Among-map :
    (c : Char) (p : String) (ps : List String)
    → Among p ps
    → Among (String.◌∷◌ c p) (map (String.◌∷◌ c) ps)
Among-map c p [] a = elim a [ ]
Among-map c p (q ∷ ps) (inl e) = inl (ap (String.◌∷◌ c) e)
Among-map c p (q ∷ ps) (inr a) = inr (Among-map c p ps a)

IsProperPrefix-Among : (tag p : String) → IsProperPrefix tag p → Among p (proper_prefixes tag)
IsProperPrefix-Among String.[] String.[] (rest, whole, more) =
    absurd (more (sym (nil-append rest) ∙ whole))
IsProperPrefix-Among String.[] (String.◌∷◌ c p) (rest, whole, more) =
    absurd (nil≢cons (sym whole ∙ cons-append c p rest))
IsProperPrefix-Among (String.◌∷◌ d tag) String.[] h = inl refl
IsProperPrefix-Among (String.◌∷◌ d tag) (String.◌∷◌ c p) (rest, whole, more) =
    let same = sym (cons-append c p rest) ∙ whole in
    let head : c ≡ d = head-eq_of_cons-eq same in
    inr (
      subst (λ x. Among (String.◌∷◌ x p) (map (String.◌∷◌ d) (proper_prefixes tag))) (sym head)
        (Among-map d p (proper_prefixes tag)
          (IsProperPrefix-Among tag p (rest, tail-eq_of_cons-eq same, more))))

-- no suffix is longer than one before it
abbrev Descending : List String → Type 0
Descending [] = Unit
Descending (s ∷ suffixes) = All (λ t. char_count t ≤ char_count s) suffixes × Descending suffixes

split_suffixes-whole :
    (suffixes : List String) (text : String)
    → str_append (split_suffixes suffixes text).0 (split_suffixes suffixes text).1 ≡ text
unfolding split_suffixes
split_suffixes-whole [] text = append-nil text
split_suffixes-whole (suffix ∷ suffixes) text = elim (Option-cases (strip_suffix suffix text)) [
  | inr (emit, e) ↦ rw (e, split_suffixes) (strip_suffix_lem suffix text e)
  | inl e ↦ rw (e, split_suffixes) (split_suffixes-whole suffixes text)
]

split_suffixes-kept :
    (P : String → Type 0) (suffixes : List String) (text : String)
    → P ""
    → All P suffixes
    → P (split_suffixes suffixes text).1
unfolding split_suffixes
split_suffixes-kept P [] text bare h = bare
split_suffixes-kept P (suffix ∷ suffixes) text bare h =
    elim (Option-cases (strip_suffix suffix text)) [
      | inr (emit, e) ↦ rw (e, split_suffixes) h.0
      | inl e ↦ rw (e, split_suffixes) (split_suffixes-kept P suffixes text bare h.1)
    ]

-- A suffix that the text ends in is not longer than the one that is kept.
split_suffixes-longest :
    (suffixes : List String) (text front p : String)
    → Descending suffixes
    → Among p suffixes
    → str_append front p ≡ text
    → char_count p ≤ char_count (split_suffixes suffixes text).1
unfolding split_suffixes
split_suffixes-longest [] text front p d a h = elim a [ ]
split_suffixes-longest (suffix ∷ suffixes) text front p d a h =
    elim (Option-cases (strip_suffix suffix text)) [
      | inr (emit, e) ↦
          let bound : char_count p ≤ char_count suffix = elim a [
            | inl same ↦ omega (arith, ap char_count same)
            | inr later ↦ All-at (λ t. char_count t ≤ char_count suffix) suffixes d.0 later
          ] in
          rw (e, split_suffixes) bound
      | inl e ↦
          let bound : char_count p ≤ char_count (split_suffixes suffixes text).1 = elim a [
            | inl same ↦ absurd (
                strip_suffix_found front p
                  (ap (strip_suffix p) h ∙ ap (λ x. strip_suffix x text) same ∙ e))
            | inr later ↦ split_suffixes-longest suffixes text front p d.1 later h
          ] in
          rw (e, split_suffixes) bound
    ]

close_tag_prefixes-Descending : Descending close_tag_prefixes
close_tag_prefixes-Descending = (
  (omega arith, (omega arith, (omega arith, (omega arith, (omega arith, (omega arith, tt)))))),
  (
    (omega arith, (omega arith, (omega arith, (omega arith, (omega arith, tt))))),
    (
      (omega arith, (omega arith, (omega arith, (omega arith, tt)))),
      (
        (omega arith, (omega arith, (omega arith, tt))),
        ((omega arith, (omega arith, tt)), ((omega arith, tt), (tt, tt))),
      ),
    ),
  ),
)

close_tag_prefixes_proper : All (IsProperPrefix think_close_tag) close_tag_prefixes
close_tag_prefixes_proper = (
  (">", refl, λ e. cc),
  (
    ("k>", refl, λ e. cc),
    (
      ("nk>", refl, λ e. cc),
      (
        ("ink>", refl, λ e. cc),
        (("hink>", refl, λ e. cc), (("think>", refl, λ e. cc), (("/think>", refl, λ e. cc), tt))),
      ),
    ),
  ),
)

-- the list has every proper prefix but the empty one
close_tag_prefixes-All :
    All (λ p. (p ≡ "") ⊎ Among p close_tag_prefixes) (proper_prefixes think_close_tag)
close_tag_prefixes-All = (
  inl refl,
  (
    inr (inr (inr (inr (inr (inr (inr (inl refl))))))),
    (
      inr (inr (inr (inr (inr (inr (inl refl)))))),
      (
        inr (inr (inr (inr (inr (inl refl))))),
        (
          inr (inr (inr (inr (inl refl)))),
          (inr (inr (inr (inl refl))), (inr (inr (inl refl)), (inr (inl refl), tt))),
        ),
      ),
    ),
  ),
)

-- The text in two parts, the second of which is the longest proper prefix of the tag, or nothing,
-- that the text ends in.
abbrev pub IsKept : String → String → String × String → Type 0
IsKept tag text (emit, keep) =
    (str_append emit keep ≡ text)
    × IsProperPrefix tag keep
    × ((front p : String)
        → IsProperPrefix tag p
        → str_append front p ≡ text
        → char_count p ≤ char_count keep)

-- `split_incomplete_think_close_suffix` loses nothing: its two parts make up the text. What it keeps
-- back is the longest proper prefix of the closing tag, the empty one among them, that the text ends
-- in.
pub split_incomplete_think_close_suffix_lem :
    (text : String) → IsKept think_close_tag text (split_incomplete_think_close_suffix text)
unfolding split_incomplete_think_close_suffix
split_incomplete_think_close_suffix_lem text = (
  split_suffixes-whole close_tag_prefixes text,
  split_suffixes-kept (IsProperPrefix think_close_tag) close_tag_prefixes text
      (think_close_tag, nil-append think_close_tag, λ e. cc) close_tag_prefixes_proper,
  λ front p prefix ends.
      elim (All-at (λ p. (p ≡ "") ⊎ Among p close_tag_prefixes) (proper_prefixes think_close_tag)
        close_tag_prefixes-All (IsProperPrefix-Among think_close_tag p prefix)) [
          | inl bare ↦ omega (arith, ap char_count bare)
          | inr among ↦
              split_suffixes-longest close_tag_prefixes text front p close_tag_prefixes-Descending
                among ends
        ],
)
