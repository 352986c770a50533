-- ===== src/Upstream/Cut.antt =====
-- Where an event stream is cut, read from the left: the first position at which a delimiter stands.
use text.Mathlib.TextLemmas.{nil-append, cons-append}
use codex_mimo_adapter.Base.{
  ℕ, suc, ◌+◌, ◌<◌, String, Char, code, str_append, ◌≡◌, refl, ap, ◌∙◌, arith, Option, none, some,
  num_eq, inl, inr, Bool-cases, Option-cases,
}
use mathlib.Core.Option
use mathlib.Core.Option.{some-injective}
use codex_mimo_adapter.Base.Str.{
  strip_prefix, char_count, take_chars, drop_chars, find, cons_before,
}
use codex_mimo_adapter.Upstream.{nearer, crlf_delimiter, lf_delimiter, next_sse_block_delimiter}

-- The text before the first delimiter, and the text behind it.
unfoldable pub cut : String → Option (String × String)
unfolding strip_prefix
cut String.[] = none
cut (String.◌∷◌ c s) = elim (strip_prefix crlf_delimiter (String.◌∷◌ c s)) [
  | some rest ↦ some ("", rest)
  | none ↦ elim (strip_prefix lf_delimiter (String.◌∷◌ c s)) [
    | some rest ↦ some ("", rest)
    | none ↦ Option.map (cons_before c) (cut s)
  ]
]

strip_prefix-append :
    (p s t : String) {rest : String}
    → strip_prefix p s ≡ some rest
    → strip_prefix p (str_append s t) ≡ some (str_append rest t)
unfolding strip_prefix
strip_prefix-append String.[] s t h = ap (λ x. some (str_append x t)) (some-injective _ _ h)
strip_prefix-append (String.◌∷◌ p ps) String.[] t h = cc
strip_prefix-append (String.◌∷◌ p ps) (String.◌∷◌ c s) t h =
    elim (Bool-cases (num_eq (code p) (code c))) [
      | inl e ↦
          rw (cons-append c s t, e, strip_prefix)
            (strip_prefix-append ps s t (rw (e, strip_prefix) at h))
      | inr e ↦ absurd (cc (rw (e, strip_prefix) at h))
    ]

-- A delimiter of two characters is seen in two characters.
lf_seen :
    (c d : Char) (s t : String)
    → strip_prefix lf_delimiter (String.◌∷◌ c (String.◌∷◌ d s)) ≡ none
    → strip_prefix lf_delimiter (String.◌∷◌ c (String.◌∷◌ d t)) ≡ none
unfolding strip_prefix
lf_seen c d s t h = ground arith

crlf_seen :
    (c d e f : Char) (s t : String)
    → strip_prefix crlf_delimiter (String.◌∷◌ c (String.◌∷◌ d (String.◌∷◌ e (String.◌∷◌ f s))))
      ≡ none
    → strip_prefix crlf_delimiter (String.◌∷◌ c (String.◌∷◌ d (String.◌∷◌ e (String.◌∷◌ f t))))
      ≡ none
unfolding strip_prefix
crlf_seen c d e f s t h = ground arith

-- Two line feeds hold no carriage return.
crlf_not_lf :
    (c d e : Char) (s t : String) {rest : String}
    → strip_prefix lf_delimiter (String.◌∷◌ d (String.◌∷◌ e s)) ≡ some rest
    → strip_prefix crlf_delimiter (String.◌∷◌ c (String.◌∷◌ d (String.◌∷◌ e t))) ≡ none
unfolding strip_prefix
crlf_not_lf c d e s t h = ground arith

lf_no_crlf :
    (c : Char) (s t : String) {rest : String}
    → strip_prefix lf_delimiter (String.◌∷◌ c s) ≡ some rest
    → strip_prefix crlf_delimiter (String.◌∷◌ c t) ≡ none
unfolding strip_prefix
lf_no_crlf c s t h = ground arith

short : (c : Char) → cut (String.◌∷◌ c "") ≡ none
unfolding cut
short c = ground arith

short_crlf : (c d : Char) → strip_prefix crlf_delimiter (String.◌∷◌ c (String.◌∷◌ d "")) ≡ none
unfolding strip_prefix
short_crlf c d = ground arith

-- Where no delimiter stands in front and one stands later, more text puts none in front.
no_crlf :
    (c : Char) (s t : String) {parts : String × String}
    → strip_prefix crlf_delimiter (String.◌∷◌ c s) ≡ none
    → cut s ≡ some parts
    → strip_prefix crlf_delimiter (String.◌∷◌ c (str_append s t)) ≡ none
unfolding cut
no_crlf c String.[] t h found = cc
no_crlf c (String.◌∷◌ d String.[]) t h found = absurd (cc (short d))
no_crlf c (String.◌∷◌ d (String.◌∷◌ e String.[])) t h found =
    rw (cons-append d (String.◌∷◌ e "") t, cons-append e "" t, nil-append t)
      (elim (Option-cases (strip_prefix lf_delimiter (String.◌∷◌ d (String.◌∷◌ e "")))) [
        | inr (rest, two) ↦ crlf_not_lf c d e "" t two
        | inl other ↦ absurd (cc (rw (short_crlf d e, other, short e, cut) at found))
      ])
no_crlf c (String.◌∷◌ d (String.◌∷◌ e (String.◌∷◌ f s))) t h found =
    rw
      (
        cons-append d (String.◌∷◌ e (String.◌∷◌ f s)) t,
        cons-append e (String.◌∷◌ f s) t,
        cons-append f s t,
      )
      (crlf_seen c d e f s (str_append s t) h)

no_lf :
    (c : Char) (s t : String) {parts : String × String}
    → strip_prefix lf_delimiter (String.◌∷◌ c s) ≡ none
    → cut s ≡ some parts
    → strip_prefix lf_delimiter (String.◌∷◌ c (str_append s t)) ≡ none
unfolding cut
no_lf c String.[] t h found = cc
no_lf c (String.◌∷◌ d s) t h found = rw (cons-append d s t) (lf_seen c d s (str_append s t) h)

-- What is behind the first delimiter takes no part in finding it.
pub cut-append :
    (s t : String) {before after : String}
    → cut s ≡ some (before, after)
    → cut (str_append s t) ≡ some (before, str_append after t)
unfolding cut
cut-append String.[] t h = cc
cut-append (String.◌∷◌ c s) t h =
    rw (cons-append c s t) (elim (Option-cases (strip_prefix crlf_delimiter (String.◌∷◌ c s))) [
      | inr (rest, e) ↦
          let e' = strip_prefix-append crlf_delimiter (String.◌∷◌ c s) t e in
          rw ((rw (cons-append c s t) at e'), cut) (ground (arith, (rw (e, cut) at h)))
      | inl e ↦ elim (Option-cases (strip_prefix lf_delimiter (String.◌∷◌ c s))) [
        | inr (rest, e2) ↦
            let e' = strip_prefix-append lf_delimiter (String.◌∷◌ c s) t e2 in
            rw (lf_no_crlf c s (str_append s t) e2, (rw (cons-append c s t) at e'), cut)
              (ground (arith, (rw (e, e2, cut) at h)))
        | inl e2 ↦ elim (Option-cases (cut s)) [
          | inl e3 ↦ absurd (cc (rw (e, e2, e3, cut) at h))
          | inr ((front, back), e3) ↦
              rw (no_crlf c s t e e3, no_lf c s t e2 e3, cut-append s t e3, cut)
                (ground (arith, (rw (e, e2, e3, cut) at h)))
        ]
      ]
    ])

-- The delimiter that is found is the first one, and the text is cut at it.
unfoldable pub pick : String → ℕ × ℕ → String × String
unfolding take_chars drop_chars
pick s (pos, len) = (take_chars pos s, drop_chars (pos + len) s)

strip_prefix-drop_chars :
    (p s : String) {rest : String}
    → strip_prefix p s ≡ some rest
    → drop_chars (char_count p) s ≡ rest
unfolding strip_prefix drop_chars
strip_prefix-drop_chars String.[] s h = some-injective _ _ h
strip_prefix-drop_chars (String.◌∷◌ p ps) String.[] h = cc
strip_prefix-drop_chars (String.◌∷◌ p ps) (String.◌∷◌ c s) h =
    elim (Bool-cases (num_eq (code p) (code c))) [
      | inl e ↦ strip_prefix-drop_chars ps s (rw (e, strip_prefix) at h)
      | inr e ↦ absurd (cc (rw (e, strip_prefix) at h))
    ]

later : ℕ × ℕ → ℕ × ℕ
later (pos, len) = (suc pos, len)

nearer-suc :
    (a b : Option ℕ)
    → nearer (nearer none (Option.map suc a) 4) (Option.map suc b) 2
      ≡ Option.map later (nearer (nearer none a 4) b 2)
unfolding later
nearer-suc none none = refl
nearer-suc (some a) none = refl
nearer-suc none (some b) = refl
nearer-suc (some a) (some b) = ground arith

nearer_zero : (b : Option ℕ) → nearer (some (0, 4)) b 2 ≡ some (0, 4)
nearer_zero none = refl
nearer_zero (some b) = ground arith

nearer_later : (a : Option ℕ) → nearer (nearer none (Option.map suc a) 4) (some 0) 2 ≡ some (0, 2)
nearer_later none = refl
nearer_later (some a) = ground arith

pick-later :
    (c : Char) (s : String) (o : Option (ℕ × ℕ))
    → Option.map (pick (String.◌∷◌ c s)) (Option.map later o)
      ≡ Option.map (cons_before c) (Option.map (pick s) o)
unfolding pick later
pick-later c s none = refl
pick-later c s (some (pos, len)) =
    let e : suc pos + len ≡ suc (pos + len) = omega arith in rw e refl

pub next_sse_block_delimiter-cut :
    (s : String) → Option.map (pick s) (next_sse_block_delimiter s) ≡ cut s
unfolding next_sse_block_delimiter cut pick
next_sse_block_delimiter-cut String.[] = refl
next_sse_block_delimiter-cut (String.◌∷◌ c s) =
    elim (Option-cases (strip_prefix crlf_delimiter (String.◌∷◌ c s))) [
      | inr (rest, e) ↦
          rw (e, find, cut)
            (rw (nearer_zero _)
              (ground (arith, strip_prefix-drop_chars crlf_delimiter (String.◌∷◌ c s) e)))
      | inl e ↦ elim (Option-cases (strip_prefix lf_delimiter (String.◌∷◌ c s))) [
        | inr (rest, e2) ↦
            rw (e, e2, find, cut)
              (rw (nearer_later (find crlf_delimiter s))
                (ground (arith, strip_prefix-drop_chars lf_delimiter (String.◌∷◌ c s) e2)))
        | inl e2 ↦
            rw (e, e2, find, cut)
              (rw (nearer-suc (find crlf_delimiter s) (find lf_delimiter s)) (
                pick-later c s (next_sse_block_delimiter s)
                ∙ ap (Option.map (cons_before c)) (next_sse_block_delimiter-cut s)))
      ]
    ]

strip_prefix_shorter :
    (p s : String) {rest : String}
    → strip_prefix p s ≡ some rest
    → char_count rest + char_count p ≡ char_count s
unfolding strip_prefix
strip_prefix_shorter String.[] s h = let e = some-injective _ _ h in rw e (omega arith)
strip_prefix_shorter (String.◌∷◌ p ps) String.[] h = cc
strip_prefix_shorter (String.◌∷◌ p ps) (String.◌∷◌ c s) h =
    elim (Bool-cases (num_eq (code p) (code c))) [
      | inl e ↦ omega (arith, strip_prefix_shorter ps s (rw (e, strip_prefix) at h))
      | inr e ↦ absurd (cc (rw (e, strip_prefix) at h))
    ]

-- A delimiter takes at least a character off the buffer.
pub cut_shorter :
    (s : String) {before after : String}
    → cut s ≡ some (before, after)
    → char_count after < char_count s
unfolding cut
cut_shorter String.[] h = cc
cut_shorter (String.◌∷◌ c s) h =
    elim (Option-cases (strip_prefix crlf_delimiter (String.◌∷◌ c s))) [
      | inr (rest, e) ↦
          ground (arith, (rw (e, cut) at h), strip_prefix_shorter crlf_delimiter (String.◌∷◌ c s) e)
      | inl e ↦ elim (Option-cases (strip_prefix lf_delimiter (String.◌∷◌ c s))) [
        | inr (rest, e2) ↦
            ground
              (arith, (rw (e, e2, cut) at h), strip_prefix_shorter lf_delimiter (String.◌∷◌ c s) e2)
        | inl e2 ↦ elim (Option-cases (cut s)) [
          | inl e3 ↦ absurd (cc (rw (e, e2, e3, cut) at h))
          | inr ((front, back), e3) ↦ ground (arith, (rw (e, e2, e3, cut) at h), cut_shorter s e3)
        ]
      ]
    ]
