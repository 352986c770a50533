-- ===== src/Init/EnvFile/Readable.antt =====
-- What the setup writes to an env file, `parse_env_text` reads.
use text.Mathlib.TextLemmas.{nil-append, cons-append, append_assoc}
use codex_mimo_adapter.Base.{
  ℕ, suc, String, Char, code, str_append, ◌≡◌, refl, sym, ap, ◌∙◌, arith, Bool, true, false, not,
  ◌&&◌, ◌||◌, Option, none, some, List, [], ◌∷◌, num_eq, inl, inr, All, str-cases,
}
use codex_mimo_adapter.Base.Assoc.{get, insert, get-insert}
use codex_mimo_adapter.Base.Decimal.{AllChars, AllChars-append}
use codex_mimo_adapter.Base.Result.{ok}
use codex_mimo_adapter.Base.Str.{
  lines, trim, trim_start, trim_start_matches, trim_end, cons_trimmed, is_whitespace, is_empty,
  has_prefix, strip_prefix, split_once,
}
use codex_mimo_adapter.Config.{Env}
use codex_mimo_adapter.Project.EnvText.{
  setting, read_setting, read_line, parse_lines, parse_env_text,
}
use codex_mimo_adapter.Init.EnvFile.{env_lines}

-- no whitespace, and so no line break
abbrev pub visible : Char → Bool
visible c = not (is_whitespace c)

-- a character of a key
abbrev pub key_char : Char → Bool
key_char c = visible c && (not (num_eq (code c) b'=') && not (num_eq (code c) b'#'))

not_whitespace : (c : Char) → visible c ≡ true → is_whitespace c ≡ false
not_whitespace c h = ground (arith, h)

cons_trimmed-visible :
    (c : Char) (s : String) → visible c ≡ true → cons_trimmed c s ≡ String.◌∷◌ c s
cons_trimmed-visible c String.[] h = rw (cons_trimmed, not_whitespace c h) refl
cons_trimmed-visible c (String.◌∷◌ d s) h = refl

trim_end-visible : (s : String) → AllChars visible s → trim_end s ≡ s
unfolding trim_end
trim_end-visible String.[] h = refl
trim_end-visible (String.◌∷◌ c s) h = rw (trim_end-visible s h.1) (cons_trimmed-visible c s h.0)

trim-visible : (s : String) → AllChars visible s → trim s ≡ s
unfolding trim trim_start trim_start_matches trim_end
trim-visible String.[] h = refl
trim-visible (String.◌∷◌ c s) h =
    rw (trim_start_matches, not_whitespace c h.0) (trim_end-visible (String.◌∷◌ c s) h)

-- a line break ends a text without whitespace
not_break :
    (c : Char) → visible c ≡ true → (num_eq (code c) 10 ≡ false) × (num_eq (code c) 13 ≡ false)
unfolding is_whitespace
not_break c h = (ground (arith, h), ground (arith, h))

lines_line :
    (line rest : String)
    → AllChars visible line
    → lines (str_append line (String.◌∷◌ "\n" rest)) ≡ line ∷ lines rest
unfolding lines
lines_line String.[] rest h = rw (nil-append (String.◌∷◌ "\n" rest)) refl
lines_line (String.◌∷◌ c line) rest h =
    rw (cons-append c line (String.◌∷◌ "\n" rest))
      (rw ((not_break c h.0).0, (not_break c h.0).1, lines_line line rest h.1) refl)

split_key :
    (key value : String)
    → AllChars key_char key
    → split_once "=" (str_append key (String.◌∷◌ "=" value)) ≡ some (key, value)
unfolding split_once strip_prefix
split_key String.[] value h = rw (nil-append (String.◌∷◌ "=" value)) refl
split_key (String.◌∷◌ c key) value h =
    let other : strip_prefix "=" (String.◌∷◌ c (str_append key (String.◌∷◌ "=" value))) ≡ none =
      ground (arith, h.0) in
    rw (cons-append c key (String.◌∷◌ "=" value), other, split_once)
      (rw (split_key key value h.1) refl)

-- a setting that can be read back: a key that is not empty, and no whitespace
abbrev pub IsReadable : String × String → Type 0
IsReadable (key, value) = (is_empty key ≡ false) × AllChars key_char key × AllChars visible value

key_visible : (key : String) → AllChars key_char key → AllChars visible key
key_visible String.[] h = tt
key_visible (String.◌∷◌ c key) h = (ground (arith, h.0), key_visible key h.1)

no_comment :
    (key rest : String)
    → is_empty key ≡ false
    → AllChars key_char key
    → is_empty (str_append key rest) || has_prefix "#" (str_append key rest) ≡ false
unfolding strip_prefix
no_comment String.[] rest e h = absurd (cc)
no_comment (String.◌∷◌ c key) rest e h = rw (cons-append c key rest) (ground (arith, h.0))

read_readable :
    (key value : String)
    → IsReadable (key, value)
    → read_line (str_append key (String.◌∷◌ "=" value)) ≡ setting key value
unfolding read_line
read_readable key value (filled, on_key, on_value) =
    let line_visible : AllChars visible (str_append key (String.◌∷◌ "=" value)) =
      AllChars-append visible key (String.◌∷◌ "=" value) (key_visible key on_key)
        (refl, on_value) in
    rw
      (
        trim-visible (str_append key (String.◌∷◌ "=" value)) line_visible,
        no_comment key (String.◌∷◌ "=" value) filled on_key,
        split_key key value on_key,
        read_setting,
        trim-visible key (key_visible key on_key),
        trim-visible value on_value,
      )
      refl

-- the settings one after the other
abbrev pub collected : Env → Env → Env
collected [] values = values
collected ((key, value) ∷ settings) values = collected settings (insert key value values)

line_shape :
    (key value rest : String)
    → str_append key (String.◌∷◌ "=" (str_append value rest))
      ≡ str_append (str_append key (String.◌∷◌ "=" value)) rest
line_shape key value rest = sym (
    append_assoc key (String.◌∷◌ "=" value) rest ∙ ap (str_append key) (cons-append "=" value rest))

parse_readable :
    (index : ℕ) (key value : String) (rest : List String) (values : Env)
    → IsReadable (key, value)
    → parse_lines index (str_append key (String.◌∷◌ "=" value) ∷ rest) values
      ≡ parse_lines (suc index) rest (insert key value values)
unfolding parse_lines
parse_readable index key value rest values h = rw (parse_lines, read_readable key value h) refl

parse_settings :
    (index : ℕ) (settings values : Env)
    → All IsReadable settings
    → parse_lines index (lines (env_lines settings)) values ≡ ok (collected settings values)
unfolding parse_lines env_lines lines
parse_settings index [] values h = refl
parse_settings index ((key, value) ∷ settings) values ((filled, on_key, on_value), h) =
    let line = str_append key (String.◌∷◌ "=" value) in
    let rest = env_lines settings in
    let line_visible : AllChars visible line =
      AllChars-append visible key (String.◌∷◌ "=" value) (key_visible key on_key)
        (refl, on_value) in
    ap (λ text. parse_lines index (lines text) values) (line_shape key value (String.◌∷◌ "\n" rest))
    ∙ ap (λ read. parse_lines index read values) (lines_line line rest line_visible)
    ∙ parse_readable index key value (lines rest) values (filled, on_key, on_value)
    ∙ parse_settings (suc index) settings (insert key value values) h

-- no key is set twice
abbrev pub IsDistinct : Env → Type 0
IsDistinct [] = Unit
IsDistinct ((key, value) ∷ settings) = (get key settings ≡ none) × IsDistinct settings

abbrev first_of : Option String → Option String → Option String
first_of none b = b
first_of (some a) b = some a

first_of-none : (a : Option String) → first_of a none ≡ a
first_of-none none = refl
first_of-none (some a) = refl

get-collected :
    (k : String) (settings values : Env)
    → IsDistinct settings
    → get k (collected settings values) ≡ first_of (get k settings) (get k values)
unfolding get
get-collected k [] values h = refl
get-collected k ((key, value) ∷ settings) values (new, h) =
    get-collected k settings (insert key value values) h
    ∙ ap (first_of (get k settings)) (get-insert key k value values)
    ∙ elim (str-cases key k) [
      | inl (e, test) ↦ rw (test, ap (λ x. get x settings) (sym e) ∙ new) refl
      | inr (other, test) ↦ rw test refl
    ]

-- What the setup writes for settings that no key is twice among, is read back: where no key is
-- empty or has `=`, `#` or whitespace in it, and no value whitespace, every key has its value.
pub parse_env_text-env_lines :
    (settings : Env)
    → All IsReadable settings
    → IsDistinct settings
    → (env : Env) × (parse_env_text (env_lines settings) ≡ ok env)
      × ((key : String) → get key env ≡ get key settings)
unfolding parse_env_text parse_lines lines get
parse_env_text-env_lines settings readable distinct = (
  collected settings [],
  parse_settings 0 settings [] readable,
  λ key. get-collected key settings [] distinct ∙ first_of-none (get key settings),
)
