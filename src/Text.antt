-- ===== src/Text.antt =====
-- src/conversion/text.rs: text out of JSON values, and the `<think>` block at the head of a text.
pub mod Think
pub mod Kept
use codex_mimo_adapter.Base.{
  String, Bool, true, false, Option, none, some, List, [], ◌∷◌, filter_map, if◌then◌else◌, ◌==◌,
  ◌||◌, num_eq,
}
use mathlib.Core.Option
use codex_mimo_adapter.Base.Str.{
  is_empty, non_empty, trim, trim_start, trim_start_matches, strip_prefix, has_prefix, split_once,
  join,
}
use codex_mimo_adapter.Base.Result.{ok, err}
use codex_mimo_adapter.Json.{
  Value, Items, Map, null, bool, number, string, array, object, nil, cons, empty, entry, get,
  get_str, as_str, as_array, and_then, or_else, unwrap_or, to_list, lookup, Serde,
}

abbrev pub think_open_tag : String
think_open_tag = "<think>"

abbrev pub think_close_tag : String
think_close_tag = "</think>"

abbrev bool_text : Bool → String
bool_text true = "true"
bool_text false = "false"

-- `Some(text)` unless the text is empty, in a row of texts
abbrev pub filled : List String → List String
filled [] = []
filled (String.[] ∷ ts) = filled ts
filled (String.◌∷◌ c t ∷ ts) = String.◌∷◌ c t ∷ filled ts

-- what `as_text` says of an object whose fields `text`, `refusal`, `content` and `output` are these,
-- the last two as texts already
abbrev object_text : Option String → Option String → Option String → Option String → String → String
object_text text refusal content output whole =
    unwrap_or whole (or_else text (or_else refusal (or_else content output)))

module _ (serde : Serde) where
  open serde use {to_string, from_str, number_text}

  unfoldable mutual
    pub as_text : Value → String
    as_text null = ""
    as_text (string s) = s
    as_text (bool b) = bool_text b
    as_text (number n) = number_text n
    as_text (array items) = join "\n" (filled (item_texts items))
    as_text (object m) =
        object_text (and_then (lookup "text" m) as_str) (and_then (lookup "refusal" m) as_str)
          (field_text "content" m) (field_text "output" m) (to_string (object m))

    pub item_texts : Items → List String
    item_texts nil = []
    item_texts (cons item items) = as_text item ∷ item_texts items

    -- `map.get(key)` and `as_text` of what is there
    pub field_text : String → Map → Option String
    field_text k empty = none
    field_text k (entry j v m) =
        let rest = field_text k m in let here = as_text v in if j == k then some here else rest

  unfoldable pub arguments_text : Option Value → String
  arguments_text none = "{}"
  arguments_text (some (string s)) = s
  arguments_text (some v) = to_string v

  unfoldable pub canonicalize_json_string_if_parseable : String → String
  canonicalize_json_string_if_parseable value = elim (from_str value) [
    | ok parsed ↦ to_string parsed
    | err e ↦ value
  ]

-- `for key in [...] { if let Some(text) = value.get(key).as_str().filter(non-empty) ... }`
unfoldable pub first_text : List String → Value → Option String
unfolding get_str
first_text [] v = none
first_text (k ∷ ks) v = or_else (and_then (get_str k v) non_empty) (first_text ks v)

unfoldable mutual
  unfolding first_text lookup

  pub extract_reasoning_detail_part_text : Value → Option String
  extract_reasoning_detail_part_text (object m) =
      or_else (first_text ("text" ∷ "content" ∷ "summary" ∷ []) (object m)) (nested_text m)
  extract_reasoning_detail_part_text _ = none

  -- `value.get("parts")` as an array, its texts joined; `None` if nothing is left
  pub nested_text : Map → Option String
  nested_text empty = none
  nested_text (entry k v m) =
      let rest = nested_text m in let here = parts_text v in if k == "parts" then here else rest

  pub parts_text : Value → Option String
  parts_text (array parts) = non_empty (join "\n\n" (filled (part_texts parts)))
  parts_text _ = none

  pub part_texts : Items → List String
  part_texts nil = []
  part_texts (cons part parts) =
      unwrap_or "" (extract_reasoning_detail_part_text part) ∷ part_texts parts

-- the closure on one part of a list of details: the nested parts are not filtered here, and a
-- joined text that is empty counts as none
unfoldable pub detail_text : Value → Option String
unfolding first_text get extract_reasoning_detail_part_text
detail_text part = or_else (first_text ("text" ∷ "content" ∷ "summary" ∷ []) part) (
    and_then (and_then (get "parts" part) as_array)
      (λ nested. non_empty (join "\n\n" (filter_map extract_reasoning_detail_part_text nested))))

unfoldable pub extract_reasoning_details_text : Value → Option String
unfolding detail_text extract_reasoning_detail_part_text
extract_reasoning_details_text (string text) = non_empty text
extract_reasoning_details_text (array parts) =
    non_empty (join "\n\n" (filter_map detail_text (to_list parts)))
extract_reasoning_details_text (object m) = extract_reasoning_detail_part_text (object m)
extract_reasoning_details_text _ = none

-- step 2 of `reasoning_text`: a text, or an object with one of three texts
unfoldable pub reasoning_field_text : Value → Option String
unfolding first_text
reasoning_field_text (string text) = non_empty text
reasoning_field_text (object m) = first_text ("content" ∷ "text" ∷ "summary" ∷ []) (object m)
reasoning_field_text _ = none

unfoldable pub reasoning_text : Value → Option String
unfolding first_text get reasoning_field_text extract_reasoning_details_text
reasoning_text value = or_else (first_text ("reasoning_content" ∷ "thinking" ∷ []) value) (
    or_else (and_then (get "reasoning" value) reasoning_field_text)
      (and_then (get "reasoning_details" value) extract_reasoning_details_text))

-- `\r`, `\n`, `\t` and the space
unfoldable pub is_separator : Prim.Native.Char.Char → Bool
is_separator ch =
    let c = Prim.Native.Char.code ch in num_eq c 13 || num_eq c 10 || num_eq c 9 || num_eq c 32

unfoldable pub strip_think_answer_separator : String → String
unfolding trim_start_matches is_separator
strip_think_answer_separator = trim_start_matches is_separator

unfoldable pub split_at_think_close : String → Option (String × String)
unfolding split_once strip_think_answer_separator
split_at_think_close text =
    Option.map (λ (before, after). (before, strip_think_answer_separator after))
      (split_once think_close_tag text)

unfoldable pub split_leading_think_block : String → Option (String × String)
unfolding trim_start strip_prefix split_once trim strip_think_answer_separator
split_leading_think_block text = and_then (strip_prefix think_open_tag (trim_start text)) (λ body.
    Option.map (λ (before, after). (trim before, strip_think_answer_separator after))
      (split_once think_close_tag body))

unfoldable pub strip_leading_think_open_tag : String → Option String
unfolding trim_start strip_prefix trim
strip_leading_think_open_tag text = Option.map trim (strip_prefix think_open_tag (trim_start text))

unfoldable pub is_leading_think_prefix : String → Bool
unfolding trim_start strip_prefix
is_leading_think_prefix text =
    let after_ws = trim_start text in is_empty after_ws || has_prefix after_ws think_open_tag

-- `text.ends_with(suffix)` with the text before it
unfoldable pub strip_suffix : String → String → Option String
strip_suffix suffix String.[] = if suffix == "" then some "" else none
strip_suffix suffix (String.◌∷◌ c s) =
    if suffix == String.◌∷◌ c s then some "" else Option.map (String.◌∷◌ c) (strip_suffix suffix s)

-- The loop `for len in (1..THINK_CLOSE_TAG.len()).rev()` over the proper prefixes of the tag.
unfoldable pub split_suffixes : List String → String → String × String
unfolding strip_suffix
split_suffixes [] text = (text, "")
split_suffixes (suffix ∷ suffixes) text = elim (strip_suffix suffix text) [
  | some emit ↦ (emit, suffix)
  | none ↦ split_suffixes suffixes text
]

abbrev pub close_tag_prefixes : List String
close_tag_prefixes = "</think" ∷ "</thin" ∷ "</thi" ∷ "</th" ∷ "</t" ∷ "</" ∷ "<" ∷ []

unfoldable pub split_incomplete_think_close_suffix : String → String × String
unfolding split_suffixes
split_incomplete_think_close_suffix = split_suffixes close_tag_prefixes
