-- ===== src/MediaGuard.antt =====
-- src/media_guard.rs: media in a payload, and the models that are known to take text only.
use Prim.Native.String.{char_at}
use codex_mimo_adapter.Base.{
  ℕ, String, Char, code, Bool, true, false, not, ◌&&◌, ◌||◌, Option, none, some, List, [], ◌∷◌,
  ◌++◌, if◌then◌else◌, leb, zero, suc, ◌-◌, ◌≡◌, refl, any, contains,
}
use codex_mimo_adapter.Base.Str.{
  char_count, is_empty, trim, strip_prefix, contains_str, split_once, join, concat,
}
use codex_mimo_adapter.Json.{
  Value, Items, Map, array, object, nil, cons, empty, entry, get_str, unwrap_or,
}

pub record MultimodalUsage : Type 0 where
  pub image : Bool
  pub file : Bool
  pub audio : Bool

-- `MultimodalUsage::default`
abbrev pub no_usage : MultimodalUsage
no_usage = record { image = false; file = false; audio = false }

abbrev pub uses_any : MultimodalUsage → Bool
uses_any u = u.image || u.file || u.audio

unfoldable pub labels : MultimodalUsage → List String
labels u =
    (if u.image then "image" ∷ [] else [])
    ++ (if u.file then "file" ∷ [] else [])
    ++ (if u.audio then "audio" ∷ [] else [])

-- the match on the type of one object
unfoldable pub note_kind : String → MultimodalUsage → MultimodalUsage
note_kind kind u =
    if contains ("image" ∷ "image_url" ∷ "input_image" ∷ []) kind
    then record u { image = true }
    else if contains ("file" ∷ "input_file" ∷ []) kind
    then record u { file = true }
    else if contains ("audio" ∷ "input_audio" ∷ []) kind
    then record u { audio = true }
    else u

unfoldable mutual
  unfolding note_kind get_str

  pub scan_value : Value → MultimodalUsage → MultimodalUsage
  scan_value (array items) u = scan_items items u
  scan_value (object m) u = scan_values m (note_kind (unwrap_or "" (get_str "type" (object m))) u)
  scan_value _ u = u

  pub scan_items : Items → MultimodalUsage → MultimodalUsage
  scan_items nil u = u
  scan_items (cons item items) u = scan_items items (scan_value item u)

  pub scan_values : Map → MultimodalUsage → MultimodalUsage
  scan_values empty u = u
  scan_values (entry k v m) u = scan_values m (scan_value v u)

unfoldable pub detect_multimodal_usage : Value → MultimodalUsage
unfolding scan_value
detect_multimodal_usage value = scan_value value no_usage

abbrev lower_letters : String
lower_letters = "abcdefghijklmnopqrstuvwxyz"

-- `char::to_ascii_lowercase`, on the letters that it changes
unfoldable pub lower : Char → Char
lower c =
    if leb b'A' (code c) && leb (code c) b'Z' then char_at lower_letters (code c - b'A') else c

-- `to_ascii_lowercase`
unfoldable pub to_ascii_lowercase : String → String
unfolding lower
to_ascii_lowercase String.[] = ""
to_ascii_lowercase (String.◌∷◌ c s) = String.◌∷◌ (lower c) (to_ascii_lowercase s)

-- `trim_start_matches` with a text takes it off as often as it stands there. Each round takes off
-- at least one character, so the characters of the text are enough rounds.
unfoldable pub strip_all : ℕ → String → String → String
unfolding strip_prefix
strip_all zero prefix text = text
strip_all (suc fuel) prefix text = elim (strip_prefix prefix text) [
  | none ↦ text
  | some rest ↦ strip_all fuel prefix rest
]

unfoldable pub normalize_model : String → String
unfolding trim strip_all to_ascii_lowercase
normalize_model model =
    let trimmed = trim model in to_ascii_lowercase (strip_all (char_count trimmed) "mimo/" trimmed)

abbrev pub contains_any : String → List String → Bool
contains_any value needles = any (λ needle. contains_str needle value) needles

unfoldable pub is_known_text_only_model : String → Bool
unfolding normalize_model split_once
is_known_text_only_model model =
    let normalized = normalize_model model in
    if is_empty normalized
    then false
    else if contains_any normalized ("vision" ∷ "multimodal" ∷ "qwen-vl" ∷ "glm-v" ∷ "kimi-vl" ∷ [])
    then false
    else contains ("deepseek-v3" ∷ "deepseek-r1" ∷ []) normalized
      || contains_str "deepseek-v4-pro" normalized
      || contains_str "deepseek-v4-flash" normalized

unfoldable pub is_multimodal_unsupported_error : String → Bool
unfolding to_ascii_lowercase split_once
is_multimodal_unsupported_error message =
    let normalized = to_ascii_lowercase message in
    contains_str "unknown variant image_url" normalized
    || (contains_str "image_url" normalized && contains_str "expected text" normalized)
    || contains_str "does not support image" normalized
    || contains_str "doesn't support image" normalized
    || contains_str "image input is not supported" normalized
    || contains_str "vision not supported" normalized
    || (contains_str "does not support" normalized && contains_str "vision" normalized)
    || (contains_str "multimodal" normalized && contains_str "not supported" normalized)

abbrev pub unsupported_multimodal_error_message : String
unsupported_multimodal_error_message =
    "The selected upstream model does not support multimodal input. Use a vision-capable model or remove image/file/audio content."

unfoldable pub unsupported_multimodal_message : String → MultimodalUsage → String
unfolding labels
unsupported_multimodal_message model usage = concat (
    "The selected upstream model `"
    ∷ model
    ∷ "` does not support "
    ∷ join "/" (labels usage)
    ∷ " input. Use a multimodal model or remove the media content."
    ∷ [])

unfoldable pub find_unsupported_multimodal_input : String → Value → Option String
unfolding detect_multimodal_usage is_known_text_only_model unsupported_multimodal_message
find_unsupported_multimodal_input model payload =
    let usage = detect_multimodal_usage payload in
    if not (uses_any usage) || not (is_known_text_only_model model)
    then none
    else some (unsupported_multimodal_message model usage)

known_text_only : is_known_text_only_model "  MIMO/x mimo/mimo/DeepSeek-V4-Pro" ≡ true
unfolding is_known_text_only_model
known_text_only = refl
