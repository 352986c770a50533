-- ===== src/Multimodal.antt =====
-- src/conversion/multimodal_input.rs: Responses content parts turned into chat content parts.
use codex_mimo_adapter.Base.{
  String, Bool, ◌||◌, Option, none, some, List, [], ◌∷◌, ◌==◌, if◌then◌else◌, filter_map, is_nil,
  contains,
}
use mathlib.Core.Option
use codex_mimo_adapter.Base.Str.{is_some, non_empty, concat}
use codex_mimo_adapter.Json.{
  Value, Map, string, array, object, empty, obj, arr, get, get_str, as_str, as_object, and_then,
  or_else, unwrap_or, to_list, lookup, insert, remove, is_object, is_empty_map, fields,
}

unfoldable pub text_from_part : Value → String
unfolding get
text_from_part part =
    unwrap_or "" (and_then (or_else (get "text" part) (get "content" part)) as_str)

unfoldable pub source_image_to_data_url : Value → Option Value
unfolding get_str fields
source_image_to_data_url part = and_then (and_then (get "source" part) as_object) (λ source.
    let kind = get_str "type" (object source) in
    let found = and_then (get_str "data" (object source)) non_empty in
    let media_type =
      unwrap_or "image/png" (and_then (get_str "media_type" (object source)) non_empty) in
    and_then kind (λ source_type.
      if source_type == "base64"
      then Option.map
          (λ text. obj (
            ("url", string (concat ("data:" ∷ media_type ∷ ";" ∷ "base" ∷ "64," ∷ text ∷ [])))
            ∷ []))
          found
      else none))

-- an object as it is, anything else under the key `url`
abbrev pub url_object : Value → Value
url_object v = if is_object v then v else obj (("url", v) ∷ [])

unfoldable pub image_url_object_from_part : Value → Option Value
unfolding get source_image_to_data_url fields
image_url_object_from_part part = elim (get "image_url" part) [
  | some image_url ↦ some (url_object image_url)
  | none ↦ elim (get "url" part) [
    | some url ↦ some (url_object url)
    | none ↦ source_image_to_data_url part
  ]
]

-- the loop over the four keys of a file
unfoldable pub file_fields : List String → Map → Value → Map → Map
unfolding get insert
file_fields [] source part file = file
file_fields (key ∷ keys) source part file =
    let file' : Map = elim (or_else (lookup key source) (get key part)) [
      | some value ↦ insert key value file
      | none ↦ file
    ] in
    file_fields keys source part file'

-- `(!file.is_empty()).then(...)`
abbrev non_empty_map : Map → Option Value
non_empty_map m = if is_empty_map m then none else some (object m)

unfoldable pub responses_input_file_to_chat_file : Value → Option Value
unfolding get file_fields
responses_input_file_to_chat_file part =
    and_then (as_object (unwrap_or part (get "file" part))) (λ source.
      if is_some (lookup "file_data" source)
        || is_some (lookup "file_id" source)
        || is_some (get "file_data" part)
        || is_some (get "file_id" part)
      then non_empty_map
          (file_fields ("file_id" ∷ "file_data" ∷ "filename" ∷ "mime_type" ∷ []) source part empty)
      else none)

unfoldable pub responses_input_audio_to_chat_audio : Value → Option Value
unfolding get remove
responses_input_audio_to_chat_audio part = elim (get "input_audio" part) [
  | some input_audio ↦ some input_audio
  | none ↦ and_then (as_object part) (λ m.
      if is_some (lookup "data" m) || is_some (lookup "format" m)
      then some (object (remove "type" m))
      else none)
]

-- `json!({"type": kind, field: value})`
abbrev part_of : String → String → Value → Value
part_of kind field value = obj (("type", string kind) ∷ (field, value) ∷ [])

unfoldable pub image_to_chat_content_part : Value → Option Value
unfolding image_url_object_from_part fields
image_to_chat_content_part part =
    Option.map (part_of "image_url" "image_url") (image_url_object_from_part part)

unfoldable pub file_to_chat_content_part : Value → Option Value
unfolding responses_input_file_to_chat_file fields
file_to_chat_content_part part =
    Option.map (part_of "file" "file") (responses_input_file_to_chat_file part)

unfoldable pub audio_to_chat_content_part : Value → Option Value
unfolding responses_input_audio_to_chat_audio fields
audio_to_chat_content_part part =
    Option.map (part_of "input_audio" "input_audio") (responses_input_audio_to_chat_audio part)

abbrev pub is_text_kind : String → Bool
is_text_kind kind = contains ("input_text" ∷ "output_text" ∷ "text" ∷ []) kind

abbrev pub is_image_kind : String → Bool
is_image_kind kind = contains ("input_image" ∷ "image" ∷ []) kind

unfoldable pub response_content_part_to_chat_part : Value → Option Value
unfolding get_str text_from_part image_to_chat_content_part file_to_chat_content_part
    audio_to_chat_content_part fields
response_content_part_to_chat_part (string text) = some (part_of "text" "text" (string text))
response_content_part_to_chat_part (object m) =
    let part = object m in
    let kind = unwrap_or "" (get_str "type" part) in
    if is_text_kind kind
    then some (part_of "text" "text" (string (text_from_part part)))
    else if is_image_kind kind
    then image_to_chat_content_part part
    else if kind == "input_file"
    then file_to_chat_content_part part
    else if kind == "input_audio"
    then audio_to_chat_content_part part
    else none
response_content_part_to_chat_part _ = none

-- `(!chat_parts.is_empty()).then(...)`
abbrev non_empty_array : List Value → Option Value
non_empty_array parts = if is_nil parts then none else some (arr parts)

unfoldable pub chat_content_from_response_content : Value → Option Value
unfolding response_content_part_to_chat_part
chat_content_from_response_content (string text) = some (string text)
chat_content_from_response_content (array parts) =
    non_empty_array (filter_map response_content_part_to_chat_part (to_list parts))
chat_content_from_response_content (object m) =
    Option.map (λ part. arr (part ∷ [])) (response_content_part_to_chat_part (object m))
chat_content_from_response_content _ = none
