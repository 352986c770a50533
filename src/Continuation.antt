-- ===== src/Continuation.antt =====
-- src/conversion/mod.rs: the call ids of a request for which a stored response has to be found.

use codex_mimo_adapter.Base.{
  ℕ, String, Bool, true, false, ◌||◌, Option, none, some, List, [], ◌∷◌, ◌++◌, all, contains,
  is_nil, if◌then◌else◌,
}
use codex_mimo_adapter.Base.Result.{Result, ok, ◌>>=◌}
use codex_mimo_adapter.Base.Str.{non_empty, is_some}
use codex_mimo_adapter.Host.{Host}
use codex_mimo_adapter.Json.{
  Value, Items, Map, null, bool, number, string, array, object, nil, cons, get, get_str, as_str,
  and_then, or_else, unwrap_or, lookup,
}
use codex_mimo_adapter.Request.Defs.{HistoryError, output_call_ids}
use codex_mimo_adapter.Request.Items.{extract_request, is_call_kind}

-- the id of an object that is a tool call
unfoldable pub call_id_of_object : Map → List String
unfolding lookup
call_id_of_object obj =
    let kind = unwrap_or "" (and_then (lookup "type" obj) as_str) in
    let id =
      and_then (and_then (or_else (lookup "call_id" obj) (lookup "id" obj)) as_str) non_empty in
    if is_call_kind kind then elim id [ none ↦ [] | some call_id ↦ call_id ∷ [] ] else []

-- `collect_tool_call_ids`, the set as a list: the members are what is asked for
unfoldable mutual
  unfolding call_id_of_object

  pub collect_tool_call_ids : Value → List String
  collect_tool_call_ids (array items) = collect_items items
  collect_tool_call_ids (object obj) = call_id_of_object obj
  collect_tool_call_ids null = []
  collect_tool_call_ids (bool b) = []
  collect_tool_call_ids (number n) = []
  collect_tool_call_ids (string s) = []

  pub collect_items : Items → List String
  collect_items nil = []
  collect_items (cons item items) = collect_tool_call_ids item ++ collect_items items

abbrev pub contains_all : Option Value → List String → Bool
unfolding collect_tool_call_ids
contains_all none ids = false
contains_all (some input) ids = all (contains (collect_tool_call_ids input)) ids

unfoldable pub input_contains_all_tool_calls : Value → List String → Bool
unfolding get collect_tool_call_ids
input_contains_all_tool_calls body ids = contains_all (get "input" body) ids

unfoldable pub has_previous_response_id : Value → Bool
unfolding get_str
has_previous_response_id body = is_some (and_then (get_str "previous_response_id" body) non_empty)

-- `responses_to_chat::function_output_call_ids`
unfoldable pub all_output_call_ids : Host → Value → ℕ → Result HistoryError (List String)
unfolding extract_request output_call_ids
all_output_call_ids host body drawn = do
  (messages, outputs, drawn') ← extract_request host body drawn
  ok (output_call_ids outputs)

-- the ids, unless the input answers them all by itself
abbrev pub unless_stateless : Bool → Bool → List String → List String
unless_stateless true stateless ids = ids
unless_stateless false stateless ids = if stateless then [] else ids

-- `function_output_call_ids`
unfoldable pub function_output_call_ids : Host → Value → ℕ → Result HistoryError (List String)
unfolding all_output_call_ids has_previous_response_id input_contains_all_tool_calls
function_output_call_ids host body drawn = do
  ids ← all_output_call_ids host body drawn
  let direct = is_nil ids || has_previous_response_id body
  ok (unless_stateless direct (input_contains_all_tool_calls body ids) ids)
