-- ===== src/Server/Previous/Found.antt =====
-- What `previous_response` gives fits the request.
use codex_mimo_adapter.Base.{
  ℕ, String, ◌≡◌, refl, Option, none, some, List, [], ◌∷◌, Distinct, Inside,
}
use mathlib.Core.Path.{subst}
use codex_mimo_adapter.Base.Result.{ok, err, map_err, ◌>>◌, >>=-eq-ok, ok_injective}
use codex_mimo_adapter.Base.Str.{non_empty}
use codex_mimo_adapter.Json.{Value, get_str, and_then}
use codex_mimo_adapter.Host.{Host}
use codex_mimo_adapter.State.{StoredResponse, get, find_by_call_ids}
use codex_mimo_adapter.History.{
  HistoryResult, ensure_no_duplicate_call_outputs, validate_requested_call_ids,
}
use codex_mimo_adapter.History.Ids.{
  ensure_no_duplicate_call_outputs_iff, validate_requested_call_ids_iff,
}
use codex_mimo_adapter.Request.Defs.{invalid, as_history_error}
use codex_mimo_adapter.Continuation.{function_output_call_ids}
use codex_mimo_adapter.Server.Previous.{
  Store, check_named, check_found, find_previous, previous_response,
}

-- Every output answers a call that the response left pending; with no response there is none.
abbrev pub Answers : List String → Option StoredResponse → Type 0
Answers ids none = ids ≡ []
Answers ids (some previous) = Inside previous.pending_call_ids ids

as_history_error-eq-ok : (r : HistoryResult (Unit {0})) → as_history_error r ≡ ok tt → r ≡ ok tt
as_history_error-eq-ok (ok done) h = refl
as_history_error-eq-ok (err e) h = cc

validated :
    (ids : List String) (previous : StoredResponse) {found : Option StoredResponse}
    → (as_history_error (validate_requested_call_ids previous ids) >> ok (some previous)) ≡ ok found
    → Answers ids found
validated ids previous h =
    let (done, checked, same) =
      >>=-eq-ok (as_history_error (validate_requested_call_ids previous ids)) _ h in
    let accepted =
      (validate_requested_call_ids_iff previous ids).0 (as_history_error-eq-ok _ checked) in
    subst (Answers ids) (ok_injective same) accepted.1

check_named-Answers :
    (previous_id : String) (ids : List String) (found : Option StoredResponse)
    {result : Option StoredResponse}
    → check_named previous_id ids found ≡ ok result
    → Answers ids result
unfolding check_named
check_named-Answers previous_id ids (some previous) h = validated ids previous h
check_named-Answers previous_id [] none h = subst (Answers []) (ok_injective h) refl
check_named-Answers previous_id (id ∷ ids) none h = cc

check_found-Answers :
    (ids : List String) (found : Option StoredResponse) {result : Option StoredResponse}
    → check_found ids found ≡ ok result
    → Answers ids result
unfolding check_found
check_found-Answers ids none h = cc
check_found-Answers ids (some previous) h = validated ids previous h

module _ (store : Store) (db : store.database.Db) where
  find_previous-Answers :
      (named : Option String) (ids : List String) {found : Option StoredResponse}
      → find_previous store db named ids ≡ ok found
      → Answers ids found
  unfolding find_previous
  find_previous-Answers (some previous_id) ids h =
      let (found, is_found, checked) =
        >>=-eq-ok
          (map_err invalid
            (get store.payload store.database store.ttl_seconds store.now previous_id db))
          _ h in
      check_named-Answers previous_id ids found checked
  find_previous-Answers none [] h = subst (Answers []) (ok_injective h) refl
  find_previous-Answers none (id ∷ ids) h =
      let (found, is_found, checked) =
        >>=-eq-ok
          (map_err invalid (
            find_by_call_ids store.payload store.database store.ttl_seconds store.now (id ∷ ids)
              db))
          _ h in
      check_found-Answers (id ∷ ids) found checked

  -- Where `previous_response` succeeds: the call ids of the request's outputs, but for those that
  -- the input answers by itself, all differ, and the response that it gives left each of them
  -- pending; where it gives none there is no such id.
  pub previous_response-Answers :
      (host : Host) (body : Value) (drawn : ℕ) {found : Option StoredResponse}
      → previous_response store db host body drawn ≡ ok found
      → (ids : List String) × (function_output_call_ids host body drawn ≡ ok ids)
        × Distinct ids
        × Answers ids found
  unfolding previous_response
  previous_response-Answers host body drawn h =
      let (ids, is_ids, h1) = >>=-eq-ok (function_output_call_ids host body drawn) _ h in
      let (done, distinct, h2) =
        >>=-eq-ok (as_history_error (ensure_no_duplicate_call_outputs ids)) _ h1 in
      (
        ids,
        is_ids,
        (ensure_no_duplicate_call_outputs_iff ids).0 (as_history_error-eq-ok _ distinct),
        find_previous-Answers (and_then (get_str "previous_response_id" body) non_empty) ids h2,
      )
