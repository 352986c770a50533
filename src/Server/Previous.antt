-- ===== src/Server/Previous.antt =====
-- src/server.rs, `previous_response`: the stored response that a request continues. A panic in the
-- reading of the input is an error of its own.
pub mod Found
use codex_mimo_adapter.Base.{
  ℕ, String, Bool, true, false, Option, none, some, List, [], ◌∷◌, is_nil, if◌then◌else◌,
}
use codex_mimo_adapter.Base.Int.{ℤ}
use codex_mimo_adapter.Base.Result.{Result, ok, err, map_err, ◌>>=◌, ◌>>◌}
use codex_mimo_adapter.Base.Str.{non_empty, concat, join}
use codex_mimo_adapter.Json.{Value, get_str, and_then}
use codex_mimo_adapter.Host.{Host}
use codex_mimo_adapter.State.{StoredResponse, Payload, Database, get, find_by_call_ids}
use codex_mimo_adapter.History.{ensure_no_duplicate_call_outputs, validate_requested_call_ids}
use codex_mimo_adapter.Request.Defs.{HistoryError, invalid, as_history_error}
use codex_mimo_adapter.Continuation.{function_output_call_ids}

-- the store of a project: its database's format and statements, its time to live and the clock
pub record Store : Type 1 where
  pub payload : Payload
  pub database : Database
  pub ttl_seconds : ℤ
  pub now : ℤ

-- the check of what the store gave for `previous_response_id`
unfoldable pub check_named :
    String → List String → Option StoredResponse → Result HistoryError (Option StoredResponse)
unfolding validate_requested_call_ids
check_named previous_id ids (some previous) = do
  as_history_error (validate_requested_call_ids previous ids)
  ok (some previous)
check_named previous_id [] none = ok none
check_named previous_id (id ∷ ids) none =
    err (invalid (concat ("tool output has no matching stored response: " ∷ previous_id ∷ [])))

-- the check of what the store gave for the call ids
unfoldable pub check_found :
    List String → Option StoredResponse → Result HistoryError (Option StoredResponse)
unfolding validate_requested_call_ids join
check_found ids none =
    err (invalid (concat ("unknown or ambiguous tool call id(s): " ∷ join ", " ids ∷ [])))
check_found ids (some previous) = do
  as_history_error (validate_requested_call_ids previous ids)
  ok (some previous)

module _ (store : Store) (db : store.database.Db) where
  unfoldable pub find_previous :
      Option String → List String → Result HistoryError (Option StoredResponse)
  unfolding get find_by_call_ids check_named check_found
  find_previous (some previous_id) ids = do
    found ←
        map_err invalid
          (get store.payload store.database store.ttl_seconds store.now previous_id db)
    check_named previous_id ids found
  find_previous none [] = ok none
  find_previous none (id ∷ ids) = do
    found ←
        map_err invalid
          (find_by_call_ids store.payload store.database store.ttl_seconds store.now (id ∷ ids) db)
    check_found (id ∷ ids) found

  unfoldable pub previous_response : Host → Value → ℕ → Result HistoryError (Option StoredResponse)
  unfolding function_output_call_ids ensure_no_duplicate_call_outputs get_str find_previous
  previous_response host body drawn = do
    ids ← function_output_call_ids host body drawn
    as_history_error (ensure_no_duplicate_call_outputs ids)
    find_previous (and_then (get_str "previous_response_id" body) non_empty) ids
