-- ===== src/State.antt =====
-- src/state.rs: stored responses and the store that finds them again. SQLite, the clock and the
-- derived (de)serialisation are not code of the repository: the statements that the store runs are
-- the fields of `Database`, the payload format those of `Payload`, and `now_ts` is an argument.
-- A store value stands for the database file; the mutex makes each method one atomic step.
pub mod Lookup
pub mod RoundTrip
use codex_mimo_adapter.Base.{
  String, Bool, true, false, ◌&&◌, Option, none, some, List, [], ◌∷◌, ◌==◌, if◌then◌else◌, num_eq,
  length, contains, all,
}
use codex_mimo_adapter.Base.Result.{Result, ok, ◌>>=◌}
use codex_mimo_adapter.Base.Int.{ℤ, ◌-ℤ◌, wrap_i64}
use codex_mimo_adapter.Json.{Value}

pub record StoredResponse : Type 0 where
  pub response_id : String
  pub model_alias : String
  pub model_upstream : String
  pub messages : List Value
  pub pending_call_ids : List String
  pub output : List Value
  pub created_at : ℤ
  pub previous_response_id : String

-- `serde_json::to_string` and `from_str` at `StoredResponse`, by the derived implementations
pub record Payload : Type 0 where
  pub encode : StoredResponse → String
  pub decode : String → Result String StoredResponse

-- A row of the table `responses`.
pub record Row : Type 0 where
  pub response_id : String
  pub created_at : ℤ
  pub payload : String

-- The three statements of the store, each of which may fail.
pub record Database : Type 1 where
  pub Db : Type 0
  -- INSERT OR REPLACE INTO responses(response_id, created_at, payload) VALUES(?1, ?2, ?3)
  pub insert_or_replace : Row → Db → Result String Db
  -- SELECT payload FROM responses WHERE response_id=?1 AND created_at>=?2
  pub select_payload : String → ℤ → Db → Result String (Option String)
  -- SELECT payload FROM responses WHERE created_at>=?1 ORDER BY created_at DESC
  pub select_since : ℤ → Db → Result String (List String)

-- `matched_by_call_id`, `unique_response` and `unique_response_id` of `find_by_call_ids`
pub record Scan : Type 0 where
  pub matched_by_call_id : List (String × String)
  pub unique_response : Option StoredResponse
  pub unique_response_id : Option String

-- `HashMap::get` on `matched_by_call_id`
unfoldable pub matched : String → List (String × String) → Option String
matched k [] = none
matched k ((j, v) ∷ m) = if j == k then some v else matched k m

-- A `HashSet` of texts from a list: each text once.
unfoldable pub to_set : List String → List String
to_set [] = []
to_set (x ∷ xs) = let rest = to_set xs in if contains rest x then rest else x ∷ rest

-- `for &call_id in &wanted`: the matches with those of this row, and whether the row had one.
-- `none` is the early `return Ok(None)` on an ambiguous call id.
unfoldable pub scan_wanted :
    StoredResponse
    → List String
    → List (String × String)
    → Bool
    → Option (List (String × String) × Bool)
unfolding matched
scan_wanted item [] m hit = some (m, hit)
scan_wanted item (call_id ∷ wanted) m hit = elim (contains item.pending_call_ids call_id) [
  | false ↦ scan_wanted item wanted m hit
  | true ↦ elim (matched call_id m) [
    | some existing ↦ elim (existing == item.response_id) [
      | true ↦ scan_wanted item wanted m true
      | false ↦ none
    ]
    | none ↦ scan_wanted item wanted ((call_id, item.response_id) ∷ m) true
  ]
]

-- the rest of the loop's body; `none` is again `return Ok(None)`
unfoldable pub note_unique : List String → StoredResponse → Bool → Scan → Option Scan
note_unique wanted item hit s = elim (hit && all (contains item.pending_call_ids) wanted) [
  | false ↦ some s
  | true ↦ elim s.unique_response_id [
    | some existing ↦ elim (existing == item.response_id) [ true ↦ some s | false ↦ none ]
    | none ↦
        some (record s { unique_response = some item; unique_response_id = some item.response_id })
  ]
]

-- one round of `for row in rows`
unfoldable pub scan_row : List String → StoredResponse → Scan → Option Scan
unfolding scan_wanted note_unique
scan_row wanted item s = elim (scan_wanted item wanted s.matched_by_call_id false) [
  | none ↦ none
  | some (m, hit) ↦ note_unique wanted item hit (record s { matched_by_call_id = m })
]

-- behind the loop
unfoldable pub unique_result : List String → Scan → Option StoredResponse
unique_result wanted s =
    if num_eq (length s.matched_by_call_id) (length wanted) then s.unique_response else none

-- `now_ts() - self.ttl_seconds` on `i64` values, with the time to live first
unfoldable pub cutoff : ℤ → ℤ → ℤ
unfolding ◌-ℤ◌ wrap_i64
cutoff ttl_seconds now = wrap_i64 (now -ℤ ttl_seconds)

abbrev pub start : Scan
start = record { matched_by_call_id = []; unique_response = none; unique_response_id = none }

module _ (payload : Payload) where
  -- the loop over the rows: a payload that does not decode ends it with an error
  unfoldable pub scan_rows :
      List String → List String → Scan → Result String (Option StoredResponse)
  unfolding scan_row unique_result
  scan_rows wanted [] s = ok (unique_result wanted s)
  scan_rows wanted (row ∷ rows) s = do
    item ← payload.decode row
    elim (scan_row wanted item s) [ none ↦ ok none | some s' ↦ scan_rows wanted rows s' ]

module _ (payload : Payload) (database : Database) where
  open database use {Db, insert_or_replace, select_payload, select_since}

  -- `StateStore::put`
  unfoldable pub put : StoredResponse → Db → Result String Db
  put item = insert_or_replace (record {
    response_id = item.response_id;
    created_at = item.created_at;
    payload = payload.encode item;
  })

  -- `StateStore::get`, with the time to live and the clock's reading
  unfoldable pub get : ℤ → ℤ → String → Db → Result String (Option StoredResponse)
  unfolding cutoff
  get ttl_seconds now response_id db = do
    found ← select_payload response_id (cutoff ttl_seconds now) db
    elim found [ none ↦ ok none | some text ↦ (do item ← payload.decode text; ok (some item)) ]

  -- `StateStore::find_by_call_ids`
  unfoldable pub find_by_call_ids : ℤ → ℤ → List String → Db → Result String (Option StoredResponse)
  unfolding scan_rows to_set cutoff
  find_by_call_ids ttl_seconds now [] db = ok none
  find_by_call_ids ttl_seconds now (call_id ∷ call_ids) db = do
    rows ← select_since (cutoff ttl_seconds now) db
    scan_rows payload (to_set (call_id ∷ call_ids)) rows start
