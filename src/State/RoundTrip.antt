-- ===== src/State/RoundTrip.antt =====
-- `put`, and what `get` returns behind it.
use codex_mimo_adapter.Base.{
  String, ◌≡◌, refl, none, some, ◌==◌, if◌then◌else◌, Bool-cases, inl, inr,
}
use codex_mimo_adapter.Base.Int.{ℤ, leb_ℤ, ◌-ℤ◌, wrap_i64}
use codex_mimo_adapter.Base.Result.{ok}
use codex_mimo_adapter.State.{StoredResponse, Payload, Row, Database, put, get, cutoff}

-- What SQLite documents of INSERT OR REPLACE on a primary key, as a later SELECT by key sees it.
pub record IsTable (database : Database) : Type 0 where
  pub selects :
      (row : Row) (db : database.Db) {db' : database.Db} (response_id : String) (since : ℤ)
      → database.insert_or_replace row db ≡ ok db'
      → database.select_payload response_id since db' ≡ (
          if response_id == row.response_id
          then ok (if leb_ℤ since row.created_at then some row.payload else none)
          else database.select_payload response_id since db)

-- Behind a successful `put`, `get` with the id of the stored response returns that response if it is
-- not older than the cutoff, which is the time less the time to live in 64 bits, and nothing if it
-- is; with any other id it returns what it returned before. The payload format has to restore the
-- stored response, and the database to behave as a table with a primary key.
pub get-put :
    (payload : Payload) (database : Database)
    → IsTable database
    → (ttl_seconds now : ℤ) (item : StoredResponse) (db : database.Db) {db' : database.Db}
    → payload.decode (payload.encode item) ≡ ok item
    → put payload database item db ≡ ok db'
    → (response_id : String)
    → get payload database ttl_seconds now response_id db' ≡ (
        if response_id == item.response_id
        then ok (if leb_ℤ (wrap_i64 (now -ℤ ttl_seconds)) item.created_at then some item else none)
        else get payload database ttl_seconds now response_id db)
unfolding put get cutoff
get-put payload database table ttl now item db restored stored response_id =
    let selected = table.selects _ db response_id (wrap_i64 (now -ℤ ttl)) stored in
    elim (Bool-cases (response_id == item.response_id)) [
      | inr other ↦ rw (selected, other) refl
      | inl same ↦ elim (Bool-cases (leb_ℤ (wrap_i64 (now -ℤ ttl)) item.created_at)) [
        | inl fresh ↦ rw (selected, same, fresh, restored) refl
        | inr stale ↦ rw (selected, same, stale) refl
      ]
    ]
