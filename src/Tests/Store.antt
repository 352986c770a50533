-- ===== src/Tests/Store.antt =====
-- The store over a list of rows.
use codex_mimo_adapter.Base.{
  arith, String, ◌≡◌, refl, sym, Bool-cases, inl, inr, Option, none, some, List, [], ◌∷◌, ◌==◌,
  if◌then◌else◌, Among, Inside, All, keep_if, map,
}
use codex_mimo_adapter.Base.Int.{ℤ, pos, negsuc, leb_ℤ, ◌-ℤ◌, wrap_i64}
use codex_mimo_adapter.Base.Result.{Result, ok, err}
use codex_mimo_adapter.State.{
  StoredResponse, Payload, Row, Database, put, get, find_by_call_ids, cutoff,
}
use codex_mimo_adapter.State.Lookup.{find_by_call_ids_sound, Decodes, OnlyOf}
use codex_mimo_adapter.State.RoundTrip.{IsTable, get-put}
use codex_mimo_adapter.Tests.Samples.{response}

abbrev pub first : StoredResponse
first = response "resp_1" ("call_1" ∷ "call_2" ∷ []) 50

abbrev second : StoredResponse
second = response "resp_2" ("call_3" ∷ []) 60

-- a format for the two responses
abbrev pub payload : Payload
payload = record {
  encode = λ item. item.response_id;
  decode = λ text.
      if text == "resp_1" then ok first else if text == "resp_2" then ok second else err "payload";
}

abbrev row_of : StoredResponse → Row
row_of item = record {
  response_id = item.response_id;
  created_at = item.created_at;
  payload = item.response_id;
}

abbrev since : ℤ → List Row → List String
since cutoff rows = map (λ r. r.payload) (keep_if (λ r. leb_ℤ cutoff r.created_at) rows)

abbrev find_payload : String → ℤ → List Row → Option String
find_payload id cutoff [] = none
find_payload id cutoff (r ∷ rows) =
    if id == r.response_id
    then if leb_ℤ cutoff r.created_at then some r.payload else none
    else find_payload id cutoff rows

abbrev pub database : Database
database = record {
  Db = List Row;
  insert_or_replace = λ row db. ok (row ∷ db);
  select_payload = λ id cutoff db. ok (find_payload id cutoff db);
  select_since = λ cutoff db. ok (since cutoff db);
}

abbrev pub two_rows : List Row
two_rows = row_of second ∷ row_of first ∷ []

found :
    find_by_call_ids payload database (pos 30) (pos 70) ("call_2" ∷ "call_1" ∷ []) two_rows
    ≡ ok (some first)
unfolding find_by_call_ids
found = refl

find_by_call_ids_sound_example :
    (rows : List String) × (items : List StoredResponse) × (database.select_since
        (wrap_i64 (pos 70 -ℤ pos 30))
        two_rows
      ≡ ok rows)
    × Decodes payload rows items
    × Among first items
    × Inside first.pending_call_ids ("call_2" ∷ "call_1" ∷ [])
    × All (OnlyOf ("call_2" ∷ "call_1" ∷ []) first) items
find_by_call_ids_sound_example =
    find_by_call_ids_sound payload database (pos 30) (pos 70) ("call_2" ∷ "call_1" ∷ []) two_rows
      found

row_injective : {a b : List Row} → Path (Result String (List Row)) (ok a) (ok b) → a ≡ b
row_injective h = ground arith

database-IsTable : IsTable database
database-IsTable = record {
  selects = λ row db {db'} id cutoff h.
      rw (sym (row_injective h))
        (elim (Bool-cases (id == row.response_id)) [ inl e ↦ rw e refl | inr e ↦ rw e refl ]);
}

get-put_example :
    get payload database (pos 30) (pos 70) "resp_1" (row_of first ∷ two_rows) ≡ ok (some first)
unfolding put ◌-ℤ◌ wrap_i64
get-put_example =
    get-put payload database database-IsTable (pos 30) (pos 70) first two_rows refl refl "resp_1"

-- a time to live that the configuration accepts, at which the difference wraps
wrapped : cutoff (negsuc 9223372036854775807) (pos 70) ≡ negsuc 9223372036854775737
unfolding cutoff
wrapped = refl
