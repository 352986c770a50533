-- ===== src/Json.antt =====
-- JSON values as the program sees them through serde_json (a third-party crate): the six kinds of
-- `Value`, the accessors that the source calls, and objects kept in the ascending order of their
-- keys, as the crate's default map does. Printing and parsing of JSON text are not defined here:
-- they are the fields of `Serde`, which every definition that uses them takes as an argument.
use Prim.Native.Nat.{Ordering}
use Prim.Native.String.{compare}
use codex_mimo_adapter.Base.{
  ℕ, String, ◌≡◌, refl, arith, Bool, true, false, Option, none, some, List, [], ◌∷◌, ◌==◌, eq_iff,
  if◌then◌else◌,
}
use codex_mimo_adapter.Base.Result.{Result}

-- `Number`: an unsigned integer, a negative one -(n + 1), or a decimal kept by its text
pub data Number : Type 0 where
  pos_int : ℕ → Number
  neg_int : ℕ → Number
  float : String → Number

mutual
  pub data Value : Type 0 where
    null : Value
    bool : Bool → Value
    number : Number → Value
    string : String → Value
    array : Items → Value
    object : Map → Value

  pub data Items : Type 0 where
    nil : Items
    cons : Value → Items → Items

  pub data Map : Type 0 where
    empty : Map
    entry : String → Value → Map → Map

abbrev pub to_list : Items → List Value
to_list nil = []
to_list (cons v vs) = v ∷ to_list vs

abbrev pub of_list : List Value → Items
of_list [] = nil
of_list (v ∷ vs) = cons v (of_list vs)

pub to_list-of_list : (vs : List Value) → to_list (of_list vs) ≡ vs
to_list-of_list [] = refl
to_list-of_list (v ∷ vs) = ground (arith, to_list-of_list vs)

-- `Map::get`, `Map::insert`, `Map::remove`
unfoldable pub lookup : String → Map → Option Value
lookup k empty = none
lookup k (entry j v m) = if j == k then some v else lookup k m

unfoldable pub insert : String → Value → Map → Map
insert k v empty = entry k v empty
insert k v (entry j w m) = elim (compare k j) [
  | Ordering.lt ↦ entry k v (entry j w m)
  | Ordering.eq ↦ entry k v m
  | Ordering.gt ↦ entry j w (insert k v m)
]

unfoldable pub remove : String → Map → Map
remove k empty = empty
remove k (entry j v m) = if j == k then m else entry j v (remove k m)

-- `Map::values`
abbrev pub values : Map → List Value
values empty = []
values (entry k v m) = v ∷ values m

abbrev pub is_empty_map : Map → Bool
is_empty_map empty = true
is_empty_map (entry k v m) = false

-- `json!({...})` and `json!([...])`
unfoldable pub fields : List (String × Value) → Map
unfolding insert
fields [] = empty
fields ((k, v) ∷ rest) = insert k v (fields rest)

abbrev pub obj : List (String × Value) → Value
obj kvs = object (fields kvs)

abbrev pub arr : List Value → Value
arr vs = array (of_list vs)

-- `Value::get` with a text
unfoldable pub get : String → Value → Option Value
unfolding lookup
get k (object m) = lookup k m
get k _ = none

-- `value[key] = v`; `none` is the panic on a value that is no object
unfoldable pub index_set : String → Value → Value → Option Value
unfolding insert
index_set k v (object m) = some (object (insert k v m))
index_set k v null = some (object (insert k v empty))
index_set k v _ = none

abbrev pub as_str : Value → Option String
as_str (string s) = some s
as_str _ = none

abbrev pub as_bool : Value → Option Bool
as_bool (bool b) = some b
as_bool _ = none

abbrev pub as_array : Value → Option (List Value)
as_array (array vs) = some (to_list vs)
as_array _ = none

abbrev pub as_object : Value → Option Map
as_object (object m) = some m
as_object _ = none

abbrev pub is_object : Value → Bool
is_object (object m) = true
is_object _ = false

abbrev pub as_u64 : Value → Option ℕ
as_u64 (number (pos_int n)) = some n
as_u64 _ = none

-- `and_then` on options, and the accessors in a row that the source writes everywhere
abbrev pub and_then {ℓ κ} : {A : Type ℓ} {B : Type κ} → Option A → (A → Option B) → Option B
and_then none f = none
and_then (some a) f = f a

abbrev pub or_else {ℓ} : {A : Type ℓ} → Option A → Option A → Option A
or_else none o = o
or_else (some a) o = some a

abbrev pub unwrap_or {ℓ} : {A : Type ℓ} → A → Option A → A
unwrap_or a none = a
unwrap_or a (some b) = b

-- `value.get(k).and_then(Value::as_str)`
unfoldable pub get_str : String → Value → Option String
unfolding get
get_str k v = and_then (get k v) as_str

-- serde_json on texts: `Value::to_string`, `from_str`, and `Number::to_string`
pub record Serde : Type 0 where
  pub to_string : Value → String
  pub from_str : String → Result String Value
  pub number_text : Number → String

-- What the crate documents of the pair: parsing what was printed gives the value back.
pub record RoundTrips (serde : Serde) : Type 0 where
  pub back : (v : Value) → serde.from_str (serde.to_string v) ≡ Result.ok v

pub lookup-insert :
    (k j : String) (v : Value) (m : Map)
    → lookup j (insert k v m) ≡ (if k == j then some v else lookup j m)
unfolding lookup insert
lookup-insert k j v empty = refl
lookup-insert k j v (entry i w m) =
    ground (arith, eq_iff k j, eq_iff i j, eq_iff k i, lookup-insert k j v m)
