-- ===== src/Request/Roles.antt =====
-- The roles of the messages that `build_chat_payload` sends upstream.
use codex_mimo_adapter.Base.{
  String, ◌≡◌, refl, ap, arith, sym, true, Option, none, some, List, [], ◌∷◌, inl, inr, All,
  Bool-cases, Option-cases, is_nil,
}
use mathlib.Core.Path.{subst}
use mathlib.Core.Option.{some-injective, none-ne-some}
use mathlib.Core.Option
use codex_mimo_adapter.Base.Str.{is_empty}
use codex_mimo_adapter.Base.Result.{Result, ok, err}
use codex_mimo_adapter.Json.{
  Value, null, string, object, Map, get, get_str, as_str, and_then, index_set, lookup, insert,
  lookup-insert, Serde,
}
use codex_mimo_adapter.Request.Defs.{HistoryError, chat_message}
use codex_mimo_adapter.Request.Repair.{
  Normalized, with_chunk, with_message, is_known, known_role, has_role, normalize_item,
  normalize_each, normalize_upstream_roles,
}

pub ok-injective : {A : Type 0} {a b : A} → Path (Result HistoryError A) (ok a) (ok b) → a ≡ b
ok-injective h = ground arith

err-ne-ok :
    {A : Type 0} {e : HistoryError} {a : A} → Path (Result HistoryError A) (err e) (ok a) → ⊥
err-ne-ok h = ground arith

-- `user`, `assistant` or `tool`
abbrev pub Conversational : Value → Type 0
Conversational m = known_role m ≡ true

-- Messages as they are sent: at most one system message, which is the first and has a text.
pub data Headed : List Value → Type 0 where
  plain : (rest : List Value) → All Conversational rest → Headed rest
  with_system :
      (text : String) (rest : List Value)
      → All Conversational rest
      → Headed (chat_message "system" (string text) ∷ rest)

and_then-eq-some :
    {A B : Type 0} (o : Option A) (f : A → Option B) {b : B}
    → and_then o f ≡ some b
    → (a : A) × (o ≡ some a) × (f a ≡ some b)
and_then-eq-some none f h = ground arith
and_then-eq-some (some a) f h = (a, refl, h)

lookup_role : (m : Map) → lookup "role" (insert "role" (string "user") m) ≡ some (string "user")
lookup_role m = lookup-insert "role" "role" (string "user") m

-- a role that is written is read again
index_set-Conversational :
    (item : Value) {fixed : Value}
    → index_set "role" (string "user") item ≡ some fixed
    → Conversational fixed
unfolding index_set get_str get lookup insert
index_set-Conversational (object m) h =
    subst Conversational (some-injective _ _ h)
      (ap (λ o. is_known (and_then o as_str)) (lookup_role m))
index_set-Conversational null h = rw (sym (some-injective _ _ h)) refl
index_set-Conversational (Value.bool b) h = absurd (none-ne-some _ h)
index_set-Conversational (Value.number n) h = absurd (none-ne-some _ h)
index_set-Conversational (string s) h = absurd (none-ne-some _ h)
index_set-Conversational (Value.array vs) h = absurd (none-ne-some _ h)

Conversational-with_chunk :
    (text : String) (n : Normalized)
    → All Conversational n.rest
    → All Conversational (with_chunk text n).rest
Conversational-with_chunk text n h = elim (Bool-cases (is_empty text)) [
  | inl e ↦ rw e h
  | inr e ↦ rw e h
]

-- a role rewritten in front of what the later messages give
fixed-Conversational :
    (o : Option Value) (n : Normalized) {n' : Normalized}
    → Option.map (λ fixed. with_message fixed n) o ≡ some n'
    → ((v : Value) → o ≡ some v → Conversational v)
    → All Conversational n.rest
    → All Conversational n'.rest
fixed-Conversational none n h k rest = absurd (none-ne-some _ h)
fixed-Conversational (some v) n h k rest =
    subst (λ x. All Conversational x.rest) (some-injective _ _ h) (k v refl, rest)

module _ (serde : Serde) where
  normalize_item-Conversational :
      (item : Value) (n : Normalized) {n' : Normalized}
      → normalize_item serde item n ≡ some n'
      → All Conversational n.rest
      → All Conversational n'.rest
  unfolding normalize_item
  normalize_item-Conversational item n h rest = elim (Bool-cases (has_role "system" item)) [
    | inl system ↦
        subst (λ x. All Conversational x.rest)
          (some-injective _ _ (rw (system, normalize_item) at h))
          (Conversational-with_chunk _ n rest)
    | inr other ↦ elim (Bool-cases (known_role item)) [
      | inl known ↦
          subst (λ x. All Conversational x.rest)
            (some-injective _ _ (rw (other, known, normalize_item) at h)) (known, rest)
      | inr unknown ↦
          fixed-Conversational _ n (rw (other, unknown, normalize_item) at h)
            (λ v e. index_set-Conversational item e) rest
    ]
  ]

  normalize_each-Conversational :
      (messages : List Value) {n : Normalized}
      → normalize_each serde messages ≡ some n
      → All Conversational n.rest
  unfolding normalize_each
  normalize_each-Conversational [] h =
      subst (λ x. All Conversational x.rest) (some-injective _ _ h) tt
  normalize_each-Conversational (m ∷ ms) h =
      let (item, e, h1) =
        and_then-eq-some _ (λ item. and_then (normalize_each serde ms) (normalize_item serde item))
          h in
      let (n, each, h2) =
        and_then-eq-some (normalize_each serde ms) (normalize_item serde item) h1 in
      normalize_item-Conversational item n h2 (normalize_each-Conversational ms each)

  -- The messages that `normalize_upstream_roles` returns are user, assistant and tool messages,
  -- behind at most one system message, which stands first.
  pub normalize_upstream_roles-Headed :
      (messages : List Value) {sent : List Value}
      → normalize_upstream_roles serde messages ≡ ok sent
      → Headed sent
  unfolding normalize_upstream_roles
  normalize_upstream_roles-Headed messages h = elim (Option-cases (normalize_each serde messages)) [
    | inl panic ↦ absurd (err-ne-ok (rw (panic, normalize_upstream_roles) at h))
    | inr (n, each) ↦ elim (Bool-cases (is_nil n.system_chunks)) [
      | inl bare ↦
          subst Headed (ok-injective (rw (each, bare, normalize_upstream_roles) at h))
            (plain n.rest (normalize_each-Conversational messages each))
      | inr chunks ↦
          subst Headed (ok-injective (rw (each, chunks, normalize_upstream_roles) at h))
            (with_system _ n.rest (normalize_each-Conversational messages each))
    ]
  ]
