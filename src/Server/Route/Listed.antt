-- ===== src/Server/Route/Listed.antt =====
-- The models that the adapter lists are routed back to their project.
use text.Mathlib.TextLemmas.{nil-append, cons-append}
use codex_mimo_adapter.Base.{
  ℕ, zero, suc, ◌/◌, ◌%◌, String, Char, code, str_append, ◌≡◌, ◌≢◌, refl, ap, ◌∙◌, arith, Bool,
  true, false, not, ◌||◌, ◌&&◌, none, some, List, [], ◌∷◌, ◌==◌, str-cases, inl, inr, leb, num_eq,
  Option-cases, if◌then◌else◌,
}
use mathlib.Core.Path.{subst}
use codex_mimo_adapter.Base.Decimal.{AllChars}
use codex_mimo_adapter.Base.Result.{ok}
use codex_mimo_adapter.Base.Str.{strip_prefix, split_once, is_empty, has_prefix}
use codex_mimo_adapter.Text.Think.{strip_prefix_lem}
use codex_mimo_adapter.Project.Ids.{
  Digests, hex_digit, hex_bytes, project_id_prefix, global_project_id, project_key_from_id,
  project_id_from_key, hex_hash, generate_project_id,
}
use codex_mimo_adapter.Server.Route.{parse_routed_model, listed_model}

pub strip_prefix_self : (p s : String) → strip_prefix p (str_append p s) ≡ some s
unfolding strip_prefix
strip_prefix_self String.[] s = ap some (nil-append s)
strip_prefix_self (String.◌∷◌ c p) s =
    let same : num_eq (code c) (code c) ≡ true = ground arith in
    rw (cons-append c p s, same, strip_prefix) (strip_prefix_self p s)

-- no `/`
abbrev plain : Char → Bool
plain c = not (num_eq (code c) b'/')

-- a digit of a hexadecimal number
abbrev is_hex : Char → Bool
is_hex c = (leb b'0' (code c) && leb (code c) b'9') || (leb b'a' (code c) && leb (code c) b'f')

split_once-plain :
    (key rest : String)
    → AllChars plain key
    → split_once "/" (str_append key (String.◌∷◌ "/" rest)) ≡ some (key, rest)
unfolding split_once strip_prefix
split_once-plain String.[] rest h = rw (nil-append (String.◌∷◌ "/" rest)) refl
split_once-plain (String.◌∷◌ c key) rest h =
    let other : strip_prefix "/" (String.◌∷◌ c (str_append key (String.◌∷◌ "/" rest))) ≡ none =
      ground (arith, h.0) in
    rw (cons-append c key (String.◌∷◌ "/" rest), other, split_once)
      (rw (split_once-plain key rest h.1) refl)

hex_digit-is_hex : (n : ℕ) → is_hex (hex_digit n) ≡ true
hex_digit-is_hex zero = refl
hex_digit-is_hex (suc zero) = refl
hex_digit-is_hex (suc (suc zero)) = refl
hex_digit-is_hex (suc (suc (suc zero))) = refl
hex_digit-is_hex (suc (suc (suc (suc zero)))) = refl
hex_digit-is_hex (suc (suc (suc (suc (suc zero))))) = refl
hex_digit-is_hex (suc (suc (suc (suc (suc (suc zero)))))) = refl
hex_digit-is_hex (suc (suc (suc (suc (suc (suc (suc zero))))))) = refl
hex_digit-is_hex (suc (suc (suc (suc (suc (suc (suc (suc zero)))))))) = refl
hex_digit-is_hex (suc (suc (suc (suc (suc (suc (suc (suc (suc zero))))))))) = refl
hex_digit-is_hex (suc (suc (suc (suc (suc (suc (suc (suc (suc (suc zero)))))))))) = refl
hex_digit-is_hex (suc (suc (suc (suc (suc (suc (suc (suc (suc (suc (suc zero))))))))))) = refl
hex_digit-is_hex (suc (suc (suc (suc (suc (suc (suc (suc (suc (suc (suc (suc zero)))))))))))) = refl
hex_digit-is_hex
      (suc (suc (suc (suc (suc (suc (suc (suc (suc (suc (suc (suc (suc zero))))))))))))) =
    refl
hex_digit-is_hex
      (suc (suc (suc (suc (suc (suc (suc (suc (suc (suc (suc (suc (suc (suc zero)))))))))))))) =
    refl
hex_digit-is_hex
      (suc (suc (suc (suc (suc (suc (suc (suc (suc (suc (suc (suc (suc (suc (suc n))))))))))))))) =
    refl

hex_bytes-is_hex : (n : ℕ) (bytes : List ℕ) → AllChars is_hex (hex_bytes n bytes)
unfolding hex_bytes
hex_bytes-is_hex zero bytes = tt
hex_bytes-is_hex (suc n) [] = tt
hex_bytes-is_hex (suc n) (b ∷ bytes) =
    (hex_digit-is_hex (b / 16), (hex_digit-is_hex (b % 16), hex_bytes-is_hex n bytes))

hex_plain : (s : String) → AllChars is_hex s → AllChars plain s
hex_plain String.[] h = tt
hex_plain (String.◌∷◌ c s) (is, all) = (ground (arith, is), hex_plain s all)

-- A text of hexadecimal digits is not the global key, and has not the prefix of an identifier.
hex-ne-global : (s : String) → AllChars is_hex s → s ≢ global_project_id
hex-ne-global s h e = cc ((subst (AllChars is_hex) e h).0)

hex_no_prefix : (s : String) → AllChars is_hex s → has_prefix project_id_prefix s ≡ false
hex_no_prefix s h = elim (Option-cases (strip_prefix project_id_prefix s)) [
  | inl e ↦ rw e refl
  | inr (rest, e) ↦
      let whole =
        subst (AllChars is_hex)
          (strip_prefix_lem project_id_prefix s e ∙ cons-append "m" "imo_adapter_" rest) h in
      absurd (cc (whole.0))
]

-- The identifiers of projects: those that are generated, and that of the global one.
pub data IsProjectId (digests : Digests) : String → Type 0 where
  generated :
      (root : String) (first : ℕ) (others : List ℕ)
      → digests.sha256 root ≡ first ∷ others
      → IsProjectId digests (generate_project_id digests root)
  the_global : IsProjectId digests global_project_id

routed :
    (key id project_id : String)
    → AllChars plain key
    → is_empty key ≡ false
    → is_empty id ≡ false
    → project_key_from_id project_id ≡ key
    → (if key == global_project_id then global_project_id else project_id_from_key key) ≡ project_id
    → parse_routed_model (listed_model project_id id) ≡ ok (project_id, id)
unfolding parse_routed_model listed_model
routed key id project_id all filled named is_key back =
    let real = str_append "mimo/" id in
    let has_real : is_empty real ≡ false = rw (cons-append "m" "imo/" id) refl in
    rw (is_key, cons-append "/" "mimo/" id)
      (rw
        (
          strip_prefix_self "mimo_adapter/" (str_append key (String.◌∷◌ "/" real)),
          parse_routed_model,
        )
        (rw (split_once-plain key real all, parse_routed_model)
          (rw (filled, has_real, strip_prefix_self "mimo/" id, named, back) refl)))

module _ (digests : Digests) (root : String) where
  key_is_hex : AllChars is_hex (hex_hash digests root)
  unfolding hex_hash
  key_is_hex = hex_bytes-is_hex 6 (digests.sha256 root)

  key_filled :
      (first : ℕ) (others : List ℕ)
      → digests.sha256 root ≡ first ∷ others
      → is_empty (hex_hash digests root) ≡ false
  unfolding hex_hash
  key_filled first others is_digest = rw is_digest refl

  key_of_generated : project_key_from_id (generate_project_id digests root) ≡ hex_hash digests root
  unfolding project_key_from_id generate_project_id
  key_of_generated = rw (strip_prefix_self project_id_prefix (hex_hash digests root)) refl

  id_of_key : project_id_from_key (hex_hash digests root) ≡ generate_project_id digests root
  unfolding project_id_from_key generate_project_id
  id_of_key = rw (hex_no_prefix (hex_hash digests root) key_is_hex) refl

  id_of_route :
      (if hex_hash digests root == global_project_id
        then global_project_id
        else project_id_from_key (hex_hash digests root))
      ≡ generate_project_id digests root
  id_of_route = elim (str-cases (hex_hash digests root) global_project_id) [
    | inl (e, test) ↦ absurd (hex-ne-global (hex_hash digests root) key_is_hex e)
    | inr (e, test) ↦ rw test id_of_key
  ]

-- A model that the adapter lists for a project, one with a generated identifier or the global one,
-- is routed back to that project and to the upstream model's own name.
pub parse_routed_model-listed_model :
    (digests : Digests) (project_id id : String)
    → IsProjectId digests project_id
    → is_empty id ≡ false
    → parse_routed_model (listed_model project_id id) ≡ ok (project_id, id)
unfolding project_id_from_key project_key_from_id
parse_routed_model-listed_model digests project_id id the_global named =
    routed global_project_id id global_project_id (refl, (refl, (refl, (refl, (refl, (refl, tt))))))
      refl named refl refl
parse_routed_model-listed_model digests project_id id (generated root first others is_digest)
      named =
    routed (hex_hash digests root) id (generate_project_id digests root)
      (hex_plain _ (key_is_hex digests root)) (key_filled digests root first others is_digest) named
      (key_of_generated digests root) (id_of_route digests root)
