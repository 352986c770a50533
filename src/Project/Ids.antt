-- ===== src/Project/Ids.antt =====
-- src/project.rs: project identifiers and adapter tokens. The digests of SHA-256 and HMAC-SHA256,
-- made by the crates sha2 and hmac, are arguments.
use codex_mimo_adapter.Base.{
  ℕ, zero, suc, ◌/◌, ◌%◌, String, str_append, Char, Bool, List, [], ◌∷◌, ◌==◌, if◌then◌else◌,
}
use codex_mimo_adapter.Base.Str.{strip_prefix, has_prefix, concat}
use codex_mimo_adapter.Json.{unwrap_or}

-- The bytes that a digest makes of a text, and of a text under a secret.
pub record Digests : Type 0 where
  pub sha256 : String → List ℕ
  pub hmac_sha256 : String → String → List ℕ

abbrev pub hex_digit : ℕ → Char
hex_digit zero = "0"
hex_digit (suc zero) = "1"
hex_digit (suc (suc zero)) = "2"
hex_digit (suc (suc (suc zero))) = "3"
hex_digit (suc (suc (suc (suc zero)))) = "4"
hex_digit (suc (suc (suc (suc (suc zero))))) = "5"
hex_digit (suc (suc (suc (suc (suc (suc zero)))))) = "6"
hex_digit (suc (suc (suc (suc (suc (suc (suc zero))))))) = "7"
hex_digit (suc (suc (suc (suc (suc (suc (suc (suc zero)))))))) = "8"
hex_digit (suc (suc (suc (suc (suc (suc (suc (suc (suc zero))))))))) = "9"
hex_digit (suc (suc (suc (suc (suc (suc (suc (suc (suc (suc zero)))))))))) = "a"
hex_digit (suc (suc (suc (suc (suc (suc (suc (suc (suc (suc (suc zero))))))))))) = "b"
hex_digit (suc (suc (suc (suc (suc (suc (suc (suc (suc (suc (suc (suc zero)))))))))))) = "c"
hex_digit (suc (suc (suc (suc (suc (suc (suc (suc (suc (suc (suc (suc (suc zero))))))))))))) = "d"
hex_digit (suc (suc (suc (suc (suc (suc (suc (suc (suc (suc (suc (suc (suc (suc zero)))))))))))))) =
    "e"
hex_digit _ = "f"

-- `format!("{b:02x}")` of the first `n` bytes in a row
unfoldable pub hex_bytes : ℕ → List ℕ → String
hex_bytes zero bytes = ""
hex_bytes (suc n) [] = ""
hex_bytes (suc n) (b ∷ bytes) =
    String.◌∷◌ (hex_digit (b / 16)) (String.◌∷◌ (hex_digit (b % 16)) (hex_bytes n bytes))

abbrev pub project_id_prefix : String
project_id_prefix = "mimo_adapter_"

abbrev pub global_project_id : String
global_project_id = "global"

unfoldable pub project_key_from_id : String → String
unfolding strip_prefix
project_key_from_id project_id = unwrap_or project_id (strip_prefix project_id_prefix project_id)

unfoldable pub project_id_from_key : String → String
unfolding strip_prefix
project_id_from_key project_key =
    if has_prefix project_id_prefix project_key
    then project_key
    else str_append project_id_prefix project_key

module _ (digests : Digests) where
  unfoldable pub hex_hash : String → String
  unfolding hex_bytes
  hex_hash input = hex_bytes 6 (digests.sha256 input)

  -- `generate_project_id`, from the text of the canonical root
  unfoldable pub generate_project_id : String → String
  unfolding hex_hash
  generate_project_id root = str_append project_id_prefix (hex_hash root)

  unfoldable pub sign_subject : String → String → String
  unfolding hex_bytes
  sign_subject subject secret =
      concat
        ("codex-mimo-" ∷ subject ∷ "-" ∷ hex_bytes 16 (digests.hmac_sha256 secret subject) ∷ [])

  unfoldable pub sign_adapter_token : String → String
  unfolding sign_subject
  sign_adapter_token secret = sign_subject "adapter" secret

  unfoldable pub validate_adapter_token : String → String → Bool
  unfolding sign_adapter_token
  validate_adapter_token token secret = token == sign_adapter_token secret
