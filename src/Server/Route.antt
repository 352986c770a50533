-- ===== src/Server/Route.antt =====
-- src/server.rs: which project and which upstream model a model's name stands for, and who may ask.
pub mod Listed
pub mod Access
use codex_mimo_adapter.Base.{
  ℕ, String, str_append, Bool, true, false, not, ◌&&◌, Option, none, some, List, [], ◌∷◌, ◌==◌, any,
  if◌then◌else◌, map,
}
use codex_mimo_adapter.Base.Assoc.{get}
use codex_mimo_adapter.Base.Result.{Result, ok, err, ok_or, ◌>>=◌, ◌>>◌}
use codex_mimo_adapter.Base.Str.{strip_prefix, split_once, is_empty, concat}
use codex_mimo_adapter.Json.{or_else}
use codex_mimo_adapter.Config.{Config}
use codex_mimo_adapter.Project.Ids.{
  Digests, global_project_id, project_key_from_id, project_id_from_key, validate_adapter_token,
}

abbrev pub guard : Bool → String → Result String (Unit {0})
guard true message = ok tt
guard false message = err message

abbrev pub route_error : String
route_error =
    "model must use mimo_adapter/<project_key>/<real_model>. Run 'codex-mimo-adapter init' to refresh agent templates."

unfoldable pub parse_routed_model : String → Result String (String × String)
unfolding strip_prefix split_once project_id_from_key
parse_routed_model model = do
  rest ← ok_or (strip_prefix "mimo_adapter/" model) route_error
  (project_key, real_model) ←
      ok_or (split_once "/" rest) "model must include both project_key and real_model"
  guard (not (is_empty project_key)) "project_key is empty"
  guard (not (is_empty real_model)) "real model id is empty"
  upstream_model ← ok_or (strip_prefix "mimo/" real_model) "real_model must use the mimo/ prefix"
  guard (not (is_empty upstream_model)) "real model id is empty"
  ok (
    (if project_key == global_project_id
        then global_project_id
        else project_id_from_key project_key),
    upstream_model,
  )

-- the name under which the handler `models` lists an upstream model
unfoldable pub listed_model : String → String → String
unfolding project_key_from_id
listed_model project_id id =
    concat ("mimo_adapter/" ∷ project_key_from_id project_id ∷ "/mimo/" ∷ id ∷ [])

-- `project_runtime`, over the map of the loaded projects
unfoldable pub project_runtime {ℓ} : {R : Type ℓ} → List (String × R) → String → Option R
unfolding get project_key_from_id project_id_from_key
project_runtime projects project_id = or_else (get project_id projects) (
    or_else (get (project_key_from_id project_id) projects)
      (get (project_id_from_key project_id) projects))

module _ (digests : Digests) where
  -- a local token that is set and not empty
  abbrev pub accepts : String → Option String → Bool
  accepts raw_token none = false
  accepts raw_token (some local_token) =
      not (is_empty local_token) && validate_adapter_token digests raw_token local_token

  unfoldable pub runtime_accepts_token : Config → String → Bool
  unfolding validate_adapter_token
  runtime_accepts_token config raw_token = accepts raw_token config.local_token

  -- `adapter_bearer_token`, from the text of the header `authorization`
  unfoldable pub adapter_bearer_token : Option String → Result String String
  unfolding strip_prefix
  adapter_bearer_token header = do
    auth_header ← ok_or header "Missing Authorization header. Provide a valid Bearer token."
    ok_or (strip_prefix "Bearer " auth_header)
        "Invalid Authorization format. Expected 'Bearer <token>'."

  -- `authorize_adapter`, over the configurations of the loaded projects; the error is the message of
  -- a response with the status 401
  unfoldable pub authorize_adapter : List Config → Option String → Result String (Unit {0})
  unfolding adapter_bearer_token runtime_accepts_token
  authorize_adapter configs header = do
    raw_token ← adapter_bearer_token header
    guard (any (λ config. runtime_accepts_token config raw_token) configs)
        "Invalid or expired adapter token. Run 'codex-mimo-adapter auth print-local-token' again."
