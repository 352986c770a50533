-- ===== src/Server/Refresh.antt =====
-- src/server.rs, `admin_refresh`: the loaded projects after the registry was read again. What opens
-- a store or a client is an argument.
pub mod Loaded
use codex_mimo_adapter.Base.{
  ℕ, String, Bool, true, false, not, ◌&&◌, Option, none, some, List, [], ◌∷◌, ◌++◌, ◌==◌, map,
  filter_map, if◌then◌else◌,
}
use codex_mimo_adapter.Base.Int.{ℤ}
use codex_mimo_adapter.Base.Assoc.{get, insert}
use codex_mimo_adapter.Base.Result.{Result, ok, err, map_err, ◌>>=◌, ◌>>◌}
use codex_mimo_adapter.Base.Str.{concat, is_some}
use codex_mimo_adapter.Config.{Config, ConfigOverrides, Env, from_sources}
use codex_mimo_adapter.Init.{FilePath}
use codex_mimo_adapter.Json.{Value, string, null, array, obj, of_list}
use codex_mimo_adapter.Project.Clean.{remove, remove_all}
use codex_mimo_adapter.Project.Ids.{Digests, global_project_id}
use codex_mimo_adapter.Project.Registry.{
  World, ProjectRegistry, ProjectRegistryEntry, project_env_filename, read_project_env, load,
  registry_dir_path,
}
use codex_mimo_adapter.Server.Handlers.{Reply, error_response}
use codex_mimo_adapter.Server.Route.{authorize_adapter, guard}

pub record ProjectRuntime (Client Store : Type 1) : Type 1 where
  pub config : Config
  pub client : Client
  pub state : Store

-- What a refresh takes from its surroundings: the files, the variables, the overrides of the
-- process, and the crates that open a store at a path under a root and a client.
pub record Opener (Client Store : Type 1) : Type 1 where
  pub world : World
  pub environment : Env
  pub overrides : ConfigOverrides
  pub state_db_path : FilePath → String → String
  pub new_store : String → ℤ → Result String Store
  pub new_client : String → String → ℕ → Result String Client

-- the keys of projects that are neither global nor registered
unfoldable pub to_remove {ℓ} : {R : Type ℓ} → ProjectRegistry → List (String × R) → List String
unfolding get
to_remove registry [] = []
to_remove registry ((id, runtime) ∷ projects) =
    let rest = to_remove registry projects in
    if not (id == global_project_id) && not (is_some (get id registry)) then id ∷ rest else rest

-- what became of a project of the registry
pub data Outcome : Type 0 where
  already_loaded opened : Outcome
  refused : String → Outcome

abbrev when_opened : String × Outcome → Option Value
when_opened (id, opened) = some (string id)
when_opened _ = none

abbrev when_loaded : String × Outcome → Option Value
when_loaded (id, already_loaded) = some (string id)
when_loaded _ = none

abbrev when_refused : String × Outcome → Option Value
when_refused (id, refused reason) =
    some (obj (("project_id", string id) ∷ ("reason", string reason) ∷ []))
when_refused _ = none

module _ {Client Store : Type 1} (opener : Opener Client Store) where
  open opener use {world, environment, overrides, state_db_path, new_store, new_client}

  abbrev pub because : String → String → String
  because what error = concat (what ∷ error ∷ [])

  abbrev pub there : FilePath → Result String (Unit {0})
  there env_path = guard (world.exists env_path) "missing env file"

  -- the body of the loop: a project that is not loaded yet, or the reason why it cannot be
  unfoldable pub load_project : ProjectRegistryEntry → Result String (ProjectRuntime Client Store)
  unfolding read_project_env from_sources remove
  load_project entry =
      let root = world.path_of_text entry.root in
      let env_path = project_env_filename ∷ root in
      there env_path >>= λ exists.
      map_err (because "read env failed: ") (read_project_env world env_path) >>= λ project_env.
      map_err (because "bad config: ")
        (from_sources project_env (remove "CODEX_MIMO_LOCAL_TOKEN" environment) overrides)
      >>= λ config.
          map_err (because "state init failed: ")
            (new_store (state_db_path root config.state_db) config.state_ttl_seconds)
          >>= λ store.
              map_err (because "client init failed: ")
                (new_client config.upstream_base config.upstream_key config.timeout_seconds)
              >>= λ client. ok (record { config = config; client = client; state = store })

  abbrev pub Projects : Type 1
  Projects = List (String × ProjectRuntime Client Store)

  abbrev pub with_loaded :
      String → Result String (ProjectRuntime Client Store) → Projects → Projects
  with_loaded id (ok runtime) projects = insert id runtime projects
  with_loaded id (err reason) projects = projects

  -- the loop over the registry
  unfoldable pub load_missing : ProjectRegistry → Projects → Projects
  unfolding load_project get insert
  load_missing [] projects = projects
  load_missing ((id, entry) ∷ registry) projects =
      let with_new = load_missing registry (with_loaded id (load_project entry) projects) in
      let without = load_missing registry projects in
      if is_some (get id projects) then without else with_new

  -- the loaded projects after a refresh
  unfoldable pub refreshed : ProjectRegistry → Projects → Projects
  unfolding to_remove remove_all load_missing
  refreshed registry projects =
      load_missing registry (remove_all (to_remove registry projects) projects)

  abbrev pub outcome_of : Result String (ProjectRuntime Client Store) → Outcome
  outcome_of (ok runtime) = opened
  outcome_of (err reason) = refused reason

  -- what the loop reports of each project
  unfoldable pub outcomes : ProjectRegistry → Projects → List (String × Outcome)
  unfolding load_project get insert
  outcomes [] projects = []
  outcomes ((id, entry) ∷ registry) projects =
      let result = load_project entry in
      let with_new = (id, outcome_of result) ∷ outcomes registry (with_loaded id result projects) in
      let without = (id, already_loaded) ∷ outcomes registry projects in
      if is_some (get id projects) then without else with_new

  -- the answer on a registry
  unfoldable pub report : ProjectRegistry → Projects → Value
  unfolding outcomes to_remove remove_all
  report registry projects =
      let removed = to_remove registry projects in
      let told = outcomes registry (remove_all removed projects) in
      obj (
        ("status", string "ok")
        ∷ ("added", array (of_list (filter_map when_opened told)))
        ∷ ("already_loaded", array (of_list (filter_map when_loaded told)))
        ∷ ("removed", array (of_list (map string removed)))
        ∷ ("failed", array (of_list (filter_map when_refused told)))
        ∷ [])

  -- `admin_refresh`, which answers and leaves the loaded projects
  unfoldable pub admin_refresh : Digests → Option String → Projects → Reply × Projects
  unfolding authorize_adapter error_response registry_dir_path load report refreshed
  admin_refresh digests header projects =
      elim (authorize_adapter digests (map (λ (id, runtime). runtime.config) projects) header) [
        | err message ↦ (
          error_response 401 "unauthorized"
              "Invalid or missing token. Provide a valid adapter bearer token.",
          projects,
        )
        | ok shown ↦ elim (registry_dir_path world) [
          | err error ↦ (
            Reply.json 200 (obj (("status", string "error") ∷ ("message", string error) ∷ [])),
            projects,
          )
          | ok reg_dir ↦
              let registry = load world reg_dir in
              (Reply.json 200 (report registry projects), refreshed registry projects)
        ]
      ]
