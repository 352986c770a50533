-- ===== src/Project/Registry.antt =====
-- src/project.rs: the registry of projects and the search for the current one. What the process
-- sees of its variables and of the file system is an argument. Of paths, the platform is one where
-- they are compared as they are.
use codex_mimo_adapter.Base.{
  ℕ, String, Bool, true, false, ◌&&◌, Option, none, some, List, [], ◌∷◌, ◌==◌, filter_map,
  if◌then◌else◌,
}
use codex_mimo_adapter.Base.Assoc.{get, insert}
use codex_mimo_adapter.Base.Result.{Result, ok, err, ok_or, to_option, ◌>>=◌, ◌>>◌}
use codex_mimo_adapter.Base.Str.{is_empty, trim, concat}
use codex_mimo_adapter.Config.{Env}
use codex_mimo_adapter.Init.{FilePath}
use codex_mimo_adapter.Json.{Value, and_then, or_else, unwrap_or}
use codex_mimo_adapter.Project.EnvText.{parse_env_text}

pub record ProjectRegistryEntry : Type 0 where
  pub root : String

-- `ProjectRegistry`, by its map
abbrev pub ProjectRegistry : Type 0
ProjectRegistry = List (String × ProjectRegistryEntry)

mutual
  pub data Node : Type 0 where
    file : String → Node
    folder : String → Nodes → Node

  -- what a folder that can be read holds
  pub data Nodes : Type 0 where
    nil : Nodes
    cons : Node → Nodes → Nodes

-- The variables, the folder of the process, the files, and the formats TOML and JSON.
pub record World : Type 0 where
  pub var : String → Option String
  pub current_dir : Option FilePath
  pub exists : FilePath → Bool
  pub is_dir : FilePath → Bool
  pub is_file : FilePath → Bool
  pub canonicalize : FilePath → Option FilePath
  pub read_to_string : FilePath → Option String
  pub read_dir : FilePath → Option Nodes
  pub modified : FilePath → Option ℕ
  pub path_of_text : String → FilePath
  pub display : FilePath → String
  pub registry_from_toml : String → Option ProjectRegistry
  pub json_from_str : String → Option Value

abbrev pub project_env_filename : String
project_env_filename = ".codex-mimo-adapter.env"

abbrev pub registry_filename : String
registry_filename = "project-registry.toml"

pub record ProjectPaths : Type 0 where
  pub root : FilePath
  pub env_file : FilePath
  pub agents_dir : FilePath
  pub state_dir : FilePath

unfoldable pub from_root : FilePath → ProjectPaths
from_root root = record {
  root = root;
  env_file = project_env_filename ∷ root;
  agents_dir = "agents" ∷ ".codex" ∷ root;
  state_dir = ".codex-mimo" ∷ root;
}

abbrev pub ancestors : FilePath → List FilePath
ancestors [] = [] ∷ []
ancestors (name ∷ parent) = (name ∷ parent) ∷ ancestors parent

abbrev pub path_eq : FilePath → FilePath → Bool
path_eq [] [] = true
path_eq [] (b ∷ q) = false
path_eq (a ∷ p) [] = false
path_eq (a ∷ p) (b ∷ q) = a == b && path_eq p q

-- `anyhow::ensure!`
abbrev pub ensure : Bool → String → Result String (Unit {0})
ensure true what = ok tt
ensure false what = err what

module _ (world : World) where
  open world use {
    var, current_dir, exists, is_dir, is_file, canonicalize, read_to_string, read_dir, modified,
    path_of_text, display, registry_from_toml, json_from_str,
  }

  -- `ProjectRegistry::load`
  unfoldable pub load : FilePath → ProjectRegistry
  load registry_dir =
      unwrap_or [] (and_then (read_to_string (registry_filename ∷ registry_dir)) registry_from_toml)

  -- `upsert_project`
  unfoldable pub upsert_project : String → FilePath → ProjectRegistry → ProjectRegistry
  unfolding insert
  upsert_project project_id root registry =
      insert project_id (record { root = display (unwrap_or root (canonicalize root)) }) registry

  unfoldable pub resolve_root : ProjectRegistry → String → Option FilePath
  unfolding get
  resolve_root registry project_id =
      and_then (get project_id registry) (λ entry. some (path_of_text entry.root))

  abbrev pub home : Option String
  home = or_else (var "USERPROFILE") (var "HOME")

  unfoldable pub registry_dir_path : Result String FilePath
  registry_dir_path = ok_or home "failed to resolve user home directory" >>= λ home_dir.
      ok (".codex-mimo-adapter" ∷ path_of_text home_dir)

  unfoldable pub read_project_env : FilePath → Result String Env
  unfolding parse_env_text
  read_project_env path =
      ok_or (read_to_string path) (concat ("failed to read project config at " ∷ display path ∷ []))
      >>= parse_env_text

  -- whether an entry of the registry is one of a project that still is there
  unfoldable pub is_valid : String → ProjectRegistryEntry → Bool
  unfolding read_project_env get
  is_valid project_id entry =
      let root = path_of_text entry.root in
      let env_path = project_env_filename ∷ root in
      let read = and_then (to_option (read_project_env env_path)) (get "CODEX_MIMO_PROJECT_ID") in
      is_dir root && (is_file env_path && elim read [ none ↦ false | some id ↦ id == project_id ])

  unfoldable pub stale_project_ids : ProjectRegistry → List String
  unfolding is_valid
  stale_project_ids [] = []
  stale_project_ids ((project_id, entry) ∷ registry) =
      let rest = stale_project_ids registry in
      if is_valid project_id entry then rest else project_id ∷ rest

  -- `discover_from`
  unfoldable pub discover_in : List FilePath → FilePath → ProjectPaths
  unfolding from_root
  discover_in [] start = from_root start
  discover_in (candidate ∷ candidates) start =
      let rest = discover_in candidates start in
      if exists (from_root candidate).env_file then from_root candidate else rest

  abbrev pub discover_from : FilePath → ProjectPaths
  discover_from start = discover_in (ancestors start) start

  abbrev pub set_value : String → Option String
  set_value key = and_then (var key) (λ value. if is_empty (trim value) then none else some value)

  unfoldable pub codex_thread_ids : List String
  unfolding trim
  codex_thread_ids = filter_map set_value (
      "CODEX_THREAD_ID" ∷ "CODEX_SESSION_ID" ∷ "CODEX_CONVERSATION_ID" ∷ "CODEX_PARENT_THREAD_ID"
      ∷ [])

  unfoldable pub codex_home_dir : Option FilePath
  unfolding trim
  codex_home_dir = elim (set_value "CODEX_HOME") [
    | some value ↦ some (path_of_text value)
    | none ↦ and_then home (λ home_dir. some (".codex" ∷ path_of_text home_dir))
  ]

  unfoldable pub same_path : FilePath → FilePath → Bool
  same_path left right =
      path_eq (unwrap_or left (canonicalize left)) (unwrap_or right (canonicalize right))

  unfoldable pub validate_recovered_project : ProjectPaths → Result String (Unit {0})
  unfolding read_project_env get load resolve_root registry_dir_path same_path
  validate_recovered_project paths =
      ensure (exists paths.env_file) "project has no env file"
      >> (read_project_env paths.env_file >>= λ project_env.
          ok_or (get "CODEX_MIMO_PROJECT_ID" project_env)
            "CODEX_MIMO_PROJECT_ID is missing in project env"
          >>= λ project_id. registry_dir_path >>= λ registry_dir.
              ok_or (resolve_root (load registry_dir) project_id)
                "project is not registered in the registry"
              >>= λ registered_root.
                  ensure (same_path registered_root paths.root)
                    "project root does not match registry entry")
