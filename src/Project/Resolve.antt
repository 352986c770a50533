-- ===== src/Project/Resolve.antt =====
-- src/project.rs: `resolve_project`, and the search for the folder of a Codex thread.
pub mod Registered
use codex_mimo_adapter.Base.{
  ℕ, String, Bool, true, false, not, ◌&&◌, ◌||◌, Option, none, some, List, [], ◌∷◌, ◌++◌, map,
  filter_map, any, is_nil, if◌then◌else◌, leb,
}
use codex_mimo_adapter.Base.Assoc.{get}
use codex_mimo_adapter.Base.Result.{Result, ok, err, map_err, ok_or, ◌>>=◌, ◌>>◌}
use codex_mimo_adapter.Base.Str.{is_empty, is_some, trim, concat, join, lines, contains_str}
use codex_mimo_adapter.Init.{FilePath}
use codex_mimo_adapter.Json.{Value, as_str, as_array, and_then, or_else, unwrap_or, get_str}
use codex_mimo_adapter.Json
use codex_mimo_adapter.Project.Registry.{
  World, ProjectRegistry, ProjectRegistryEntry, ProjectPaths, Node, Nodes, file, folder, from_root,
  load, resolve_root, registry_dir_path, discover_from, codex_thread_ids, codex_home_dir,
  validate_recovered_project,
}
use codex_mimo_adapter.Text.{strip_suffix}

-- the first that is given
abbrev first_some {ℓ κ} : {A : Type ℓ} {B : Type κ} → (A → Option B) → List A → Option B
first_some f [] = none
first_some f (x ∷ xs) = or_else (f x) (first_some f xs)

-- the last that is given, as a search from the end finds it
abbrev last_some {ℓ κ} : {A : Type ℓ} {B : Type κ} → (A → Option B) → List A → Option B
last_some f [] = none
last_some f (x ∷ xs) = or_else (last_some f xs) (f x)

abbrev names_one : List String → String → Bool
names_one ids text = any (λ id. contains_str id text) ids

-- times of the last change, where one that is not known comes first
abbrev not_later : Option ℕ → Option ℕ → Bool
not_later none b = true
not_later (some a) none = false
not_later (some a) (some b) = leb a b

module _ (key : FilePath → Option ℕ) where
  abbrev place : FilePath → List FilePath → List FilePath
  place path [] = path ∷ []
  place path (q ∷ files) =
      let rest = place path files in
      if not_later (key path) (key q) then path ∷ q ∷ files else q ∷ rest

  -- `sort_by_key`, which leaves equal keys in their order
  unfoldable pub sort_by_key : List FilePath → List FilePath
  sort_by_key [] = []
  sort_by_key (path ∷ files) = place path (sort_by_key files)

-- `collect_session_files` on a folder and what it holds
unfoldable mutual
  unfolding strip_suffix

  pub collect_session_files : FilePath → List String → Nodes → List FilePath
  collect_session_files dir ids Nodes.nil = []
  collect_session_files dir ids (Nodes.cons node nodes) =
      collect_node dir ids node ++ collect_session_files dir ids nodes

  pub collect_node : FilePath → List String → Node → List FilePath
  collect_node dir ids (folder name nodes) = collect_session_files (name ∷ dir) ids nodes
  collect_node dir ids (file name) =
      if is_some (strip_suffix ".jsonl" name) && names_one ids name then (name ∷ dir) ∷ [] else []

module _ (world : World) where
  open world use {
    var, current_dir, exists, read_to_string, read_dir, modified, path_of_text, json_from_str,
  }

  unfoldable pub cwd_of_process : List String → Value → Option FilePath
  cwd_of_process ids entry =
      let named = filter_map (λ key. get_str key entry) ("conversationId" ∷ "turnId" ∷ "id" ∷ []) in
      if any (names_one ids) named
      then and_then (get_str "cwd" entry) (λ cwd. some (path_of_text cwd))
      else none

  unfoldable pub find_cwd_in_process_manager : FilePath → List String → Option FilePath
  unfolding cwd_of_process
  find_cwd_in_process_manager codex_home ids =
      and_then (read_to_string ("chat_processes.json" ∷ "process_manager" ∷ codex_home))
        (λ contents.
          and_then (json_from_str contents)
            (λ value. and_then (as_array value) (last_some (cwd_of_process ids))))

  unfoldable pub cwd_of_line : String → Option FilePath
  cwd_of_line line = and_then (json_from_str line) (λ value.
      and_then (Json.get "payload" value) (λ payload.
        and_then
          (or_else (get_str "cwd" payload)
            (and_then (Json.get "session_meta" payload) (get_str "cwd")))
          (λ cwd. some (path_of_text cwd))))

  unfoldable pub find_cwd_in_session_file : FilePath → Option FilePath
  unfolding lines cwd_of_line
  find_cwd_in_session_file path =
      and_then (read_to_string path) (λ contents. first_some cwd_of_line (lines contents))

  unfoldable pub find_cwd_in_sessions : FilePath → List String → Option FilePath
  unfolding collect_session_files sort_by_key find_cwd_in_session_file
  find_cwd_in_sessions codex_home ids =
      let sessions_dir = "sessions" ∷ codex_home in
      let found = unwrap_or [] (
        and_then (read_dir sessions_dir)
          (λ nodes. some (collect_session_files sessions_dir ids nodes))) in
      last_some find_cwd_in_session_file (sort_by_key modified found)

  unfoldable pub accepted : ProjectPaths → Result String ProjectPaths
  unfolding validate_recovered_project
  accepted paths = validate_recovered_project world paths >> ok paths

  -- the project that `CODEX_MIMO_PROJECT_ID` names
  unfoldable pub named_project : ProjectRegistry → String → Result String ProjectPaths
  unfolding resolve_root accepted from_root
  named_project registry pid = elim (resolve_root world registry pid) [
    | some root ↦ accepted (from_root root)
    | none ↦
        err
          "CODEX_MIMO_PROJECT_ID is set to \"{pid}\" but no matching project was found in the registry.\n Run 'codex-mimo-adapter init' from the project root to register it."
  ]

  -- in the order in which the map is read
  abbrev pub project_ids : ProjectRegistry → List String
  project_ids = map (λ (id, entry). id)

  -- the only project that is registered
  unfoldable pub only_project : ProjectRegistry → Result String ProjectPaths
  unfolding accepted from_root
  only_project [] =
      err
        "No MiMo adapter projects found.\n Run 'codex-mimo-adapter init' from your project root to create one."
  only_project ((pid, entry) ∷ []) = accepted (from_root (path_of_text entry.root))
  only_project (a ∷ b ∷ more) = err (
      concat (
        "Multiple MiMo adapter projects are registered, but no project context was found.\n Registered projects: "
        ∷ join ", " (project_ids (a ∷ b ∷ more))
        ∷ "\n To fix this, set CODEX_MIMO_PROJECT_ID=<project_id>, run from a project directory, or start Codex from within an initialized project directory."
        ∷ []))

  -- the folder of the thread that the process belongs to
  unfoldable pub thread_cwd : Option FilePath
  unfolding codex_thread_ids codex_home_dir find_cwd_in_process_manager find_cwd_in_sessions
  thread_cwd =
      let ids = codex_thread_ids world in
      and_then (codex_home_dir world) (λ codex_home.
        if is_nil ids
        then none
        else or_else (find_cwd_in_process_manager codex_home ids)
            (find_cwd_in_sessions codex_home ids))

  -- the project above a folder, where there is one
  unfoldable pub project_above : String → FilePath → Option (Result String ProjectPaths)
  unfolding accepted from_root
  project_above context cwd =
      let discovered = discover_from world cwd in
      if exists discovered.env_file
      then some (
          map_err (λ error. context) (validate_recovered_project world discovered) >> ok discovered)
      else none

  abbrev pub explicit_id : Option String
  explicit_id =
      and_then (var "CODEX_MIMO_PROJECT_ID")
        (λ value. let pid = trim value in if is_empty pid then none else some pid)

  unfoldable pub search : ProjectRegistry → Result String ProjectPaths
  unfolding project_above thread_cwd only_project
  search registry = ok_or current_dir "failed to resolve current working directory" >>= λ cwd.
      unwrap_or (only_project registry) (
        or_else (project_above "found project env file but registry check failed" cwd) (
          and_then thread_cwd
            (project_above "found project via Codex thread context but registry check failed")))

  unfoldable pub resolve_project : Result String ProjectPaths
  unfolding search named_project load registry_dir_path trim
  resolve_project = registry_dir_path world >>= λ reg_dir.
      let registry = load world reg_dir in
      elim explicit_id [ some pid ↦ named_project registry pid | none ↦ search registry ]
