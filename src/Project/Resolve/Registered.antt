-- ===== src/Project/Resolve/Registered.antt =====
-- The project that the search finds is a registered one.
use codex_mimo_adapter.Base.{
  String, Bool, true, false, ◌≡◌, refl, Option, none, some, [], ◌∷◌, if◌then◌else◌,
}
use mathlib.Core.Path.{subst}
use codex_mimo_adapter.Base.Assoc.{get}
use codex_mimo_adapter.Base.Result.{
  Result, ok, err, map_err, ok_or, ◌>>=◌, ◌>>◌, >>=-eq-ok, ok_injective, map_err-eq-ok, ok_or-eq-ok,
}
use codex_mimo_adapter.Config.{Env}
use codex_mimo_adapter.Init.{FilePath}
use codex_mimo_adapter.Json.{and_then, or_else, unwrap_or}
use codex_mimo_adapter.Project.Registry.{
  World, ProjectRegistry, ProjectPaths, from_root, load, resolve_root, registry_dir_path,
  read_project_env, discover_from, same_path, ensure, validate_recovered_project,
}
use codex_mimo_adapter.Project.Resolve.{
  accepted, named_project, only_project, thread_cwd, project_above, explicit_id, search,
  resolve_project,
}

ensure-eq-ok : (b : Bool) (what : String) → ensure b what ≡ ok tt → b ≡ true
ensure-eq-ok true what h = refl
ensure-eq-ok false what h = cc

module _ (world : World) where
  -- The project's own file names an identifier, and the registry has the project's root under it.
  abbrev pub IsRegistered : ProjectPaths → Type 0
  IsRegistered paths =
      (project_env : Env) × (project_id : String) × (registry_dir registered_root : FilePath)
      × (world.exists paths.env_file ≡ true)
      × (read_project_env world paths.env_file ≡ ok project_env)
      × (get "CODEX_MIMO_PROJECT_ID" project_env ≡ some project_id)
      × (registry_dir_path world ≡ ok registry_dir)
      × (resolve_root world (load world registry_dir) project_id ≡ some registered_root)
      × (same_path world registered_root paths.root ≡ true)

  -- the steps of `validate_recovered_project`, each with what it reads
  abbrev root_matches : ProjectPaths → FilePath → Result String (Unit {0})
  root_matches paths registered_root =
      ensure (same_path world registered_root paths.root)
        "project root does not match registry entry"

  abbrev root_found : ProjectPaths → String → FilePath → Result String (Unit {0})
  root_found paths project_id registry_dir =
      ok_or (resolve_root world (load world registry_dir) project_id)
        "project is not registered in the registry"
      >>= root_matches paths

  abbrev id_read : ProjectPaths → String → Result String (Unit {0})
  id_read paths project_id = registry_dir_path world >>= root_found paths project_id

  abbrev env_read : ProjectPaths → Env → Result String (Unit {0})
  env_read paths project_env =
      ok_or (get "CODEX_MIMO_PROJECT_ID" project_env)
        "CODEX_MIMO_PROJECT_ID is missing in project env"
      >>= id_read paths

  validate-IsRegistered :
      (paths : ProjectPaths) → validate_recovered_project world paths ≡ ok tt → IsRegistered paths
  unfolding validate_recovered_project
  validate-IsRegistered paths h =
      let (there, is_there, h1) =
        >>=-eq-ok (ensure (world.exists paths.env_file) "project has no env file")
          (λ there. read_project_env world paths.env_file >>= env_read paths) h in
      let (project_env, reads, h2) =
        >>=-eq-ok (read_project_env world paths.env_file) (env_read paths) h1 in
      let (project_id, has, h3) =
        >>=-eq-ok
          (ok_or (get "CODEX_MIMO_PROJECT_ID" project_env)
            "CODEX_MIMO_PROJECT_ID is missing in project env")
          (id_read paths) h2 in
      let (registry_dir, dir, h4) =
        >>=-eq-ok (registry_dir_path world) (root_found paths project_id) h3 in
      let (registered_root, found, h5) =
        >>=-eq-ok
          (ok_or (resolve_root world (load world registry_dir) project_id)
            "project is not registered in the registry")
          (root_matches paths) h4 in
      (
        project_env,
        project_id,
        registry_dir,
        registered_root,
        ensure-eq-ok (world.exists paths.env_file) "project has no env file" is_there,
        reads,
        ok_or-eq-ok (get "CODEX_MIMO_PROJECT_ID" project_env)
            "CODEX_MIMO_PROJECT_ID is missing in project env" has,
        dir,
        ok_or-eq-ok (resolve_root world (load world registry_dir) project_id)
            "project is not registered in the registry" found,
        ensure-eq-ok (same_path world registered_root paths.root)
            "project root does not match registry entry" h5,
      )

  -- every project that it gives is registered
  abbrev Registers : Result String ProjectPaths → Type 0
  Registers (ok paths) = IsRegistered paths
  Registers (err error) = Unit

  -- every project that it gives, where it is reached, is registered
  abbrev RegistersIf : Option (Result String ProjectPaths) → Type 0
  RegistersIf none = Unit
  RegistersIf (some found) = Registers found

  checked-Registers :
      (paths : ProjectPaths) (check : Result String (Unit {0}))
      → (check ≡ ok tt → IsRegistered paths)
      → Registers (check >> ok paths)
  checked-Registers paths (ok done) found = found refl
  checked-Registers paths (err error) found = tt

  accepted-Registers : (paths : ProjectPaths) → Registers (accepted world paths)
  unfolding accepted
  accepted-Registers paths =
      checked-Registers paths (validate_recovered_project world paths) (validate-IsRegistered paths)

  case-Registers {ℓ} :
      {A : Type ℓ} (o : Option A) (f : A → Result String ProjectPaths)
      (otherwise : Result String ProjectPaths)
      → ((a : A) → Registers (f a))
      → Registers otherwise
      → Registers (elim o [ some a ↦ f a | none ↦ otherwise ])
  case-Registers none f otherwise on_some on_none = on_none
  case-Registers (some a) f otherwise on_some on_none = on_some a

  bind-Registers {ℓ} :
      {A : Type ℓ} (m : Result String A) (f : A → Result String ProjectPaths)
      → ((a : A) → Registers (f a))
      → Registers (m >>= f)
  bind-Registers (ok a) f on_ok = on_ok a
  bind-Registers (err error) f on_ok = tt

  if-RegistersIf :
      (b : Bool) (found : Result String ProjectPaths)
      → Registers found
      → RegistersIf (if b then some found else none)
  if-RegistersIf true found h = h
  if-RegistersIf false found h = tt

  named_project-Registers :
      (registry : ProjectRegistry) (pid : String) → Registers (named_project world registry pid)
  unfolding named_project
  named_project-Registers registry pid =
      case-Registers (resolve_root world registry pid) (λ root. accepted world (from_root root))
        (err _) (λ root. accepted-Registers (from_root root)) tt

  only_project-Registers : (registry : ProjectRegistry) → Registers (only_project world registry)
  unfolding only_project
  only_project-Registers [] = tt
  only_project-Registers ((pid, entry) ∷ []) =
      accepted-Registers (from_root (world.path_of_text entry.root))
  only_project-Registers (a ∷ b ∷ more) = tt

  project_above-RegistersIf :
      (context : String) (cwd : FilePath) → RegistersIf (project_above world context cwd)
  unfolding project_above
  project_above-RegistersIf context cwd =
      let paths = discover_from world cwd in
      let check = validate_recovered_project world paths in
      if-RegistersIf (world.exists paths.env_file) (map_err (λ error. context) check >> ok paths) (
        checked-Registers paths (map_err (λ error. context) check)
          (λ h. validate-IsRegistered paths (map_err-eq-ok (λ error. context) check h)))

  unwrap-Registers :
      (a : Result String ProjectPaths) (o : Option (Result String ProjectPaths))
      → Registers a
      → RegistersIf o
      → Registers (unwrap_or a o)
  unwrap-Registers a none x y = x
  unwrap-Registers a (some b) x y = y

  or_else-RegistersIf :
      (a b : Option (Result String ProjectPaths))
      → RegistersIf a
      → RegistersIf b
      → RegistersIf (or_else a b)
  or_else-RegistersIf none b x y = y
  or_else-RegistersIf (some a) b x y = x

  and_then-RegistersIf :
      (o : Option FilePath) (f : FilePath → Option (Result String ProjectPaths))
      → ((p : FilePath) → RegistersIf (f p))
      → RegistersIf (and_then o f)
  and_then-RegistersIf none f h = tt
  and_then-RegistersIf (some p) f h = h p

  search-Registers : (registry : ProjectRegistry) → Registers (search world registry)
  unfolding search
  search-Registers registry =
      bind-Registers (ok_or world.current_dir "failed to resolve current working directory") _
        (λ cwd. unwrap-Registers (only_project world registry) _ (only_project-Registers registry) (
          or_else-RegistersIf
            (project_above world "found project env file but registry check failed" cwd) _
            (project_above-RegistersIf "found project env file but registry check failed" cwd)
            (and_then-RegistersIf (thread_cwd world) _ (
              project_above-RegistersIf
                "found project via Codex thread context but registry check failed"))))

  resolve-Registers : Registers (resolve_project world)
  unfolding resolve_project
  resolve-Registers = bind-Registers (registry_dir_path world) _ (λ reg_dir.
      case-Registers (explicit_id world) _ _ (named_project-Registers (load world reg_dir))
        (search-Registers (load world reg_dir)))

  Registers-ok :
      (r : Result String ProjectPaths) {paths : ProjectPaths}
      → Registers r
      → r ≡ ok paths
      → IsRegistered paths
  Registers-ok (ok p) h e = subst IsRegistered (ok_injective e) h
  Registers-ok (err error) h e = absurd (cc)

  -- Whichever way `resolve_project` finds a project, by its identifier, above the folder of the
  -- process or of its thread, or as the only one: the project's own file can be read and names an
  -- identifier, and the registry has the project's root under that identifier.
  pub resolve_project-IsRegistered :
      {paths : ProjectPaths} → resolve_project world ≡ ok paths → IsRegistered paths
  resolve_project-IsRegistered h = Registers-ok (resolve_project world) resolve-Registers h
