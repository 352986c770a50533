-- ===== src/Tests/Projects.antt =====
-- The search for the current project, from a folder inside of it.
use codex_mimo_adapter.Base.{
  Bool, List, String, false, ◌≡◌, refl, Option, none, some, [], ◌∷◌, ◌==◌, if◌then◌else◌,
}
use codex_mimo_adapter.Base.Int.{pos}
use codex_mimo_adapter.Base.Assoc.{get}
use codex_mimo_adapter.Base.Result.{ok}
use codex_mimo_adapter.Base.Str.{is_some}
use codex_mimo_adapter.Init.{FilePath}
use codex_mimo_adapter.Project.Registry.{World, ProjectRegistry, from_root, path_eq, discover_in}
use codex_mimo_adapter.Config.{Config, no_overrides}
use codex_mimo_adapter.Server.Refresh.{Opener, ProjectRuntime, refreshed}
use codex_mimo_adapter.Server.Refresh.Loaded.{get-refreshed}
use codex_mimo_adapter.Project.Clean.{
  IsMap, still_valid, clean_stale_registry, clean_stale_registry-saved,
}
use codex_mimo_adapter.Project.Resolve.{resolve_project}
use codex_mimo_adapter.Project.Resolve.Registered.{IsRegistered, resolve_project-IsRegistered}

abbrev files : FilePath → Option String
files path =
    if path_eq path (".codex-mimo-adapter.env" ∷ "shop" ∷ [])
    then some "CODEX_MIMO_PROJECT_ID=p-1\n"
    else if path_eq path ("project-registry.toml" ∷ ".codex-mimo-adapter" ∷ "home" ∷ [])
    then some "registry"
    else none

abbrev world : World
world = record {
  var = λ key. if key == "HOME" then some "home" else none;
  current_dir = some ("src" ∷ "shop" ∷ []);
  exists = λ path. is_some (files path);
  is_dir = λ path. path_eq path ("shop" ∷ []);
  is_file = λ path. is_some (files path);
  canonicalize = λ path. none;
  read_to_string = files;
  read_dir = λ path. none;
  modified = λ path. none;
  path_of_text = λ text. text ∷ [];
  display = λ path. "path";
  registry_from_toml = λ text. some (("p-1", record { root = "shop" }) ∷ []);
  json_from_str = λ text. none;
}

found : resolve_project world ≡ ok (from_root ("shop" ∷ []))
unfolding resolve_project discover_in
found = refl

resolve_project-IsRegistered_example : IsRegistered world (from_root ("shop" ∷ []))
resolve_project-IsRegistered_example = resolve_project-IsRegistered world found

-- a project that is there and one that is not
abbrev registry : ProjectRegistry
registry = ("p-0", record { root = "gone" }) ∷ ("p-1", record { root = "shop" }) ∷ []

registry-IsMap : IsMap registry
unfolding get
registry-IsMap = (refl, (refl, tt))

cleans :
    (clean_stale_registry world false registry).1 ≡ some (("p-1", record { root = "shop" }) ∷ [])
unfolding clean_stale_registry
cleans = refl

clean_stale_registry-saved_example :
    get "p-1" (("p-1", record { root = "shop" }) ∷ [])
    ≡ still_valid world "p-1" (get "p-1" registry)
clean_stale_registry-saved_example =
    clean_stale_registry-saved world false registry "p-1" registry-IsMap cleans

abbrev plain : Config
plain = record {
  host = "127.0.0.1";
  port = 4010;
  upstream_base = "https://mimo/v1";
  upstream_key = "sk-1";
  local_token = some "token";
  state_db = "state.sqlite";
  state_ttl_seconds = pos 60;
  timeout_seconds = 60;
  max_request_bytes = 1000;
  max_concurrency = 1;
}

-- one project loaded that is registered no longer
abbrev opener : Opener (Type 0) (Type 0)
opener = record {
  world = world;
  environment = [];
  overrides = no_overrides;
  state_db_path = λ root db. db;
  new_store = λ path ttl. ok Bool;
  new_client = λ base key timeout. ok Bool;
}

abbrev loaded : List (String × ProjectRuntime (Type 0) (Type 0))
loaded = ("p-9", record { config = plain; client = Bool; state = Bool }) ∷ []

get-refreshed_example : get "p-9" (refreshed opener registry loaded) ≡ none
unfolding get
get-refreshed_example = get-refreshed opener registry loaded "p-9" registry-IsMap
