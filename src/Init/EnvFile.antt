-- ===== src/Init/EnvFile.antt =====
-- src/init.rs: the env files that the setup writes.
pub mod Readable
use codex_mimo_adapter.Base.{ℕ, String, str_append, Bool, true, false, List, [], ◌∷◌, ◌++◌}
use codex_mimo_adapter.Base.Decimal.{decimal}
use codex_mimo_adapter.Base.Str.{concat}
use codex_mimo_adapter.Config.{
  Env, default_state_db, default_timeout_seconds, default_max_request_bytes,
  default_max_concurrency,
}

-- lines `key=value`
unfoldable pub env_lines : Env → String
env_lines [] = ""
env_lines ((key, value) ∷ settings) =
    str_append key (String.◌∷◌ "=" (str_append value (String.◌∷◌ "\n" (env_lines settings))))

pub data ApiKeySource : Type 0 where
  project_env process_env : ApiKeySource

-- `api_key_entry`
abbrev pub api_key_entry : ApiKeySource → String → Env
api_key_entry project_env api_key = ("MIMO_API_KEY", api_key) ∷ []
api_key_entry process_env api_key = ("CODEX_MIMO_API_KEY_SOURCE", "process") ∷ []

-- what `InitArgs` sets of the settings
pub record Args : Type 0 where
  pub host : String
  pub port : ℕ
  pub upstream_base : String

-- the settings that both files end with, but for the store's file in the middle
unfoldable pub common_settings : Args → String → Env
unfolding decimal
common_settings args state_db =
    ("CODEX_MIMO_HOST", args.host)
    ∷ ("CODEX_MIMO_PORT", decimal args.port)
    ∷ ("MIMO_API_BASE_URL", args.upstream_base)
    ∷ ("CODEX_MIMO_STATE_DB", state_db)
    ∷ ("CODEX_MIMO_STATE_TTL_SECONDS", "21600")
    ∷ ("CODEX_MIMO_TIMEOUT_SECONDS", decimal default_timeout_seconds)
    ∷ ("CODEX_MIMO_MAX_REQUEST_BYTES", decimal default_max_request_bytes)
    ∷ ("CODEX_MIMO_MAX_CONCURRENCY", decimal default_max_concurrency)
    ∷ []

-- `env_contents` of `run_init`
unfoldable pub project_settings : ApiKeySource → String → String → String → Args → Env
unfolding common_settings
project_settings source api_key local_token project_id args =
    api_key_entry source api_key
    ++ (("CODEX_MIMO_LOCAL_TOKEN", local_token)
        ∷ ("CODEX_MIMO_PROJECT_ID", project_id)
        ∷ common_settings args default_state_db)

-- `global_env` of `run_global_init`
unfoldable pub global_settings : String → Args → Env
unfolding common_settings
global_settings local_token args =
    api_key_entry process_env ""
    ++ (("CODEX_MIMO_LOCAL_TOKEN", local_token) ∷ common_settings args "global-state.sqlite")
