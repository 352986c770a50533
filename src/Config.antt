-- ===== src/Config.antt =====
-- src/config.rs: the settings of an adapter, each from the command line, the project's file or the
-- process environment, in this order, or a default. `HashMap`s are lists of entries.
pub mod Valid
use codex_mimo_adapter.Base.{
  ℕ, ◌*◌, String, Bool, true, false, Option, none, some, List, [], ◌∷◌, ◌==◌, num_eq, if◌then◌else◌,
}
use mathlib.Core.Option
use codex_mimo_adapter.Base.Assoc.{get}
use codex_mimo_adapter.Base.Int.{ℤ, pos}
use codex_mimo_adapter.Base.Parse.{parse_unsigned, parse_i64}
use codex_mimo_adapter.Base.Result.{Result, ok, err, map_err, ok_or, ◌>>=◌, ◌>>◌}
use codex_mimo_adapter.Base.Str.{trim, is_empty, concat}
use codex_mimo_adapter.Json.{and_then, or_else, unwrap_or}

abbrev pub default_host : String
default_host = "127.0.0.1"

abbrev pub default_port : ℕ
default_port = 4010

abbrev pub default_upstream_base : String
default_upstream_base = "https://token-plan-cn.xiaomimimo.com/v1"

abbrev pub default_state_db : String
default_state_db = ".codex-mimo/state.sqlite"

abbrev pub default_state_ttl_seconds : ℤ
default_state_ttl_seconds = pos 21600

abbrev pub default_timeout_seconds : ℕ
default_timeout_seconds = 300

abbrev pub default_max_request_bytes : ℕ
default_max_request_bytes = 8 * 1024 * 1024

abbrev pub default_max_concurrency : ℕ
default_max_concurrency = 8

pub record Config : Type 0 where
  pub host : String
  pub port : ℕ
  pub upstream_base : String
  pub upstream_key : String
  pub local_token : Option String
  pub state_db : String
  pub state_ttl_seconds : ℤ
  pub timeout_seconds : ℕ
  pub max_request_bytes : ℕ
  pub max_concurrency : ℕ

pub record ConfigOverrides : Type 0 where
  pub host : Option String
  pub port : Option ℕ
  pub upstream_base : Option String
  pub upstream_key : Option String
  pub local_token : Option String
  pub state_db : Option String
  pub state_ttl_seconds : Option ℤ
  pub timeout_seconds : Option ℕ
  pub max_request_bytes : Option ℕ
  pub max_concurrency : Option ℕ

abbrev pub no_overrides : ConfigOverrides
no_overrides = record {
  host = none;
  port = none;
  upstream_base = none;
  upstream_key = none;
  local_token = none;
  state_db = none;
  state_ttl_seconds = none;
  timeout_seconds = none;
  max_request_bytes = none;
  max_concurrency = none;
}

-- `Config::validate`
abbrev pub is_key : Option String → String → Bool
is_key none key = false
is_key (some token) key = token == key

unfoldable pub validate : Config → Result String (Unit {0})
validate c =
    if is_key c.local_token c.upstream_key
    then err "CODEX_MIMO_LOCAL_TOKEN must differ from MIMO_API_KEY"
    else if num_eq c.max_concurrency 0
    then err "CODEX_MIMO_MAX_CONCURRENCY must be greater than zero"
    else ok tt

abbrev pub Env : Type 0
Env = List (String × String)

-- `filter(|value| !value.trim().is_empty())`
abbrev pub not_blank : Option String → Option String
not_blank none = none
not_blank (some value) = if is_empty (trim value) then none else some value

module _ (project_env env : Env) where
  unfoldable pub choose_optional_string : Option String → String → Option String
  unfolding get
  choose_optional_string cli key = or_else (or_else cli (get key project_env)) (get key env)

  unfoldable pub choose_string : Option String → String → String → String
  unfolding get
  choose_string cli key default =
      unwrap_or default (or_else (or_else cli (get key project_env)) (get key env))

  unfoldable pub choose_required_string : Option String → String → Result String String
  unfolding choose_optional_string trim
  choose_required_string cli key =
      ok_or (not_blank (choose_optional_string cli key)) (concat (key ∷ " is required" ∷ []))

  abbrev pub project_env_api_key_source : String
  project_env_api_key_source = "CODEX_MIMO_API_KEY_SOURCE"

  abbrev pub process_key_error : String
  process_key_error =
      "MIMO_API_KEY is required in the inherited process environment because project config uses CODEX_MIMO_API_KEY_SOURCE=process"

  -- the project's own key is missing or blank
  unfoldable pub choose_inherited_key : Result String String
  unfolding get choose_required_string trim
  choose_inherited_key =
      if is_key (get "CODEX_MIMO_API_KEY_SOURCE" project_env) "process"
      then ok_or (not_blank (get "MIMO_API_KEY" env)) process_key_error
      else choose_required_string none "MIMO_API_KEY"

  unfoldable pub choose_mimo_api_key : Option String → Result String String
  unfolding get choose_inherited_key trim
  choose_mimo_api_key cli =
      elim (or_else (not_blank cli) (not_blank (get "MIMO_API_KEY" project_env))) [
        | some value ↦ ok value
        | none ↦ choose_inherited_key
      ]

  abbrev pub parse_error : String → String → String → String
  parse_error key place error = concat ("invalid " ∷ key ∷ " value in " ∷ place ∷ ": " ∷ error ∷ [])

  -- `choose_parse::<T>`, by the parser of `T`
  unfoldable pub choose_parse :
      {T : Type 0} → (String → Result String T) → Option T → String → T → Result String T
  unfolding get
  choose_parse parse (some value) key default = ok value
  choose_parse parse none key default = elim (get key project_env) [
    | some value ↦ map_err (parse_error key "project config") (parse value)
    | none ↦ elim (get key env) [
      | some value ↦ map_err (parse_error key "environment") (parse value)
      | none ↦ ok default
    ]
  ]

  -- the numbers that `Config::from_sources` chooses; `usize` has 64 bits
  unfoldable pub choose_port : Option ℕ → Result String ℕ
  unfolding choose_parse parse_unsigned
  choose_port cli = choose_parse (parse_unsigned 0x10000) cli "CODEX_MIMO_PORT" default_port

  unfoldable pub choose_state_ttl_seconds : Option ℤ → Result String ℤ
  unfolding choose_parse parse_i64
  choose_state_ttl_seconds cli =
      choose_parse parse_i64 cli "CODEX_MIMO_STATE_TTL_SECONDS" default_state_ttl_seconds

  -- a number of 64 bits
  unfoldable pub choose_u64 : Option ℕ → String → ℕ → Result String ℕ
  unfolding choose_parse parse_unsigned
  choose_u64 cli key default = choose_parse (parse_unsigned 0x10000000000000000) cli key default

-- the check of what was chosen, at the end of `Config::from_sources`
abbrev pub validated : Config → Result String Config
validated config = do validate config; ok config

-- the configuration that is built of what was chosen
unfoldable pub chosen : ConfigOverrides → Env → Env → ℕ → String → ℤ → ℕ → ℕ → ℕ → Config
unfolding choose_string choose_optional_string
chosen o project_env env port key ttl timeout bytes concurrency = record {
  host = choose_string project_env env o.host "CODEX_MIMO_HOST" default_host;
  port = port;
  upstream_base =
      choose_string project_env env o.upstream_base "MIMO_API_BASE_URL" default_upstream_base;
  upstream_key = key;
  local_token = choose_optional_string project_env env o.local_token "CODEX_MIMO_LOCAL_TOKEN";
  state_db = choose_string project_env env o.state_db "CODEX_MIMO_STATE_DB" default_state_db;
  state_ttl_seconds = ttl;
  timeout_seconds = timeout;
  max_request_bytes = bytes;
  max_concurrency = concurrency;
}

-- `Config::from_sources` behind its choices, the first of which that failed is the error
unfoldable pub assemble :
    ConfigOverrides
    → Env
    → Env
    → Result String ℕ
    → Result String String
    → Result String ℤ
    → Result String ℕ
    → Result String ℕ
    → Result String ℕ
    → Result String Config
unfolding chosen validate
assemble o project_env env port key ttl timeout bytes concurrency = do
  port' ← port
  key' ← key
  ttl' ← ttl
  timeout' ← timeout
  bytes' ← bytes
  concurrency' ← concurrency
  validated (chosen o project_env env port' key' ttl' timeout' bytes' concurrency')

-- `Config::from_sources`
unfoldable pub from_sources : Env → Env → ConfigOverrides → Result String Config
unfolding choose_port choose_mimo_api_key choose_state_ttl_seconds choose_u64 assemble
from_sources project_env env o =
    assemble o project_env env (choose_port project_env env o.port)
      (choose_mimo_api_key project_env env o.upstream_key)
      (choose_state_ttl_seconds project_env env o.state_ttl_seconds)
      (choose_u64 project_env env o.timeout_seconds "CODEX_MIMO_TIMEOUT_SECONDS"
        default_timeout_seconds)
      (choose_u64 project_env env o.max_request_bytes "CODEX_MIMO_MAX_REQUEST_BYTES"
        default_max_request_bytes)
      (choose_u64 project_env env o.max_concurrency "CODEX_MIMO_MAX_CONCURRENCY"
        default_max_concurrency)
