-- ===== src/Tests/Configs.antt =====
-- Configurations from concrete sources.
use codex_mimo_adapter.Base.{◌≡◌, refl, some, [], ◌∷◌}
use codex_mimo_adapter.Base.Int.{pos, negsuc}
use codex_mimo_adapter.Base.Parse.{parse_unsigned, parse_i64}
use codex_mimo_adapter.Base.Result.{ok, err}
use codex_mimo_adapter.Config.{Config, Env, no_overrides, from_sources}
use codex_mimo_adapter.Config.Valid.{IsValid, from_sources-IsValid}

abbrev project_env : Env
project_env =
    ("CODEX_MIMO_LOCAL_TOKEN", "secret")
    ∷ ("CODEX_MIMO_PORT", "+4020")
    ∷ ("CODEX_MIMO_API_KEY_SOURCE", "process")
    ∷ []

abbrev env : Env
env = ("MIMO_API_KEY", "key") ∷ ("CODEX_MIMO_PORT", "1") ∷ []

abbrev pub config : Config
config = record {
  host = "127.0.0.1";
  port = 4020;
  upstream_base = "https://token-plan-cn.xiaomimimo.com/v1";
  upstream_key = "key";
  local_token = some "secret";
  state_db = ".codex-mimo/state.sqlite";
  state_ttl_seconds = pos 21600;
  timeout_seconds = 300;
  max_request_bytes = 8388608;
  max_concurrency = 8;
}

accepted : from_sources project_env env no_overrides ≡ ok config
unfolding from_sources
accepted = refl

from_sources-IsValid_example : IsValid config
from_sources-IsValid_example =
    from_sources-IsValid project_env env no_overrides
      (record { port = tt; timeout = tt; bytes = tt; concurrency = tt }) accepted

same_token :
    from_sources (("MIMO_API_KEY", "key") ∷ ("CODEX_MIMO_LOCAL_TOKEN", "key") ∷ []) [] no_overrides
    ≡ err "CODEX_MIMO_LOCAL_TOKEN must differ from MIMO_API_KEY"
unfolding from_sources
same_token = refl

too_large : parse_unsigned 65536 "65536" ≡ err "number too large to fit in target type"
unfolding parse_unsigned
too_large = refl

negative : parse_i64 "-12" ≡ ok (negsuc 11)
unfolding parse_i64
negative = refl
