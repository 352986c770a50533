-- ===== src/Config/Valid.antt =====
-- What holds of every configuration that is accepted.
use codex_mimo_adapter.Base.{
  ℕ, ◌<◌, String, ◌≡◌, ◌≢◌, refl, ◌∙◌, arith, true, false, Bool-cases, Option-cases, Option, none,
  some, eq_refl, inl, inr,
}
use mathlib.Core.Path.{subst}
use codex_mimo_adapter.Base.Assoc.{get}
use codex_mimo_adapter.Base.Int.{ℤ}
use codex_mimo_adapter.Base.Parse.{parse_unsigned, parse_unsigned-lt}
use codex_mimo_adapter.Base.Result.{map_err-eq-ok, ok_or-eq-ok, Result, ok, err, ◌>>◌}
use codex_mimo_adapter.Base.Str.{trim, is_empty}
use codex_mimo_adapter.Json.{or_else}
use codex_mimo_adapter.Config.{
  Config, ConfigOverrides, Env, is_key, validate, not_blank, choose_optional_string,
  choose_required_string, choose_inherited_key, choose_mimo_api_key, choose_parse, choose_port,
  choose_u64, choose_state_ttl_seconds, assemble, chosen, default_port, default_timeout_seconds,
  default_max_request_bytes, default_max_concurrency, from_sources,
}

-- What the types of the overrides say of their numbers.
abbrev pub Below : ℕ → Option ℕ → Type 0
Below limit none = Unit
Below limit (some n) = n < limit

abbrev pub u64_limit : ℕ
u64_limit = 0x10000000000000000

pub record FitsTypes (o : ConfigOverrides) : Type 0 where
  pub port : Below 0x10000 o.port
  pub timeout : Below u64_limit o.timeout_seconds
  pub bytes : Below u64_limit o.max_request_bytes
  pub concurrency : Below u64_limit o.max_concurrency

pub record IsValid (c : Config) : Type 0 where
  pub port : c.port < 0x10000
  pub timeout : c.timeout_seconds < u64_limit
  pub bytes : c.max_request_bytes < u64_limit
  pub concurrency : (0 < c.max_concurrency) × (c.max_concurrency < u64_limit)
  pub key : is_empty (trim c.upstream_key) ≡ false
  pub token : c.local_token ≢ some c.upstream_key

not_blank_lem :
    (o : Option String) {value : String} → not_blank o ≡ some value → is_empty (trim value) ≡ false
not_blank_lem none h = cc
not_blank_lem (some value) h = elim (Bool-cases (is_empty (trim value))) [
  | inl e ↦ absurd (cc (rw e at h))
  | inr e ↦ ground (arith, e, (rw e at h))
]

module _ (project_env env : Env) where
  choose_required_string_filled :
      (cli : Option String) (name : String) {key : String}
      → choose_required_string project_env env cli name ≡ ok key
      → is_empty (trim key) ≡ false
  unfolding choose_required_string
  choose_required_string_filled cli name h =
      not_blank_lem (choose_optional_string project_env env cli name) (ok_or-eq-ok _ _ h)

  choose_inherited_key_filled :
      {key : String} → choose_inherited_key project_env env ≡ ok key → is_empty (trim key) ≡ false
  unfolding choose_inherited_key
  choose_inherited_key_filled h =
      elim (Bool-cases (is_key (get "CODEX_MIMO_API_KEY_SOURCE" project_env) "process")) [
        | inl e ↦
            not_blank_lem (get "MIMO_API_KEY" env)
              (ok_or-eq-ok _ _ (rw (e, choose_inherited_key) at h))
        | inr e ↦
            choose_required_string_filled none "MIMO_API_KEY" (rw (e, choose_inherited_key) at h)
      ]

  either_filled :
      (first second : Option String) {key : String}
      → or_else (not_blank first) (not_blank second) ≡ some key
      → is_empty (trim key) ≡ false
  either_filled first second h = elim (Option-cases (not_blank first)) [
    | inl e ↦ not_blank_lem second (rw e at h)
    | inr (value, e) ↦ not_blank_lem first (e ∙ (rw e at h))
  ]

  choose_mimo_api_key_filled :
      (cli : Option String) {key : String}
      → choose_mimo_api_key project_env env cli ≡ ok key
      → is_empty (trim key) ≡ false
  unfolding choose_mimo_api_key
  choose_mimo_api_key_filled cli {key} h =
      let own = or_else (not_blank cli) (not_blank (get "MIMO_API_KEY" project_env)) in
      elim (Option-cases own) [
        | inr (value, e) ↦
            let same : value ≡ key = ground (arith, (rw (e, choose_mimo_api_key) at h)) in
            subst (λ k. is_empty (trim k) ≡ false) same
              (either_filled cli (get "MIMO_API_KEY" project_env) e)
        | inl e ↦ choose_inherited_key_filled (rw (e, choose_mimo_api_key) at h)
      ]

  choose_parse-lt :
      (limit : ℕ) (cli : Option ℕ) (key : String) (default : ℕ) {n : ℕ}
      → 0 < limit
      → default < limit
      → Below limit cli
      → choose_parse project_env env (parse_unsigned limit) cli key default ≡ ok n
      → n < limit
  unfolding choose_parse
  choose_parse-lt limit (some value) key default p d b h = ground (arith, h)
  choose_parse-lt limit none key default p d b h = elim (Option-cases (get key project_env)) [
    | inr (value, e) ↦
        parse_unsigned-lt limit value p
          (map_err-eq-ok _ (parse_unsigned limit value) (rw (e, choose_parse) at h))
    | inl e ↦ elim (Option-cases (get key env)) [
      | inr (value, e') ↦
          parse_unsigned-lt limit value p
            (map_err-eq-ok _ (parse_unsigned limit value) (rw (e, e', choose_parse) at h))
      | inl e' ↦ ground (arith, (rw (e, e', choose_parse) at h))
    ]
  ]

-- what a result holds, where it is one
abbrev Holds : {A : Type 0} → (A → Type 0) → Result String A → Type 0
Holds P (ok a) = P a
Holds P (err e) = Unit

Holds-intro :
    {A : Type 0} (P : A → Type 0) (r : Result String A) → ((a : A) → r ≡ ok a → P a) → Holds P r
Holds-intro P (ok a) h = h a refl
Holds-intro P (err e) h = tt

ok_injective : {a b : Config} → (let x : Result String Config = ok a in x) ≡ ok b → a ≡ b
ok_injective h = cc

module _ (project_env env : Env) where
  choose_port-Holds :
      (cli : Option ℕ)
      → Below 0x10000 cli
      → Holds (λ n. n < 0x10000) (choose_port project_env env cli)
  unfolding choose_port
  choose_port-Holds cli b =
      Holds-intro (λ n. n < 0x10000) (choose_port project_env env cli)
        λ n h.
          choose_parse-lt project_env env 0x10000 cli "CODEX_MIMO_PORT" default_port (omega arith)
            (omega arith) b h

  choose_u64-Holds :
      (cli : Option ℕ) (key : String) (default : ℕ)
      → default < u64_limit
      → Below u64_limit cli
      → Holds (λ n. n < u64_limit) (choose_u64 project_env env cli key default)
  unfolding choose_u64
  choose_u64-Holds cli key default d b =
      Holds-intro (λ n. n < u64_limit) (choose_u64 project_env env cli key default)
        λ n h. choose_parse-lt project_env env u64_limit cli key default (omega arith) d b h

  choose_mimo_api_key-Holds :
      (cli : Option String)
      → Holds (λ key. is_empty (trim key) ≡ false) (choose_mimo_api_key project_env env cli)
  choose_mimo_api_key-Holds cli =
      Holds-intro (λ key. is_empty (trim key) ≡ false) (choose_mimo_api_key project_env env cli)
        λ key h. choose_mimo_api_key_filled project_env env cli h

validate-token : (c : Config) → validate c ≡ ok tt → c.local_token ≢ some c.upstream_key
unfolding validate
validate-token c h e =
    let same : is_key c.local_token c.upstream_key ≡ true = rw e (eq_refl c.upstream_key) in
    absurd (cc (rw same at h))

validate-concurrency : (c : Config) → validate c ≡ ok tt → 0 < c.max_concurrency
unfolding validate
validate-concurrency c h = elim (Bool-cases (is_key c.local_token c.upstream_key)) [
  | inl e ↦ absurd (cc (rw e at h))
  | inr e ↦ ground (arith, (rw e at h))
]

checked-IsValid :
    (c : Config) (result : Result String (Unit {0})) {d : Config}
    → validate c ≡ result
    → c.port < 0x10000
    → is_empty (trim c.upstream_key) ≡ false
    → c.timeout_seconds < u64_limit
    → c.max_request_bytes < u64_limit
    → c.max_concurrency < u64_limit
    → (result >> ok c) ≡ ok d
    → IsValid d
checked-IsValid c (err e) is_result p k t b m h = cc
checked-IsValid c (ok checked) is_result p k t b m h = subst IsValid (ok_injective h) (record {
  port = p;
  timeout = t;
  bytes = b;
  concurrency = (validate-concurrency c is_result, m);
  key = k;
  token = validate-token c is_result;
})

assemble-IsValid :
    (o : ConfigOverrides) (project_env env : Env) (port : Result String ℕ)
    (key : Result String String) (ttl : Result String ℤ)
    (timeout bytes concurrency : Result String ℕ) {c : Config}
    → Holds (λ n. n < 0x10000) port
    → Holds (λ k. is_empty (trim k) ≡ false) key
    → Holds (λ n. n < u64_limit) timeout
    → Holds (λ n. n < u64_limit) bytes
    → Holds (λ n. n < u64_limit) concurrency
    → assemble o project_env env port key ttl timeout bytes concurrency ≡ ok c
    → IsValid c
unfolding assemble chosen
assemble-IsValid o project_env env (err e) key ttl timeout bytes concurrency p k t b m h = cc
assemble-IsValid o project_env env (ok port) (err e) ttl timeout bytes concurrency p k t b m h = cc
assemble-IsValid o project_env env (ok port) (ok key) (err e) timeout bytes concurrency p k t b m
      h =
    cc
assemble-IsValid o project_env env (ok port) (ok key) (ok ttl) (err e) bytes concurrency p k t b m
      h =
    cc
assemble-IsValid o project_env env (ok port) (ok key) (ok ttl) (ok timeout) (err e) concurrency p k
      t b m h =
    cc
assemble-IsValid o project_env env (ok port) (ok key) (ok ttl) (ok timeout) (ok bytes) (err e) p k t
      b m h =
    cc
assemble-IsValid o project_env env (ok port) (ok key) (ok ttl) (ok timeout) (ok bytes) (ok n) p k t
      b m h =
    let c = chosen o project_env env port key ttl timeout bytes n in
    checked-IsValid c (validate c) refl p k t b m h

-- Where the overrides fit their types, a configuration that is accepted has an upstream key that
-- is not blank and that the local token differs from, a port of 16 bits, a timeout, a request size
-- and a concurrency of 64 bits, and lets at least one request in, whatever the project's file and
-- the environment hold.
pub from_sources-IsValid :
    (project_env env : Env) (overrides : ConfigOverrides) {c : Config}
    → FitsTypes overrides
    → from_sources project_env env overrides ≡ ok c
    → IsValid c
unfolding from_sources
from_sources-IsValid project_env env o fits h =
    assemble-IsValid o project_env env (choose_port project_env env o.port)
      (choose_mimo_api_key project_env env o.upstream_key)
      (choose_state_ttl_seconds project_env env o.state_ttl_seconds)
      (choose_u64 project_env env o.timeout_seconds "CODEX_MIMO_TIMEOUT_SECONDS"
        default_timeout_seconds)
      (choose_u64 project_env env o.max_request_bytes "CODEX_MIMO_MAX_REQUEST_BYTES"
        default_max_request_bytes)
      (choose_u64 project_env env o.max_concurrency "CODEX_MIMO_MAX_CONCURRENCY"
        default_max_concurrency)
      (choose_port-Holds project_env env o.port fits.port)
      (choose_mimo_api_key-Holds project_env env o.upstream_key)
      (choose_u64-Holds project_env env o.timeout_seconds _ _ (omega arith) fits.timeout)
      (choose_u64-Holds project_env env o.max_request_bytes _ _ (omega arith) fits.bytes)
      (choose_u64-Holds project_env env o.max_concurrency _ _ (omega arith) fits.concurrency) h
