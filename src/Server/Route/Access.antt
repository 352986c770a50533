-- ===== src/Server/Route/Access.antt =====
-- Who may ask: exactly those who show the token of a loaded project.
use codex_mimo_adapter.Base.{
  String, ◌≡◌, ◌↔◌, refl, sym, ap, ◌∙◌, arith, Bool, true, false, Option, none, some, List, [], ◌∷◌,
  eq_iff, any, inl, inr, Bool-cases, Option-cases, eq_refl, str_append,
}
use mathlib.Core.Path.{subst}
use codex_mimo_adapter.Base.Result.{ok, >>=-eq-ok}
use codex_mimo_adapter.Base.Str.{strip_prefix, is_empty}
use codex_mimo_adapter.Text.Think.{strip_prefix_lem}
use codex_mimo_adapter.Config.{Config}
use codex_mimo_adapter.Project.Ids.{Digests, sign_adapter_token, validate_adapter_token}
use codex_mimo_adapter.Server.Route.{
  accepts, runtime_accepts_token, adapter_bearer_token, authorize_adapter, guard,
}
use codex_mimo_adapter.Server.Route.Listed.{strip_prefix_self}

-- A loaded project whose local token is set and not empty, and the header that shows the token signed by it.
pub data Shows (digests : Digests) (header : Option String) : List Config → Type 0 where
  here :
      {config : Config} {configs : List Config} (local_token : String)
      → config.local_token ≡ some local_token
      → is_empty local_token ≡ false
      → header ≡ some (str_append "Bearer " (sign_adapter_token digests local_token))
      → Shows digests header (config ∷ configs)
  there :
      {config : Config} {configs : List Config}
      → Shows digests header configs
      → Shows digests header (config ∷ configs)

module _ (digests : Digests) where
  accepts_lem :
      (token : String) (local_token : Option String)
      → accepts digests token local_token ≡ true
      → (secret : String) × (local_token ≡ some secret)
        × (is_empty secret ≡ false)
        × (token ≡ sign_adapter_token digests secret)
  unfolding validate_adapter_token
  accepts_lem token none h = cc
  accepts_lem token (some secret) h = (
    secret,
    refl,
    ground (arith, h),
    (eq_iff token (sign_adapter_token digests secret)).0 (ground (arith, h)),
  )

  shown :
      (token : String) (configs : List Config)
      → any (λ config. runtime_accepts_token digests config token) configs ≡ true
      → Shows digests (some (str_append "Bearer " token)) configs
  unfolding runtime_accepts_token
  shown token [] h = cc
  shown token (config ∷ configs) h = elim (Bool-cases (accepts digests token config.local_token)) [
    | inl e ↦
        let (secret, is, filled, signed) = accepts_lem token config.local_token e in
        here secret is filled (ap (λ t. some (str_append "Bearer " t)) signed)
    | inr e ↦ there (shown token configs (rw e at h))
  ]

  guarded : (b : Bool) (message : String) → guard b message ≡ ok tt → b ≡ true
  guarded true message h = refl
  guarded false message h = cc

  bearer :
      (header : Option String) {token : String}
      → adapter_bearer_token digests header ≡ ok token
      → header ≡ some (str_append "Bearer " token)
  unfolding adapter_bearer_token
  bearer none h = cc
  bearer (some text) {token} h = elim (Option-cases (strip_prefix "Bearer " text)) [
    | inl e ↦ absurd (cc (rw (e, adapter_bearer_token) at h))
    | inr (rest, e) ↦
        let same : rest ≡ token = ground (arith, (rw (e, adapter_bearer_token) at h)) in
        ap some (strip_prefix_lem "Bearer " text e ∙ ap (str_append "Bearer ") same)
  ]

  bearer_token :
      (token : String) → adapter_bearer_token digests (some (str_append "Bearer " token)) ≡ ok token
  unfolding adapter_bearer_token
  bearer_token token = rw (strip_prefix_self "Bearer " token) refl

  any_accepts :
      (configs : List Config) {header : Option String}
      → Shows digests header configs
      → (token : String) × (header ≡ some (str_append "Bearer " token))
        × (any (λ config. runtime_accepts_token digests config token) configs ≡ true)
  unfolding runtime_accepts_token validate_adapter_token
  any_accepts [] shows = elim shows [ ]
  any_accepts (config ∷ configs) (here secret is filled shows) = (
    sign_adapter_token digests secret,
    shows,
    rw (is, filled, eq_refl (sign_adapter_token digests secret)) refl,
  )
  any_accepts (config ∷ configs) (there later) =
      let (token, shows, accepted) = any_accepts configs later in
      (token, shows, ground (arith, accepted))

  -- A request is let in exactly when its header shows the signed token of a loaded project whose
  -- local token is set and not empty. A project with an empty local token lets nobody in.
  pub authorize_adapter-Shows :
      (configs : List Config) (header : Option String)
      → (authorize_adapter digests configs header ≡ ok tt) ↔ Shows digests header configs
  unfolding authorize_adapter
  authorize_adapter-Shows configs header = (
    (λ h.
        let (token, is_token, rest) = >>=-eq-ok (adapter_bearer_token digests header) _ h in
        subst (λ x. Shows digests x configs) (sym (bearer header is_token))
          (shown token configs (guarded _ _ rest))),
    (λ shows.
        let (token, e, accepted) = any_accepts configs shows in
        rw (e, bearer_token token) (rw accepted refl)),
  )
