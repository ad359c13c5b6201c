-- ===== src/Auth/Middleware/Confined.antt =====
-- What a request that was let through can do, and how the others are refused.
use egras.Prelude.{
  ℕ, String, true, ◌&&◌, Option, none, some, List, ok, err, ◌≡◌, ◌⊎◌, ◌↔◌, inl, inr, refl, arith,
  contains, String_eq, Option-cases,
}
use egras.Error.{AppError, http_status}
use egras.Security.ApiKeySecret.{ParsedKey, parse}
use egras.Auth.Permissions.{PermissionSet, Caller, api_key, user, has, from_codes}
use egras.Auth.Permissions.Sets.{has-from_codes, has-intersect}
use egras.Auth.Extractors.{
  Permission, accepts, require_perm, require_human_caller, require_caller, authed_caller,
  AuthedCaller, org_id, principal_user_id,
}
use egras.Auth.Extractors.Accepts.{accepts-intersect}
use egras.Auth.Middleware.{
  AuthDeps, Request, Forwarded, Denial, app_error, internal_error, HeaderSource, x_api_key,
  authorization_bearer, handle_api_key, handle_jwt, with_token, x_api_key_token, bearer_token, call,
  key_claims,
}
use egras.Auth.Middleware.Spec.{ByKey, ByJwt, key_permissions}
use egras.Auth.Middleware.Sound.{call_sound}

-- The HTTP status of an early return.
abbrev pub denial_status : Denial → ℕ
denial_status (app_error e) = http_status e
denial_status internal_error = 500

module _ (deps : AuthDeps) where
  handle_api_key_status :
      (key : ParsedKey) (source : HeaderSource) (d : Denial)
      → handle_api_key deps key source ≡ err d
      → (denial_status d ≡ 401) ⊎ (denial_status d ≡ 500)
  unfolding handle_api_key http_status
  handle_api_key_status key source d h = ground arith

  handle_jwt_status :
      (token : List ℕ) (d : Denial)
      → handle_jwt deps token ≡ err d
      → (denial_status d ≡ 401) ⊎ (denial_status d ≡ 500)
  unfolding handle_jwt http_status
  handle_jwt_status token d h = ground arith

  with_token_status :
      (token : List ℕ) (source : HeaderSource) (d : Denial)
      → with_token deps token source ≡ err d
      → (denial_status d ≡ 401) ⊎ (denial_status d ≡ 500)
  unfolding with_token http_status
  with_token_status token x_api_key d h = elim (Option-cases (parse token)) [
    | inl plain ↦ ground arith
    | inr (key, parsed) ↦ handle_api_key_status key x_api_key d (rw (parsed, with_token) at h)
  ]
  with_token_status token authorization_bearer d h = elim (Option-cases (parse token)) [
    | inl plain ↦ handle_jwt_status token d (rw (plain, with_token) at h)
    | inr (key, parsed) ↦
        handle_api_key_status key authorization_bearer d (rw (parsed, with_token) at h)
  ]

  -- A request that does not reach the inner service is answered with 401 or with 500.
  pub call_refusal :
      (req : Request) (d : Denial)
      → call deps req ≡ err d
      → (denial_status d ≡ 401) ⊎ (denial_status d ≡ 500)
  unfolding call http_status
  call_refusal req d h = elim (Option-cases (x_api_key_token deps req)) [
    | inr (token, present) ↦ with_token_status token x_api_key d (rw (present, call) at h)
    | inl absent ↦ elim (Option-cases (bearer_token deps req)) [
      | inl missing ↦ ground arith
      | inr (token, present) ↦
          with_token_status token authorization_bearer d (rw (absent, present, call) at h)
    ]
  ]

accepts-key_permissions :
    (codes : List String) (scopes : Option (List String)) (p : Permission)
    → accepts p (key_permissions codes scopes) ≡ true
    → accepts p (from_codes codes) ≡ true
accepts-key_permissions codes none p h = h
accepts-key_permissions codes (some scopes) p h = accepts-intersect (from_codes codes) scopes p h

has-key_permissions :
    (codes scopes : List String) (c : String)
    → has (key_permissions codes (some scopes)) c ≡ (contains codes c && contains scopes c)
has-key_permissions codes scopes c =
    ground (arith, has-intersect (from_codes codes) scopes c, has-from_codes codes c)

module _ (deps : AuthDeps) (req : Request) (f : Forwarded) where
  key_confined_by :
      (b : ByKey deps req f) (p : Permission)
      → require_perm p f.extensions ≡ ok tt
      → (accepts p (from_codes b.codes) ≡ true)
        × (require_human_caller f.extensions ≡ err AppError.requires_user_credentials)
  unfolding require_perm require_human_caller
  key_confined_by b p h = (
    accepts-key_permissions b.codes b.verified.scopes p (ground (arith, b.result)),
    ground (arith, b.result),
  )

  -- A request that reaches a handler as an API key's, and passes `Perm<P>` there, is one whose
  -- service account's own permissions, as they are loaded, pass it; and it does not pass
  -- `RequireHumanCaller`.
  pub key_confined :
      (key_id sa_user_id org : ℕ) (p : Permission)
      → call deps req ≡ ok f
      → f.extensions.caller ≡ some (api_key key_id sa_user_id org)
      → require_perm p f.extensions ≡ ok tt
      → (codes : List String) × (deps.load sa_user_id org ≡ ok codes)
        × (accepts p (from_codes codes) ≡ true)
        × (require_human_caller f.extensions ≡ err AppError.requires_user_credentials)
  key_confined key_id sa_user_id org p h c q = elim (call_sound deps req f h) [
    | inl b ↦ absurd (ground (arith, b.result))
    | inr b ↦
        let user : b.verified.sa_user_id ≡ sa_user_id = ground (arith, b.result) in
        let tenant : b.verified.organisation_id ≡ org = ground (arith, b.result) in
        let (passes, no_human) = key_confined_by b p q in
        (b.codes, rw (← user, ← tenant) b.loaded, passes, no_human)
  ]

  -- With a key that has scopes, a request holds exactly the codes that its service account has been
  -- granted and that the scopes list.
  pub key_scoped :
      (b : ByKey deps req f) (set : PermissionSet) (scopes : List String) (c : String)
      → f.extensions.permissions ≡ some set
      → b.verified.scopes ≡ some scopes
      → has set c ≡ (contains b.codes c && contains scopes c)
  key_scoped b set scopes c e s =
      let same : set ≡ key_permissions b.codes (some scopes) = ground (arith, b.result) in
      rw same (has-key_permissions b.codes scopes c)

  -- Whatever handler a request reaches, its extractors find what they look for: claims,
  -- permissions and caller are there, and caller and claims name the same user and organisation.
  pub call_extensions :
      call deps req ≡ ok f
      → (a : AuthedCaller) × (c : Caller) × (authed_caller f.extensions ≡ ok a)
        × (require_caller f.extensions ≡ ok c)
        × (principal_user_id c ≡ a.claims.sub)
        × (org_id c ≡ a.claims.org)
  unfolding authed_caller require_caller principal_user_id org_id
  call_extensions h = elim (call_sound deps req f h) [
    | inl b ↦ (
      record { claims = b.claims; permissions = from_codes b.codes },
      user b.claims.sub b.claims.org b.claims.jti,
      ground (arith, b.result),
      ground (arith, b.result),
      refl,
      refl,
    )
    | inr b ↦ (
      record {
        claims = key_claims deps b.verified;
        permissions = key_permissions b.codes b.verified.scopes;
      },
      api_key b.verified.key_id b.verified.sa_user_id b.verified.organisation_id,
      ground (arith, b.result),
      ground (arith, b.result),
      refl,
      refl,
    )
  ]

  -- A request that reaches a handler passes `RequireHumanCaller` exactly when it presented an
  -- access token.
  pub require_human_caller_iff :
      call deps req ≡ ok f → (require_human_caller f.extensions ≡ ok tt) ↔ ByJwt deps req f
  unfolding require_human_caller
  require_human_caller_iff h = (
    λ human. elim (call_sound deps req f h) [
      | inl b ↦ b
      | inr b ↦ absurd (ground (arith, b.result))
    ],
    λ b. ground (arith, b.result),
  )
