-- ===== src/Auth/Middleware/Allowlist.antt =====
-- The layer over the flag evaluator of src/features: the allowlist of headers is always readable.
use egras.Prelude.{
  ℕ, String, Bool, Option, some, List, ok, err, ◌≡◌, refl, sym, ◌∙◌, arith, String_eq, Option-cases,
  inl, inr,
}
use egras.Json.{Value, items, as_array}
use egras.Error.{http_status}
use egras.Security.ApiKeySecret.{ParsedKey, parse}
use egras.Auth.Jwt.{decode_access_token}
use egras.Features.Model.{enum_set}
use egras.Features.Model.Typing.{HasType, strings}
use egras.Features.Repository.{Db, Query}
use egras.Features.Evaluate.{PgFeatureEvaluator, evaluate}
use egras.Features.Evaluate.Staleness.{Reach}
use egras.Features.Service.WellTyped.{IsWellTyped, IsFlag, evaluate-HasType}
use egras.Auth.Middleware.{
  AuthDeps, Request, Denial, VerifiedKey, HeaderSource, x_api_key, authorization_bearer,
  handle_api_key, handle_jwt, with_token, x_api_key_token, bearer_token, call,
}
use egras.Auth.Middleware.Confined.{denial_status}

-- No strategy fails.
pub record IsWorking (deps : AuthDeps) : Type 0 where
  pub verify :
      (prefix secret : List ℕ)
      → (found : Option VerifiedKey) × (deps.verify prefix secret ≡ ok found)
  pub load : (user org : ℕ) → (codes : List String) × (deps.load user org ≡ ok codes)
  pub is_revoked : (jti : ℕ) → (revoked : Bool) × (deps.is_revoked jti ≡ ok revoked)
  pub evaluate : (org : ℕ) → (v : Value) × (deps.evaluate org "auth.api_key_headers" ≡ ok v)

array_of_HasType :
    {is_i64 : ℕ → Bool} {v : Value}
    → HasType is_i64 enum_set v
    → (vs : List Value) × (as_array v ≡ some vs)
array_of_HasType (strings {vs} h) = (items vs, refl)

module _ (deps : AuthDeps) (works : IsWorking deps)
    (readable : (org : ℕ) → (vs : List Value) × (as_array (works.evaluate org).0 ≡ some vs)) where
  handle_api_key_401 :
      (key : ParsedKey) (source : HeaderSource) (d : Denial)
      → handle_api_key deps key source ≡ err d
      → denial_status d ≡ 401
  unfolding handle_api_key http_status
  handle_api_key_401 key source d h =
      let (found, verified) = works.verify key.prefix key.secret in
      elim (Option-cases found) [
        | inl unknown ↦ ground arith
        | inr (v, known) ↦ ground (
          arith,
          (works.evaluate v.organisation_id).1,
          (readable v.organisation_id).1,
          (works.load v.sa_user_id v.organisation_id).1,
        )
      ]

  handle_jwt_401 :
      (token : List ℕ) (d : Denial) → handle_jwt deps token ≡ err d → denial_status d ≡ 401
  unfolding handle_jwt http_status
  handle_jwt_401 token d h =
      elim (Option-cases (decode_access_token deps.codec deps.secret deps.issuer deps.now token)) [
        | inl bad ↦ ground arith
        | inr (claims, decoded) ↦
            ground (arith, (works.is_revoked claims.jti).1, (works.load claims.sub claims.org).1)
      ]

  with_token_401 :
      (token : List ℕ) (source : HeaderSource) (d : Denial)
      → with_token deps token source ≡ err d
      → denial_status d ≡ 401
  unfolding with_token http_status
  with_token_401 token x_api_key d h = elim (Option-cases (parse token)) [
    | inl plain ↦ ground arith
    | inr (key, parsed) ↦ handle_api_key_401 key x_api_key d (rw (parsed, with_token) at h)
  ]
  with_token_401 token authorization_bearer d h = elim (Option-cases (parse token)) [
    | inl plain ↦ handle_jwt_401 token d (rw (plain, with_token) at h)
    | inr (key, parsed) ↦
        handle_api_key_401 key authorization_bearer d (rw (parsed, with_token) at h)
  ]

  call_401 : (req : Request) (d : Denial) → call deps req ≡ err d → denial_status d ≡ 401
  unfolding call http_status
  call_401 req d h = elim (Option-cases (x_api_key_token deps req)) [
    | inr (token, present) ↦ with_token_401 token x_api_key d (rw (present, call) at h)
    | inl absent ↦ elim (Option-cases (bearer_token deps req)) [
      | inl missing ↦ ground arith
      | inr (token, present) ↦
          with_token_401 token authorization_bearer d (rw (absent, present, call) at h)
    ]
  ]

module _ (is_i64 : ℕ → Bool) (hist : ℕ → Db) (fails : ℕ → Query → Bool) (ttl t : ℕ)
    (ev : PgFeatureEvaluator) where
  -- The layer over the caching evaluator, with tables that are well typed at every instant and hold
  -- `auth.api_key_headers` as an `enum_set`: if no strategy fails, every refusal is a 401, so the
  -- allowlist is never found to be anything but an array, however old the answer of the cache is.
  pub call_refusal_401 :
      (deps : AuthDeps) (works : IsWorking deps) (req : Request) (d : Denial)
      → ((l : ℕ) → IsWellTyped is_i64 (hist l) × IsFlag (hist l) "auth.api_key_headers" enum_set)
      → Reach hist fails ttl t ev
      → ((org : ℕ)
          → deps.evaluate org "auth.api_key_headers"
            ≡ (evaluate (fails t) t org "auth.api_key_headers" (hist t) ev).0)
      → call deps req ≡ err d
      → denial_status d ≡ 401
  call_refusal_401 deps works req d always r same h =
      call_401 deps works
        (λ org.
          let (v, answered) = works.evaluate org in
          array_of_HasType (
            evaluate-HasType is_i64 hist fails ttl t org "auth.api_key_headers" v ev enum_set always
              r (sym (same org) ∙ answered)))
        req d h
