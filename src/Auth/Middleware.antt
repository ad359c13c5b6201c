-- ===== src/Auth/Middleware.antt =====
-- src/auth/middleware.rs: `AuthService::call` and `handle_api_key`. `AuthDeps` is what the layer
-- holds: its strategies (`PermissionLoader`, `RevocationChecker`, `ApiKeyVerifier`,
-- `FeatureEvaluator`), the token codec, the clock, and the header crate's `HeaderValue::to_str`.
pub mod Spec
pub mod Sound
pub mod Complete
pub mod Confined
pub mod Allowlist
pub mod Strategies
pub mod Logout
pub mod Issued
pub mod Tests
use Prim.Native.String
use egras.Prelude.{
  ℕ, String, Bool, not, ◌+◌, ◌*◌, Option, none, some, List, [], ◌∷◌, any, Result, ok, err, ◌>>=◌,
  ok_or, map_err, ◌==◌, String_eq, if◌then◌else◌, bytes, bit_xor,
}
use egras.Json.{Value, as_array, as_str}
use egras.Error.{AppError, unauthenticated}
use egras.Security.ApiKeySecret.{ParsedKey, parse, strip_prefix}
use egras.Auth.Jwt.{Claims, Codec, decode_access_token}
use egras.Auth.Permissions.{PermissionSet, Extensions, Caller, user, api_key, from_codes, intersect}
use egras.Features.Evaluate.{EvaluateError}

pub data HeaderSource : Type 0 where
  x_api_key authorization_bearer : HeaderSource

pub slug : HeaderSource → String
slug x_api_key = "x-api-key"
slug authorization_bearer = "authorization-bearer"

pub record VerifiedKey : Type 0 where
  pub key_id : ℕ
  pub sa_user_id : ℕ
  pub organisation_id : ℕ
  pub scopes : Option (List String)

-- An error of a strategy (`anyhow::Error`).
pub data Fault : Type 0 where
  fault : Fault

pub record AuthDeps : Type 0 where
  pub secret : String
  pub issuer : String
  pub codec : Codec
  pub now : ℕ
  pub to_str : List ℕ → Option (List ℕ)
  pub load : ℕ → ℕ → Result Fault (List String)
  pub is_revoked : ℕ → Result Fault Bool
  pub verify : List ℕ → List ℕ → Result Fault (Option VerifiedKey)
  pub evaluate : ℕ → String → Result EvaluateError Value

-- The two headers that the layer reads, by their first values.
pub record Request : Type 0 where
  pub x_api_key : Option (List ℕ)
  pub authorization : Option (List ℕ)

-- An early return: the response of an `AppError`, or the plain 500 of a failed strategy.
pub data Denial : Type 0 where
  app_error : AppError → Denial
  internal_error : Denial

-- What is handed to the inner service, and the key whose `last_used_at` is touched meanwhile.
pub record Forwarded : Type 0 where
  pub extensions : Extensions
  pub touched : Option (ℕ × ℕ)

abbrev pub denied : String → Denial
denied reason = app_error (unauthenticated reason)

abbrev or_internal {ℓ} : {E A : Type ℓ} → Result E A → Result Denial A
or_internal r = map_err (λ _. internal_error) r

-- `arr.iter().filter_map(|v| v.as_str()…)`
strings_of : List Value → List String
strings_of [] = []
strings_of (v ∷ vs) = elim (as_str v) [ none ↦ strings_of vs | some s ↦ s ∷ strings_of vs ]

abbrev scoped : PermissionSet → Option (List String) → PermissionSet
scoped perms none = perms
scoped perms (some scopes) = intersect perms scopes

abbrev and_then {ℓ κ} : {A : Type ℓ} {B : Type κ} → Option A → (A → Option B) → Option B
and_then none f = none
and_then (some a) f = f a

module _ (deps : AuthDeps) where
  abbrev key_claims : VerifiedKey → Claims
  key_claims verified = record {
    sub = verified.sa_user_id;
    org = verified.organisation_id;
    iat = deps.now;
    exp = deps.now + 365 * 24 * 3600;
    jti = bit_xor verified.key_id 0xA1A1A1A1;
    iss = deps.issuer;
    typ = "access";
  }

  handle_api_key : ParsedKey → HeaderSource → Result Denial Forwarded
  unfolding strings_of
  handle_api_key key source = do
    found ← or_internal (deps.verify key.prefix key.secret)
    verified ← ok_or found (denied "invalid_api_key")
    allowlist_value ← or_internal (deps.evaluate verified.organisation_id "auth.api_key_headers")
    arr ← ok_or (as_array allowlist_value) internal_error
    if not (any (λ h. h == slug source) (strings_of arr))
        then err (denied (String.◌++◌ "api_key_header_not_allowed:" (slug source)))
        else do
          codes ← or_internal (deps.load verified.sa_user_id verified.organisation_id)
          ok (record {
            extensions = record {
              claims = some (key_claims verified);
              permissions = some (scoped (from_codes codes) verified.scopes);
              caller = some (api_key verified.key_id verified.sa_user_id verified.organisation_id);
            };
            touched = some (verified.key_id, verified.sa_user_id);
          })

  -- Step 4 of `call`.
  handle_jwt : List ℕ → Result Denial Forwarded
  handle_jwt token = do
    claims ←
        ok_or (decode_access_token deps.codec deps.secret deps.issuer deps.now token)
          (denied "invalid_token")
    revoked ← or_internal (deps.is_revoked claims.jti)
    if revoked then err (denied "token_revoked") else do
      codes ← or_internal (deps.load claims.sub claims.org)
      ok (record {
        extensions = record {
          claims = some claims;
          permissions = some (from_codes codes);
          caller = some (user claims.sub claims.org claims.jti);
        };
        touched = none;
      })

  pub x_api_key_token : Request → Option (List ℕ)
  x_api_key_token req = and_then req.x_api_key deps.to_str

  pub bearer_token : Request → Option (List ℕ)
  bearer_token req =
      and_then req.authorization (λ v. and_then (deps.to_str v) (strip_prefix (bytes "Bearer ")))

  -- Steps 2 and 3 of `call`.
  with_token : List ℕ → HeaderSource → Result Denial Forwarded
  unfolding handle_api_key handle_jwt
  with_token token x_api_key = elim (parse token) [
    | none ↦ err (denied "invalid_api_key")
    | some key ↦ handle_api_key key x_api_key
  ]
  with_token token authorization_bearer = elim (parse token) [
    | some key ↦ handle_api_key key authorization_bearer
    | none ↦ handle_jwt token
  ]

  -- Step 1 chooses the credential: `X-API-Key` before `Authorization`.
  pub call : Request → Result Denial Forwarded
  call req = elim (x_api_key_token req) [
    | some token ↦ with_token token x_api_key
    | none ↦ elim (bearer_token req) [
      | some token ↦ with_token token authorization_bearer
      | none ↦ err (denied "missing_credentials")
    ]
  ]
