-- ===== src/Auth/Middleware/Spec.antt =====
-- Which requests are let through, and with what extensions, as relations over the request and the
-- layer's strategies, without the order in which `call` asks them.
use egras.Prelude.{ℕ, String, false, Option, none, some, List, [], ◌∷◌, ◌++◌, ok, ◌≡◌, ◌⊎◌, bytes}
use egras.Json
use egras.Json.{Value, items}
use egras.Security.ApiKeySecret.{ParsedKey}
use egras.Security.ApiKeySecret.RoundTrip.{IsKey, render}
use egras.Auth.Jwt.{Claims}
use egras.Auth.Permissions.{PermissionSet, user, api_key, from_codes, intersect}
use egras.Auth.Middleware.{
  HeaderSource, x_api_key, authorization_bearer, slug, VerifiedKey, AuthDeps, Request, Forwarded,
  key_claims,
}

-- A header that is absent, or that is no text.
abbrev pub IsUnreadable : AuthDeps → Option (List ℕ) → Type 0
IsUnreadable deps header =
    (header ≡ none) ⊎ ((v : List ℕ) × (header ≡ some v) × (deps.to_str v ≡ none))

-- The token that the request presents, and the header that it is taken from.
pub data Presents (deps : AuthDeps) (req : Request) (token : List ℕ) : HeaderSource → Type 0 where
  in_x_api_key :
      (v : List ℕ)
      → req.x_api_key ≡ some v
      → deps.to_str v ≡ some token
      → Presents deps req token x_api_key
  in_authorization :
      (v : List ℕ)
      → IsUnreadable deps req.x_api_key
      → req.authorization ≡ some v
      → deps.to_str v ≡ some (bytes "Bearer " ++ token)
      → Presents deps req token authorization_bearer

-- The text stands among the items of a JSON array.
abbrev pub HoldsText : String → List Value → Type 0
HoldsText s [] = ⊥
HoldsText s (v ∷ vs) = (v ≡ Json.string s) ⊎ HoldsText s vs

-- The set that a key gives: what its service account has, within the key's scopes.
abbrev pub key_permissions : List String → Option (List String) → PermissionSet
key_permissions codes none = from_codes codes
key_permissions codes (some scopes) = intersect (from_codes codes) scopes

-- An API key in either header: well formed, verified, through a header that the organisation allows.
pub record ByKey (deps : AuthDeps) (req : Request) (f : Forwarded) : Type 0 where
  pub source : HeaderSource
  pub key : ParsedKey
  pub well_formed : IsKey key
  pub presented : Presents deps req (render key) source
  pub verified : VerifiedKey
  pub proved : deps.verify key.prefix key.secret ≡ ok (some verified)
  pub headers : Json.Items
  pub flag : deps.evaluate verified.organisation_id "auth.api_key_headers" ≡ ok (Json.array headers)
  pub listed : HoldsText (slug source) (items headers)
  pub codes : List String
  pub loaded : deps.load verified.sa_user_id verified.organisation_id ≡ ok codes
  pub result : f ≡ record {
    extensions = record {
      claims = some (key_claims deps verified);
      permissions = some (key_permissions codes verified.scopes);
      caller = some (api_key verified.key_id verified.sa_user_id verified.organisation_id);
    };
    touched = some (verified.key_id, verified.sa_user_id);
  }

-- A signed access token after `Bearer `, not of an API key's form, valid now and not revoked.
pub record ByJwt (deps : AuthDeps) (req : Request) (f : Forwarded) : Type 0 where
  pub token : List ℕ
  pub presented : Presents deps req token authorization_bearer
  pub no_key : (key : ParsedKey) → IsKey key → ¬ (token ≡ render key)
  pub claims : Claims
  pub decoded : deps.codec.decode deps.secret deps.issuer deps.now token ≡ some claims
  pub access : claims.typ ≡ "access"
  pub live : deps.is_revoked claims.jti ≡ ok false
  pub codes : List String
  pub loaded : deps.load claims.sub claims.org ≡ ok codes
  pub result : f ≡ record {
    extensions = record {
      claims = some claims;
      permissions = some (from_codes codes);
      caller = some (user claims.sub claims.org claims.jti);
    };
    touched = none;
  }
