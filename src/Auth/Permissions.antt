-- ===== src/Auth/Permissions.antt =====
-- src/auth/permissions.rs: the set of permission codes, and the checks of a handler. A hash set is
-- a list that holds no code twice.
pub mod Sets
use egras.Prelude.{
  ℕ, String, Bool, ◌&&◌, ◌||◌, Option, none, some, List, [], ◌∷◌, filter, contains, any, Result, ok,
  err, ◌>>=◌, ok_or, ◌==◌, String_eq, ℕ_eq, if◌then◌else◌,
}
use egras.Error.{AppError, unauthenticated, not_found}
use egras.Auth.Jwt.{Claims}

pub record PermissionSet : Type 0 where
  pub codes : List String

collect : List String → List String
collect [] = []
collect (c ∷ cs) = let rest = collect cs in if contains rest c then rest else c ∷ rest

pub from_codes : List String → PermissionSet
unfolding collect
from_codes codes = record { codes = collect codes }

unfoldable pub has : PermissionSet → String → Bool
has set code = contains set.codes code

pub has_any : PermissionSet → List String → Bool
has_any set codes = any (λ c. contains set.codes c) codes

unfoldable pub is_operator_over_tenants : PermissionSet → Bool
is_operator_over_tenants set = has set "tenants.manage_all"

unfoldable pub is_operator_over_users : PermissionSet → Bool
is_operator_over_users set = has set "users.manage_all"

pub is_audit_read_all : PermissionSet → Bool
is_audit_read_all set = has set "audit.read_all"

pub intersect : PermissionSet → List String → PermissionSet
intersect set allowed = record { codes = filter (λ c. contains allowed c) set.codes }

-- Which kind of credential authenticated the request (src/auth/extractors.rs).
pub data Caller : Type 0 where
  user : (user_id org_id jti : ℕ) → Caller
  api_key : (key_id sa_user_id org_id : ℕ) → Caller

-- The request's extensions that `AuthLayer` fills, and handlers read.
pub record Extensions : Type 0 where
  pub claims : Option Claims
  pub permissions : Option PermissionSet
  pub caller : Option Caller

pub require_permission : Extensions → String → Result AppError (Unit {0})
require_permission parts code = do
  set ← ok_or parts.permissions (unauthenticated "no_permission_set")
  if has set code then ok tt else err (AppError.permission_denied code)

pub authorise_org : Extensions → ℕ → Result AppError (Unit {0})
authorise_org parts organisation_id = do
  claims ← ok_or parts.claims (unauthenticated "no_claims")
  set ← ok_or parts.permissions (unauthenticated "no_permission_set")
  if is_operator_over_tenants set || is_operator_over_users set || is_audit_read_all set
      then ok tt
      else if claims.org == organisation_id
      then ok tt
      else err (not_found "organisation")
