-- ===== src/Auth/Middleware/Strategies.antt =====
-- src/auth/middleware.rs: the strategies on Postgres (`PgPermissionLoader`, `PgRevocationChecker`), and
-- the layer's dependencies as the server puts them together, with `PgApiKeyVerifier`.
pub mod Tests
use egras.Prelude.{
  ℕ, String, Bool, ◌&&◌, ◌/◌, Option, List, map, filter, any, Result, ok, err, map_err, ltb, ◌==◌,
  ℕ_eq, if◌then◌else◌,
}
use egras.Json.{Value}
use egras.Features.Evaluate.{EvaluateError}
use egras.Tenants.Repository.{Membership, is_member_row}
use egras.Security.Model.{
  RevokedToken, Db, Query, Failure, failure, load_permissions_query, is_revoked_query,
}
use egras.Security.ApiKeys.{verify}
use egras.Security.State.{nanos, AppState, Call}
use egras.Auth.Middleware.{AuthDeps, Fault, fault}

pub record Permission : Type 0 where
  pub id : ℕ
  pub code : String

pub record RolePermission : Type 0 where
  pub role_id : ℕ
  pub permission_id : ℕ

-- The tables `permissions` and `role_permissions`.
pub record Catalogue : Type 0 where
  pub permissions : List Permission
  pub role_permissions : List RolePermission

abbrev pub is_granted : Catalogue → ℕ → ℕ → Db → Permission → Bool
is_granted t user org db p =
    any
      (λ (m : Membership).
        is_member_row user org m
        && any (λ (rp : RolePermission). rp.role_id == m.role_id && rp.permission_id == p.id)
            t.role_permissions)
      db.memberships

-- `SELECT DISTINCT p.code`: a code is that of one permission.
pub pg_load : Catalogue → (Query → Bool) → Db → ℕ → ℕ → Result Failure (List String)
pg_load t fails db user org =
    if fails load_permissions_query
    then err failure
    else ok (map (λ (p : Permission). p.code) (filter (is_granted t user org db) t.permissions))

unfoldable pub pg_is_revoked : (Query → Bool) → ℕ → Db → ℕ → Result Failure Bool
pg_is_revoked fails now db jti =
    if fails is_revoked_query
    then err failure
    else ok (any (λ (r : RevokedToken). r.jti == jti && ltb now r.expires_at) db.revoked_tokens)

abbrev faulty {ℓ} : {A : Type ℓ} → Result Failure A → Result Fault A
faulty r = map_err (λ _. fault) r

-- The layer over the tables, for one request.
unfoldable pub pg_deps :
    AppState
    → Catalogue
    → (List ℕ → Option (List ℕ))
    → (ℕ → String → Result EvaluateError Value)
    → Call
    → Db
    → AuthDeps
pg_deps s t to_str evaluate c db = record {
  secret = s.jwt_config.secret;
  issuer = s.jwt_config.issuer;
  codec = s.codec;
  now = c.now / nanos;
  to_str = to_str;
  load = λ user org. faulty (pg_load t c.fails db user org);
  is_revoked = λ jti. faulty (pg_is_revoked c.fails c.now db jti);
  verify = λ prefix secret. faulty (verify c.fails s.argon2 prefix secret db);
  evaluate = evaluate;
}
