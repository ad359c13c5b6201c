-- ===== src/Auth/Extractors/Accepts.antt =====
-- How the permission markers read a set of codes.
use egras.Prelude.{String, List, true, ◌≡◌, arith, String_eq}
use egras.Auth.Permissions.{
  PermissionSet, has, intersect, is_operator_over_tenants, is_operator_over_users,
}
use egras.Auth.Permissions.Sets.{has-intersect}
use egras.Auth.Extractors.{Permission, service_accounts_read, users_read, code, accepts}

module _ (set : PermissionSet) where
  -- A permission's own code is enough for it.
  pub accepts-code : (p : Permission) → has set (code p) ≡ true → accepts p set ≡ true
  unfolding accepts
  accepts-code service_accounts_read h = ground arith
  accepts-code _ h = ground arith

  -- Restricting a set to some codes never lets it through where the whole set is refused.
  pub accepts-intersect :
      (allowed : List String) (p : Permission)
      → accepts p (intersect set allowed) ≡ true
      → accepts p set ≡ true
  unfolding accepts is_operator_over_tenants is_operator_over_users
  accepts-intersect allowed service_accounts_read h = ground (
    arith,
    has-intersect set allowed "service_accounts.read",
    has-intersect set allowed "service_accounts.manage",
    has-intersect set allowed "tenants.manage_all",
  )
  accepts-intersect allowed users_read h = ground (
    arith,
    has-intersect set allowed "tenants.members.list",
    has-intersect set allowed "users.manage_all",
  )
  accepts-intersect allowed p h =
      ground
        (arith, has-intersect set allowed (code p), has-intersect set allowed "tenants.manage_all")
