-- ===== src/Tenants/Services/Handlers/Adding.antt =====
-- What the handler that adds a member asks for.
use egras.Prelude.{ℕ, Bool, true, false, some, any, find, ok, ◌≡◌, arith, ◌==◌, ℕ_eq, String_eq}
use egras.Audit.Model.{Stamp}
use egras.Auth.Jwt.{Claims}
use egras.Auth.Permissions.{PermissionSet, Extensions}
use egras.Auth.Extractors.{tenants_members_add, accepts, authed_caller, require_perm}
use egras.Tenants.Repository.{
  Query, role_query, insert_query, Role, is_role_row, user_exists, organisation_exists, add_member,
  find_by_code,
}
use egras.Tenants.Services.{World, AddUserToOrganisationInput, add_user_to_organisation}
use egras.Tenants.Services.Roles.{any-insert_new}
use egras.Tenants.Services.Handlers.{post_add_user_to_organisation}

module _ (fails : Query → Bool) (now : ℕ) (stamp : Stamp) where
  -- The handler that adds a member asks for the permission in the caller's own organisation and for
  -- nothing of the organisation that is written to: whatever the claims of a caller with the permission
  -- say, it answers success and the user is a member with the role afterwards, if user, organisation
  -- and role exist and the two queries do not fail.
  pub add_ignores_caller_org :
      (parts : Extensions) (claims : Claims) (set : PermissionSet)
      (req : AddUserToOrganisationInput) (w : World) (role : Role)
      → parts.claims ≡ some claims
      → parts.permissions ≡ some set
      → accepts tenants_members_add set ≡ true
      → fails role_query ≡ false
      → fails insert_query ≡ false
      → find (λ (r : Role). r.code == req.role_code) w.db.roles ≡ some role
      → user_exists req.user_id w.db ≡ true
      → organisation_exists req.org_id w.db ≡ true
      → let (answer, w') = post_add_user_to_organisation fails now stamp parts req w in
        (answer ≡ ok tt)
        × (any (is_role_row req.user_id req.org_id role.id) w'.db.memberships ≡ true)
  unfolding post_add_user_to_organisation add_user_to_organisation add_member find_by_code
      authed_caller require_perm
  add_ignores_caller_org parts claims set req w role c p a f g known user org =
      let added = any-insert_new req.user_id req.org_id role.id now w.db.memberships in
      (ground (arith, c, p, a), ground (arith, c, p, a, added))
