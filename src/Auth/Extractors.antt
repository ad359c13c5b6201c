-- ===== src/Auth/Extractors.antt =====
-- src/auth/extractors.rs: what handlers take from the request's extensions. The marker types of
-- permissions are the constructors of `Permission`.
pub mod Accepts
use egras.Prelude.{
  ℕ, String, Bool, true, false, ◌||◌, some, Result, ok, err, ◌>>=◌, ok_or, if◌then◌else◌,
}
use egras.Error.{AppError, unauthenticated}
use egras.Auth.Jwt.{Claims}
use egras.Auth.Permissions.{
  PermissionSet, Extensions, Caller, user, api_key, has, is_operator_over_tenants,
  is_operator_over_users,
}

unfoldable pub org_id : Caller → ℕ
org_id (user _ org _) = org
org_id (api_key _ _ org) = org

unfoldable pub principal_user_id : Caller → ℕ
principal_user_id (user user_id _ _) = user_id
principal_user_id (api_key _ sa_user_id _) = sa_user_id

pub is_user : Caller → Bool
is_user (user _ _ _) = true
is_user (api_key _ _ _) = false

-- `RequireHumanCaller`
unfoldable pub require_human_caller : Extensions → Result AppError (Unit {0})
unfolding is_user
require_human_caller parts = do
  caller ← ok_or parts.caller (unauthenticated "no_caller")
  if is_user caller then ok tt else err AppError.requires_user_credentials

-- `Caller` as an extractor.
unfoldable pub require_caller : Extensions → Result AppError Caller
require_caller parts = ok_or parts.caller (unauthenticated "no_caller")

pub record AuthedCaller : Type 0 where
  pub claims : Claims
  pub permissions : PermissionSet

unfoldable pub authed_caller : Extensions → Result AppError AuthedCaller
authed_caller parts = do
  claims ← ok_or parts.claims (unauthenticated "no_claims")
  permissions ← ok_or parts.permissions (unauthenticated "no_permission_set")
  ok (record { claims = claims; permissions = permissions })

pub data Permission : Type 0 where
  tenants_create tenants_members_list tenants_roles_assign users_manage_all : Permission
  tenants_members_add tenants_members_remove users_read channels_manage : Permission
  service_accounts_read service_accounts_manage tenants_manage_all : Permission
  features_read features_manage echo_invoke : Permission

-- `P::CODE`
unfoldable pub code : Permission → String
code tenants_create = "tenants.create"
code tenants_members_list = "tenants.members.list"
code tenants_roles_assign = "tenants.roles.assign"
code users_manage_all = "users.manage_all"
code tenants_members_add = "tenants.members.add"
code tenants_members_remove = "tenants.members.remove"
code users_read = "tenants.members.list"
code channels_manage = "channels.manage"
code service_accounts_read = "service_accounts.read"
code service_accounts_manage = "service_accounts.manage"
code tenants_manage_all = "tenants.manage_all"
code features_read = "features.read"
code features_manage = "features.manage"
code echo_invoke = "echo:invoke"

abbrev has_or_operator : PermissionSet → String → Bool
has_or_operator set c = has set c || is_operator_over_tenants set

-- `P::accepts(set)`
pub accepts : Permission → PermissionSet → Bool
unfolding code
accepts tenants_create set = has set (code tenants_create)
accepts tenants_members_list set = has_or_operator set (code tenants_members_list)
accepts tenants_roles_assign set = has_or_operator set (code tenants_roles_assign)
accepts users_manage_all set = has set (code users_manage_all)
accepts tenants_members_add set = has_or_operator set (code tenants_members_add)
accepts tenants_members_remove set = has_or_operator set (code tenants_members_remove)
accepts users_read set = has set "tenants.members.list" || is_operator_over_users set
accepts channels_manage set = has_or_operator set (code channels_manage)
accepts service_accounts_read set =
    has set (code service_accounts_read)
    || has set "service_accounts.manage"
    || is_operator_over_tenants set
accepts service_accounts_manage set = has_or_operator set (code service_accounts_manage)
accepts tenants_manage_all set = has set (code tenants_manage_all)
accepts features_read set = has_or_operator set (code features_read)
accepts features_manage set = has_or_operator set (code features_manage)
accepts echo_invoke set = has set (code echo_invoke)

-- `Perm<P>`
unfoldable pub require_perm : Permission → Extensions → Result AppError (Unit {0})
require_perm p parts = do
  set ← ok_or parts.permissions (unauthenticated "no_permission_set")
  if accepts p set then ok tt else err (AppError.permission_denied (code p))
