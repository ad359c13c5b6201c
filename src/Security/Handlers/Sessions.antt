-- ===== src/Security/Handlers/Sessions.antt =====
-- src/security/interface.rs: the handlers of sessions, passwords and the listing of users.
use egras.Prelude.{
  ℕ, String, ◌*◌, not, ◌&&◌, Option, none, some, List, Result, ok, err, ◌>>=◌, leb, if◌then◌else◌,
}
use egras.Error.{AppError}
use egras.Audit.Security.{users_list}
use egras.Auth.Permissions.{Extensions, is_operator_over_users}
use egras.Auth.Extractors.{
  AuthedCaller, users_read, authed_caller, require_human_caller, require_perm,
}
use egras.Pagination.{Format}
use egras.Security.Model.{UserCursor}
use egras.Security.State.{AppState, Call, World, nanos, recorded}
use egras.Security.Login.{
  LoginInput, LoginOutput, LoginError, LogoutError, SwitchOrgError, login, logout, switch_org,
}
use egras.Security.Passwords.{
  ChangePasswordInput, ChangePasswordError, PasswordResetRequestError, PasswordResetConfirmInput,
  PasswordResetConfirmError, change_password, password_reset_request, password_reset_confirm,
}
use egras.Security.Listing.{ListUsersOutput, ListUsersError, list_users}
use egras.Security.Handlers.{field_error, behind, answered}

-- `_gate: RequireHumanCaller`, `caller: AuthedCaller`
abbrev human : Extensions → Result AppError AuthedCaller
human parts = do _ ← require_human_caller parts; authed_caller parts

login_response : LoginError → AppError
login_response LoginError.invalid_credentials = AppError.invalid_credentials
login_response LoginError.no_organisation = AppError.user_no_organisation
login_response LoginError.internal = AppError.internal

logout_response : LogoutError → AppError
logout_response LogoutError.internal = AppError.internal

change_response : ChangePasswordError → AppError
change_response ChangePasswordError.wrong_current_password = AppError.invalid_credentials
change_response ChangePasswordError.password_too_short = field_error "new_password" "too_short"
change_response ChangePasswordError.user_not_found = AppError.not_found "user"
change_response ChangePasswordError.internal = AppError.internal

switch_response : SwitchOrgError → AppError
switch_response SwitchOrgError.not_member = AppError.permission_denied "not_member"
switch_response SwitchOrgError.internal = AppError.internal

request_response : PasswordResetRequestError → AppError
request_response PasswordResetRequestError.internal = AppError.internal

confirm_response : PasswordResetConfirmError → AppError
confirm_response PasswordResetConfirmError.invalid_token = AppError.invalid_credentials
confirm_response PasswordResetConfirmError.password_too_short =
    field_error "new_password" "too_short"
confirm_response PasswordResetConfirmError.internal = AppError.internal

users_response : ListUsersError → AppError
users_response ListUsersError.invalid_cursor = field_error "after" "invalid_cursor"
users_response (ListUsersError.repo _) = AppError.internal

pub record ListUsersQuery : Type 0 where
  pub org_id : Option ℕ
  pub q : Option String
  pub after : Option (List ℕ)
  pub limit : Option ℕ

-- `limit.unwrap_or(20)`
abbrev limit_of : Option ℕ → ℕ
limit_of none = 20
limit_of (some limit) = limit

module _ (s : AppState) (c : Call) where
  pub post_login : LoginInput → World → Result AppError LoginOutput × World
  unfolding login_response
  post_login req w = answered login_response (λ out. out) (login s c req w)

  -- The expiry is in the range of chrono's instants.
  pub post_logout : Extensions → World → Result AppError (Unit {0}) × World
  unfolding logout_response
  post_logout parts = behind (human parts) (λ caller w.
      answered logout_response (λ u. u)
        (logout s c caller.claims.sub caller.claims.org caller.claims.jti
          (caller.claims.exp * nanos) w))

  pub post_change_password :
      Extensions → ChangePasswordInput → World → Result AppError (Unit {0}) × World
  unfolding change_response
  post_change_password parts req =
      behind (human parts) (λ caller w.
        answered change_response (λ u. u) (change_password s c caller.claims.sub req w))

  pub post_switch_org : Extensions → ℕ → World → Result AppError (List ℕ) × World
  unfolding switch_response
  post_switch_org parts org_id = behind (human parts) (λ caller w.
      answered switch_response (λ token. token)
        (switch_org s c caller.claims.sub caller.claims.org org_id w))

  pub post_password_reset_request : String → World → Result AppError (Unit {0}) × World
  unfolding request_response
  post_password_reset_request email w =
      answered request_response (λ u. u) (password_reset_request s c email w)

  pub post_password_reset_confirm :
      PasswordResetConfirmInput → World → Result AppError (Unit {0}) × World
  unfolding confirm_response
  post_password_reset_confirm req w =
      answered confirm_response (λ u. u) (password_reset_confirm s c req w)

  -- The operator over users lists every organisation.
  pub get_list_users :
      Format UserCursor
      → Extensions
      → ListUsersQuery
      → World
      → Result AppError ListUsersOutput × World
  unfolding users_response
  get_list_users f parts q =
      behind (do caller ← authed_caller parts; _ ← require_perm users_read parts; ok caller)
        (λ caller w.
          let is_operator = is_operator_over_users caller.permissions in
          let limit = limit_of q.limit in
          if not (leb 1 limit && leb limit 100)
          then (err (field_error "limit" "invalid_limit"), w)
          else elim (list_users s f c is_operator
              (if is_operator then none else some caller.claims.org)
              (record { org_id = q.org_id; q = q.q; after = q.after; limit = limit }) w.db) [
                | err e ↦ (err (users_response e), w)
                | ok out ↦
                    (ok out, recorded (users_list c.stamp caller.claims.sub caller.claims.org) w)
              ])
