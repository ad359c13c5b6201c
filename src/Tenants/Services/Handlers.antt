-- ===== src/Tenants/Services/Handlers.antt =====
-- src/tenants/interface.rs: the two handlers for members.
pub mod Adding
use egras.Prelude.{ℕ, String, Bool, List, [], ◌∷◌, Result, ok, err, ◌>>=◌, map_err}
use egras.Error.{AppError, validation, conflict}
use egras.Audit.Model.{Stamp}
use egras.Auth.Permissions.{Extensions}
use egras.Auth.Extractors.{tenants_members_add, tenants_members_remove, authed_caller, require_perm}
use egras.Tenants.Repository.{Query}
use egras.Tenants.Services.{
  World, AddUserToOrganisationInput, AddUserToOrganisationError, RemoveUserFromOrganisationInput,
  RemoveUserFromOrganisationError, add_user_to_organisation, remove_user_from_organisation,
}

module _ (fails : Query → Bool) (now : ℕ) (stamp : Stamp) where
  add_response : AddUserToOrganisationError → AppError
  add_response AddUserToOrganisationError.not_found = AppError.not_found "organisation or user"
  add_response AddUserToOrganisationError.unknown_role_code =
      validation (("role_code", "unknown_role_code" ∷ []) ∷ [])
  add_response (AddUserToOrganisationError.repo _) = AppError.internal

  remove_response : RemoveUserFromOrganisationError → AppError
  remove_response RemoveUserFromOrganisationError.not_member = AppError.not_found "membership"
  remove_response RemoveUserFromOrganisationError.last_owner =
      conflict "cannot remove the last owner"
  remove_response (RemoveUserFromOrganisationError.repo _) = AppError.internal

  -- The handlers: the extractors in the order of the parameters, then the service.
  pub post_add_user_to_organisation :
      Extensions → AddUserToOrganisationInput → World → Result AppError (Unit {0}) × World
  unfolding add_response
  post_add_user_to_organisation parts req w =
      elim (do
        caller ← authed_caller parts
        _ ← require_perm tenants_members_add parts
        ok caller) [
          | err e ↦ (err e, w)
          | ok caller ↦
              let (answer, w') =
                add_user_to_organisation fails now stamp caller.claims.sub caller.claims.org req
                  w in
              (map_err add_response answer, w')
        ]

  pub post_remove_user_from_organisation :
      Extensions → RemoveUserFromOrganisationInput → World → Result AppError (Unit {0}) × World
  unfolding remove_response
  post_remove_user_from_organisation parts req w =
      elim (do
        caller ← authed_caller parts
        _ ← require_perm tenants_members_remove parts
        ok caller) [
          | err e ↦ (err e, w)
          | ok caller ↦
              let (answer, w') =
                remove_user_from_organisation fails now stamp caller.claims.sub caller.claims.org
                  req w in
              (map_err remove_response answer, w')
        ]
