-- ===== src/Tenants/Services.antt =====
-- src/tenants/service: adding and removing members, and assigning roles. `audit` lists the events that were handed to the recorder,
-- whose result is only logged.
pub mod Handlers
pub mod Owners
pub mod Roles
pub mod Tests
use egras.Prelude.{
  ℕ, String, Bool, true, false, not, Option, none, some, List, [], ◌∷◌, ◌++◌, Result, ok, err,
  ◌>>=◌, ok_or, map_err, if◌then◌else◌,
}
use egras.Error.{AppError, validation, conflict}
use egras.Audit.Model.{
  AuditEvent, Stamp, organisation_member_added, organisation_member_removed,
  organisation_role_assigned,
}
use egras.Auth.Permissions.{Extensions}
use egras.Auth.Extractors.{tenants_members_add, tenants_members_remove, authed_caller, require_perm}
use egras.Tenants.Repository.{
  Db, Query, RepoError, Role, User, UserKind, human, service_account, ServiceAccount, add_member,
  remove_member_checked, is_member, has_role, assign, find_by_code, find_user, find_service_account,
}

pub record World : Type 0 where
  pub db : Db
  pub audit : List AuditEvent

pub record AddUserToOrganisationInput : Type 0 where
  pub user_id : ℕ
  pub org_id : ℕ
  pub role_code : String

pub data AddUserToOrganisationError : Type 0 where
  not_found unknown_role_code : AddUserToOrganisationError
  repo : RepoError → AddUserToOrganisationError

add_error : RepoError → AddUserToOrganisationError
add_error RepoError.not_found = AddUserToOrganisationError.not_found
add_error (RepoError.unknown_role_code _) = AddUserToOrganisationError.unknown_role_code
add_error e = AddUserToOrganisationError.repo e

pub record RemoveUserFromOrganisationInput : Type 0 where
  pub user_id : ℕ
  pub org_id : ℕ

pub data RemoveUserFromOrganisationError : Type 0 where
  not_member last_owner : RemoveUserFromOrganisationError
  repo : RepoError → RemoveUserFromOrganisationError

remove_error : RepoError → RemoveUserFromOrganisationError
remove_error RepoError.not_member = RemoveUserFromOrganisationError.not_member
remove_error RepoError.last_owner = RemoveUserFromOrganisationError.last_owner
remove_error e = RemoveUserFromOrganisationError.repo e

pub record AssignRoleInput : Type 0 where
  pub organisation_id : ℕ
  pub target_user_id : ℕ
  pub role_code : String

pub data AssignRoleError : Type 0 where
  not_found unknown_role_code unknown_user service_account_cross_org_forbidden : AssignRoleError
  repo : RepoError → AssignRoleError
  internal : AssignRoleError

module _ (fails : Query → Bool) (now : ℕ) (stamp : Stamp) where
  pub add_user_to_organisation :
      ℕ
      → ℕ
      → AddUserToOrganisationInput
      → World
      → Result AddUserToOrganisationError (Unit {0}) × World
  unfolding add_error
  add_user_to_organisation actor_user_id actor_org_id input w =
      elim (add_member fails now input.user_id input.org_id input.role_code w.db) [
        | err e ↦ (err (add_error e), w)
        | ok db ↦ (
          ok tt,
          record {
            db = db;
            audit =
                w.audit
                ++ organisation_member_added stamp actor_user_id actor_org_id input.org_id
                    input.user_id input.role_code
                  ∷ [];
          },
        )
      ]

  pub remove_user_from_organisation :
      ℕ
      → ℕ
      → RemoveUserFromOrganisationInput
      → World
      → Result RemoveUserFromOrganisationError (Unit {0}) × World
  unfolding remove_error
  remove_user_from_organisation actor_user_id actor_org_id input w =
      elim (remove_member_checked fails input.user_id input.org_id w.db) [
        | err e ↦ (err (remove_error e), w)
        | ok db ↦ (
          ok tt,
          record {
            db = db;
            audit =
                w.audit
                ++ organisation_member_removed stamp actor_user_id actor_org_id input.org_id
                    input.user_id
                  ∷ [];
          },
        )
      ]

  abbrev repo_error {ℓ} : {A : Type ℓ} → Result RepoError A → Result AssignRoleError A
  repo_error r = map_err AssignRoleError.repo r

  -- Step 1: an actor who is no operator must be a member.
  check_actor : ℕ → Bool → ℕ → Db → Result AssignRoleError (Unit {0})
  check_actor actor true org db = ok tt
  check_actor actor false org db = do
    member ← repo_error (is_member fails actor org db)
    if member then ok tt else err AssignRoleError.not_found

  home_of : ℕ → ℕ → UserKind → Db → Result AssignRoleError (Unit {0})
  home_of org target human db = ok tt
  home_of org target service_account db = do
    found ← map_err (λ _. AssignRoleError.internal) (find_service_account fails org target db)
    _ ← ok_or found AssignRoleError.service_account_cross_org_forbidden
    ok tt

  abbrev check_found : ℕ → ℕ → Option User → Db → Result AssignRoleError (Unit {0})
  check_found org target none db = ok tt
  check_found org target (some u) db = home_of org target u.kind db

  -- Step 1b: a service account is bound to its home organisation.
  check_home : ℕ → ℕ → Db → Result AssignRoleError (Unit {0})
  unfolding home_of
  check_home org target db = do
    found ← map_err (λ _. AssignRoleError.internal) (find_user fails target db)
    check_found org target found db

  -- Steps 2 to 5: whether the role is new, and the tables with it.
  assign_checked : AssignRoleInput → Db → Result AssignRoleError (Bool × Db)
  assign_checked input db = do
    found ← repo_error (find_by_code fails input.role_code db)
    role ← ok_or found AssignRoleError.unknown_role_code
    member ← repo_error (is_member fails input.target_user_id input.organisation_id db)
    if not member then err AssignRoleError.unknown_user else do
      already ← repo_error (has_role fails input.target_user_id input.organisation_id role.id db)
      db' ← repo_error (assign fails now input.target_user_id input.organisation_id role.id db)
      ok (not already, db')

  assign_db : ℕ → Bool → AssignRoleInput → Db → Result AssignRoleError (Bool × Db)
  unfolding check_actor check_home assign_checked
  assign_db actor is_operator input db = do
    _ ← check_actor actor is_operator input.organisation_id db
    _ ← check_home input.organisation_id input.target_user_id db
    assign_checked input db

  -- `was_new`; the event is recorded only for a role that is new.
  pub assign_role : ℕ → ℕ → Bool → AssignRoleInput → World → Result AssignRoleError Bool × World
  unfolding assign_db
  assign_role actor actor_org is_operator input w = elim (assign_db actor is_operator input w.db) [
    | err e ↦ (err e, w)
    | ok (was_new, db) ↦ (
      ok was_new,
      record {
        db = db;
        audit =
            if was_new
            then w.audit
              ++ organisation_role_assigned stamp actor actor_org input.organisation_id
                  input.target_user_id input.role_code
                ∷ []
            else w.audit;
      },
    )
  ]
