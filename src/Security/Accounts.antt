-- ===== src/Security/Accounts.antt =====
-- src/security/service: create_service_account.rs, delete_service_account.rs and
-- list_service_accounts.rs.
pub mod Abroad
pub mod Tests
pub mod Cascades
pub mod Skipping
use egras.Prelude.{
  ℕ, zero, suc, ◌+◌, ◌<◌, String, Bool, true, false, not, min, max, Option, none, some, List, [],
  ◌∷◌, ◌++◌, length, take, Result, ok, err, ◌>>=◌, ok_or, map_err, ltb, if◌then◌else◌,
}
use egras.Audit.Security.{
  service_account_created, service_account_deleted, api_key_created, api_key_rotated,
  api_key_revoked,
}
use egras.Security.ApiKeySecret.{generate}
use egras.Security.PasswordHash.{hash_password}
use egras.Security.Model.{ServiceAccount, ApiKey, ApiKeyMaterial, Db, Failure}
use egras.Security.ServiceAccounts.{
  NewServiceAccount, ServiceAccountRepoError, find_account, create as create_account, delete, list,
}
use egras.Security.ApiKeys.{
  NewApiKeyRow, ApiKeyRepoError, has_no_scope, insert_key, find_key, list_by_sa, revoke, rotate,
}
use egras.Security.State.{AppState, Call, World, recorded, or_error}

pub record CreateServiceAccountInput : Type 0 where
  pub organisation_id : ℕ
  pub name : String
  pub description : Option String
  pub actor_user_id : ℕ
  pub actor_org_id : ℕ

pub data CreateServiceAccountError : Type 0 where
  duplicate_name other : CreateServiceAccountError

pub record DeleteServiceAccountInput : Type 0 where
  pub organisation_id : ℕ
  pub sa_user_id : ℕ
  pub actor_user_id : ℕ
  pub actor_org_id : ℕ

pub data DeleteServiceAccountError : Type 0 where
  not_found other : DeleteServiceAccountError

pub record ListServiceAccountsOutput : Type 0 where
  pub items : List ServiceAccount
  pub next_cursor : Option (ℕ × ℕ)

-- `u32::clamp(1, 200)`
abbrev pub clamp : ℕ → ℕ
clamp limit = max 1 (min limit 200)

-- `Vec::pop`: the items before the last one, and the last one.
abbrev pub pop : ServiceAccount → List ServiceAccount → List ServiceAccount × ServiceAccount
pop a [] = ([], a)
pop a (b ∷ bs) = let (rest, last) = pop b bs in (a ∷ rest, last)

-- The item too many is taken off, and the cursor points at it.
abbrev pub cut : List ServiceAccount × ServiceAccount → ListServiceAccountsOutput
cut (kept, extra) = record { items = kept; next_cursor = some (extra.created_at, extra.user_id) }

abbrev pub page_of : ℕ → List ServiceAccount → ListServiceAccountsOutput
page_of limit [] = record { items = []; next_cursor = none }
page_of limit (a ∷ items) =
    if ltb limit (length (a ∷ items))
    then cut (pop a items)
    else record { items = a ∷ items; next_cursor = none }

create_account_error : ServiceAccountRepoError → CreateServiceAccountError
create_account_error ServiceAccountRepoError.duplicate_name =
    CreateServiceAccountError.duplicate_name
create_account_error ServiceAccountRepoError.other = CreateServiceAccountError.other

module _ (s : AppState) (c : Call) where
  pub create_service_account :
      CreateServiceAccountInput → World → Result CreateServiceAccountError ServiceAccount × World
  unfolding create_account_error
  create_service_account input w =
      elim (create_account c.fails s.text.same_email s.uuid_text c.id c.now
        (record {
          organisation_id = input.organisation_id;
          name = input.name;
          description = input.description;
          created_by = input.actor_user_id;
        })
        w.db) [
          | err e ↦ (err (create_account_error e), w)
          | ok (a, db) ↦ (
            ok a,
            recorded
                (service_account_created c.stamp input.actor_user_id input.actor_org_id a.user_id
                  input.organisation_id input.name)
                (record w { db = db }),
          )
        ]

  pub delete_service_account :
      DeleteServiceAccountInput → World → Result DeleteServiceAccountError (Unit {0}) × World
  delete_service_account input w =
      elim (delete c.fails input.organisation_id input.sa_user_id w.db) [
        | err _ ↦ (err DeleteServiceAccountError.other, w)
        | ok (removed, db) ↦ if not removed then (err DeleteServiceAccountError.not_found, w) else (
          ok tt,
          recorded
              (service_account_deleted c.stamp input.actor_user_id input.actor_org_id
                input.sa_user_id input.organisation_id)
              (record w { db = db }),
        )
      ]

pub list_service_accounts :
    Call → ℕ → ℕ → Option (ℕ × ℕ) → Db → Result Failure ListServiceAccountsOutput
list_service_accounts c org limit after db = do
  items ← list c.fails org (clamp limit + 1) after db
  ok (page_of (clamp limit) items)
