-- ===== src/Tenants/Repository.antt =====
-- src/tenants/persistence: the tables of organisations, roles and memberships, and the SQL of
-- `OrganisationRepositoryPg` and `RoleRepositoryPg`; of users and service accounts, what the tenants
-- read. `fails` says which queries fail in the database. A transaction is one step: the removal of a
-- member locks the rows that it counts, the row of the role among them.
pub mod Owners
use egras.Prelude.{
  ℕ, String, Bool, true, false, ◌&&◌, ◌||◌, not, Option, none, some, List, [], ◌∷◌, ◌++◌, map,
  filter, find, any, contains, count, Result, ok, err, ◌>>=◌, ok_or, ◌==◌, ℕ_eq, String_eq,
  if◌then◌else◌,
}

pub record Organisation : Type 0 where
  pub id : ℕ
  pub name : String
  pub business : String
  pub is_operator : Bool
  pub created_at : ℕ
  pub updated_at : ℕ

pub record Role : Type 0 where
  pub id : ℕ
  pub code : String

-- A row of `user_organisation_roles`.
pub record Membership : Type 0 where
  pub user_id : ℕ
  pub organisation_id : ℕ
  pub role_id : ℕ
  pub created_at : ℕ

pub data UserKind : Type 0 where
  human service_account : UserKind

pub record User : Type 0 where
  pub id : ℕ
  pub kind : UserKind

pub record ServiceAccount : Type 0 where
  pub user_id : ℕ
  pub organisation_id : ℕ

pub record Db : Type 0 where
  pub organisations : List Organisation
  pub roles : List Role
  pub memberships : List Membership
  pub users : List User
  pub service_accounts : List ServiceAccount

pub data RepoError : Type 0 where
  duplicate_name unknown_role_code : String → RepoError
  unknown_user : ℕ → RepoError
  db_error not_found not_member last_owner : RepoError

pub data Query : Type 0 where
  create_query role_query insert_query is_member_query has_role_query : Query
  remove_query user_query service_account_query : Query

abbrev pub is_member_row : ℕ → ℕ → Membership → Bool
is_member_row user org m = m.user_id == user && m.organisation_id == org

abbrev pub is_role_row : ℕ → ℕ → ℕ → Membership → Bool
is_role_row user org role m = is_member_row user org m && m.role_id == role

-- `JOIN roles r ON r.id = uor.role_id … r.code = 'org_owner'`
abbrev pub is_owner_row : List Role → Membership → Bool
is_owner_row roles m = any (λ (r : Role). r.id == m.role_id && r.code == "org_owner") roles

abbrev pub user_exists : ℕ → Db → Bool
user_exists user db = any (λ (u : User). u.id == user) db.users

abbrev pub organisation_exists : ℕ → Db → Bool
organisation_exists org db = any (λ (o : Organisation). o.id == org) db.organisations

-- `INSERT … ON CONFLICT DO NOTHING`
unfoldable pub insert_row : Membership → List Membership → List Membership
insert_row new rows =
    if any (is_role_row new.user_id new.organisation_id new.role_id) rows
    then rows
    else rows ++ new ∷ []

pub delete_rows : ℕ → ℕ → List Membership → List Membership
delete_rows user org rows = filter (λ m. not (is_member_row user org m)) rows

module _ (fails : Query → Bool) where
  unfoldable pub find_by_code : String → Db → Result RepoError (Option Role)
  find_by_code code db =
      if fails role_query then err db_error else ok (find (λ r. r.code == code) db.roles)

  unfoldable pub is_member : ℕ → ℕ → Db → Result RepoError Bool
  is_member user org db =
      if fails is_member_query
      then err db_error
      else ok (any (is_member_row user org) db.memberships)

  unfoldable pub has_role : ℕ → ℕ → ℕ → Db → Result RepoError Bool
  has_role user org role db =
      if fails has_role_query
      then err db_error
      else ok (any (is_role_row user org role) db.memberships)

  -- The foreign keys on the user and on the organisation.
  unfoldable pub assign : ℕ → ℕ → ℕ → ℕ → Db → Result RepoError Db
  assign now user org role db =
      if fails insert_query
      then err db_error
      else if not (user_exists user db)
      then err (unknown_user user)
      else if not (organisation_exists org db)
      then err db_error
      else ok (record db {
        memberships =
            insert_row
              (record { user_id = user; organisation_id = org; role_id = role; created_at = now })
              db.memberships;
      })

  unfoldable pub add_member : ℕ → ℕ → ℕ → String → Db → Result RepoError Db
  unfolding find_by_code
  add_member now user org role_code db = do
    found ← find_by_code role_code db
    role ← ok_or found (unknown_role_code role_code)
    if fails insert_query
        then err db_error
        else if not (user_exists user db) || not (organisation_exists org db)
        then err not_found
        else ok (record db {
          memberships =
              insert_row
                (record {
                  user_id = user;
                  organisation_id = org;
                  role_id = role.id;
                  created_at = now;
                })
                db.memberships;
        })

  unfoldable pub remove_member_checked : ℕ → ℕ → Db → Result RepoError Db
  remove_member_checked user org db =
      let other_owners =
        count
          (λ (m : Membership).
            m.organisation_id == org && is_owner_row db.roles m && not (m.user_id == user))
          db.memberships in
      let target_is_owner =
        any (λ (m : Membership). is_member_row user org m && is_owner_row db.roles m)
          db.memberships in
      if fails remove_query
      then err db_error
      else if not (any (is_member_row user org) db.memberships)
      then err not_member
      else if target_is_owner && other_owners == 0
      then err last_owner
      else ok (record db { memberships = delete_rows user org db.memberships })

  unfoldable pub create_with_initial_owner :
      ℕ → ℕ → String → String → ℕ → String → Db → Result RepoError (Organisation × Db)
  unfolding find_by_code
  create_with_initial_owner id now name business creator owner_role_code db =
      let org : Organisation = record {
        id = id;
        name = name;
        business = business;
        is_operator = false;
        created_at = now;
        updated_at = now;
      } in
      if fails create_query || organisation_exists id db
      then err db_error
      else if any (λ (o : Organisation). o.name == name) db.organisations
      then err (duplicate_name name)
      else do
        found ← find_by_code owner_role_code db
        role ← ok_or found (unknown_role_code owner_role_code)
        if fails insert_query
            then err db_error
            else if not (user_exists creator db)
            then err (unknown_user creator)
            else ok (
              org,
              record db {
                organisations = db.organisations ++ org ∷ [];
                memberships =
                    db.memberships
                    ++ record {
                      user_id = creator;
                      organisation_id = id;
                      role_id = role.id;
                      created_at = now;
                    }
                      ∷ [];
              },
            )

  -- `UserRepository::find_by_id` and `ServiceAccountRepository::find`, as far as they are used here.
  unfoldable pub find_user : ℕ → Db → Result RepoError (Option User)
  find_user user db =
      if fails user_query then err db_error else ok (find (λ u. u.id == user) db.users)

  unfoldable pub find_service_account : ℕ → ℕ → Db → Result RepoError (Option ServiceAccount)
  find_service_account org user db =
      if fails service_account_query
      then err db_error
      else ok (find (λ s. s.organisation_id == org && s.user_id == user) db.service_accounts)
