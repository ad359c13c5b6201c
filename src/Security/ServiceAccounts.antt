-- ===== src/Security/ServiceAccounts.antt =====
-- src/security/persistence/service_account_repository_pg.rs. `uuid_text` is how the uuid crate writes
-- an id; `same_email` compares two CITEXT columns.
use Prim.Native.String
use egras.Prelude.{
  ℕ, String, Bool, true, ◌&&◌, ◌||◌, not, ◌+◌, ◌*◌, Option, none, some, List, [], ◌∷◌, ◌++◌, map,
  filter, find, any, take, sort_by, Result, ok, err, ltb, leb, ◌==◌, ℕ_eq, String_eq, if◌then◌else◌,
  bytes,
}
use egras.Tenants.Repository.{Organisation, Membership, UserKind}
use egras.Security.Model.{
  User, ServiceAccount, StoredKey, PasswordResetToken, RevokedToken, Db, Query, Failure, failure,
  user_exists, find_account_query, insert_account_query, insert_user_query, list_accounts_query,
  delete_account_query, touch_account_query,
}

pub record NewServiceAccount : Type 0 where
  pub organisation_id : ℕ
  pub name : String
  pub description : Option String
  pub created_by : ℕ

pub data ServiceAccountRepoError : Type 0 where
  duplicate_name other : ServiceAccountRepoError

abbrev pub account_id : ServiceAccount → ℕ
account_id a = a.user_id

abbrev pub is_account : ℕ → ℕ → ServiceAccount → Bool
is_account org user a = a.organisation_id == org && a.user_id == user

abbrev is_service_account : UserKind → Bool
is_service_account UserKind.service_account = true
is_service_account UserKind.human = Bool.false

abbrev pub is_account_user : ℕ → User → Bool
is_account_user user u = u.id == user && is_service_account u.kind

-- `(created_at, user_id) > ($2, $3)`
abbrev pub after_account : Option (ℕ × ℕ) → ServiceAccount → Bool
after_account none a = true
after_account (some (created_at, id)) a =
    ltb created_at a.created_at || created_at == a.created_at && ltb id a.user_id

abbrev pub account_before : ServiceAccount → ServiceAccount → Bool
account_before a b =
    ltb a.created_at b.created_at || a.created_at == b.created_at && leb a.user_id b.user_id

-- `ON DELETE CASCADE` of a row of `users`.
unfoldable pub delete_user : ℕ → Db → Db
delete_user user db = record db {
  users = filter (λ (u : User). not (u.id == user)) db.users;
  reset_tokens = filter (λ (t : PasswordResetToken). not (t.user_id == user)) db.reset_tokens;
  revoked_tokens = filter (λ (r : RevokedToken). not (r.user_id == user)) db.revoked_tokens;
  service_accounts = filter (λ (a : ServiceAccount). not (a.user_id == user)) db.service_accounts;
  api_keys = filter (λ (k : StoredKey). not (k.key.service_account_user_id == user)) db.api_keys;
  memberships = filter (λ (m : Membership). not (m.user_id == user)) db.memberships;
}

-- `created_by REFERENCES users(id)`, of the rows that the cascade leaves.
abbrev is_creator : ℕ → Db → Bool
is_creator user db =
    any (λ (a : ServiceAccount). a.created_by == user) (delete_user user db).service_accounts
    || any (λ (k : StoredKey). k.key.created_by == user) (delete_user user db).api_keys

abbrev throttled : ℕ → Option ℕ → Option ℕ
throttled now none = some now
throttled now (some t) = if ltb (t + 60 * 1000000000) now then some now else some t

abbrev touched : ℕ → ℕ → ServiceAccount → ServiceAccount
touched now user a =
    if a.user_id == user then record a { last_used_at = throttled now a.last_used_at } else a

module _ (fails : Query → Bool) where
  -- Both rows in one transaction; a password is never a match for the hash `!`.
  unfoldable pub create :
      (String → String → Bool)
      → (ℕ → String)
      → ℕ
      → ℕ
      → NewServiceAccount
      → Db
      → Result ServiceAccountRepoError (ServiceAccount × Db)
  create same_email uuid_text id now req db =
      let synth_username = String.◌++◌ "sa_" (uuid_text id) in
      let synth_email = String.◌++◌ "sa_" (String.◌++◌ (uuid_text id) "@service-account.invalid") in
      let a : ServiceAccount = record {
        user_id = id;
        organisation_id = req.organisation_id;
        name = req.name;
        description = req.description;
        created_at = now;
        created_by = req.created_by;
        last_used_at = none;
      } in
      if fails insert_user_query
        || any
            (λ (u : User).
              u.id == id || u.username == synth_username || same_email u.email synth_email)
            db.users
      then err other
      else if fails insert_account_query
      then err other
      else if any
          (λ (b : ServiceAccount). b.organisation_id == req.organisation_id && b.name == req.name)
          db.service_accounts
      then err duplicate_name
      else if not (any (λ (o : Organisation). o.id == req.organisation_id) db.organisations)
          || not (user_exists req.created_by db)
      then err other
      else ok (
        a,
        record db {
          users =
              db.users
              ++ record {
                id = id;
                username = synth_username;
                email = synth_email;
                password_hash = bytes "!";
                kind = UserKind.service_account;
                created_at = now;
                updated_at = now;
              }
                ∷ [];
          service_accounts = db.service_accounts ++ a ∷ [];
        },
      )

  unfoldable pub find_account : ℕ → ℕ → Db → Result Failure (Option ServiceAccount)
  find_account org user db =
      if fails find_account_query
      then err failure
      else ok (find (is_account org user) db.service_accounts)

  unfoldable pub list : ℕ → ℕ → Option (ℕ × ℕ) → Db → Result Failure (List ServiceAccount)
  list org limit after db =
      if fails list_accounts_query
      then err failure
      else ok (
          take limit (
            sort_by account_before (
              filter (λ (a : ServiceAccount). a.organisation_id == org && after_account after a)
                db.service_accounts)))

  -- Whether a row of `users` went. `organisation_features.updated_by` refers to users too, from a table
  -- that is not one of these: where it does, the database refuses, and `fails` says so.
  unfoldable pub delete : ℕ → ℕ → Db → Result Failure (Bool × Db)
  unfolding delete_user
  delete org user db =
      if fails find_account_query
      then err failure
      else if not (any (is_account org user) db.service_accounts)
      then ok (Bool.false, db)
      else if not (any (is_account_user user) db.users)
      then (if fails delete_account_query then err failure else ok (Bool.false, db))
      else if fails delete_account_query || is_creator user db
      then err failure
      else ok (true, delete_user user db)

  pub touch_last_used : ℕ → ℕ → Db → Result Failure Db
  touch_last_used now user db =
      if fails touch_account_query
      then err failure
      else ok (record db { service_accounts = map (touched now user) db.service_accounts })
