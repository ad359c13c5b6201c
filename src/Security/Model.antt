-- ===== src/Security/Model.antt =====
-- src/security/model.rs, and the tables that the repositories of src/security/persistence read and
-- write, with the columns of their rows. A password and its hash, a token and an API key's prefix and
-- secret are lists of UTF-8 bytes; names and addresses are texts.
use egras.Prelude.{
  ℕ, String, Bool, Option, none, some, List, ◌==◌, ℕ_eq, String_eq, any, if◌then◌else◌,
}
use egras.Tenants.Repository.{Organisation, Role, Membership, UserKind, human, service_account}

pub kind_as_str : UserKind → String
kind_as_str human = "human"
kind_as_str service_account = "service_account"

pub kind_from_str : String → Option UserKind
kind_from_str s =
    if s == "human"
    then some human
    else if s == "service_account"
    then some service_account
    else none

pub record User : Type 0 where
  pub id : ℕ
  pub username : String
  pub email : String
  pub password_hash : List ℕ
  pub kind : UserKind
  pub created_at : ℕ
  pub updated_at : ℕ

pub record UserMembership : Type 0 where
  pub org_id : ℕ
  pub org_name : String
  pub role_codes : List String
  pub joined_at : ℕ

pub record PasswordResetToken : Type 0 where
  pub id : ℕ
  pub token_hash : List ℕ
  pub user_id : ℕ
  pub expires_at : ℕ
  pub used_at : Option ℕ
  pub created_at : ℕ

-- A row of `revoked_tokens`.
pub record RevokedToken : Type 0 where
  pub jti : ℕ
  pub user_id : ℕ
  pub expires_at : ℕ

pub record UserCursor : Type 0 where
  pub created_at : ℕ
  pub user_id : ℕ

pub record ServiceAccount : Type 0 where
  pub user_id : ℕ
  pub organisation_id : ℕ
  pub name : String
  pub description : Option String
  pub created_at : ℕ
  pub created_by : ℕ
  pub last_used_at : Option ℕ

pub record ApiKey : Type 0 where
  pub id : ℕ
  pub service_account_user_id : ℕ
  pub prefix : List ℕ
  pub name : String
  pub scopes : Option (List String)
  pub created_at : ℕ
  pub created_by : ℕ
  pub last_used_at : Option ℕ
  pub revoked_at : Option ℕ

pub record ApiKeyMaterial : Type 0 where
  pub key : ApiKey
  pub plaintext : List ℕ

-- A row of `api_keys`: `secret_hash` is no part of `ApiKey`.
pub record StoredKey : Type 0 where
  pub key : ApiKey
  pub secret_hash : List ℕ

pub record Db : Type 0 where
  pub users : List User
  pub reset_tokens : List PasswordResetToken
  pub revoked_tokens : List RevokedToken
  pub service_accounts : List ServiceAccount
  pub api_keys : List StoredKey
  pub organisations : List Organisation
  pub roles : List Role
  pub memberships : List Membership

-- The queries, each of which can fail in the database.
pub data Query : Type 0 where
  find_user_query update_hash_query list_memberships_query list_users_query : Query
  bulk_memberships_query is_member_query insert_user_query role_by_code_query : Query
  insert_membership_query count_pending_query delete_oldest_query insert_token_query : Query
  find_valid_token_query consume_token_query revoke_token_query is_revoked_query : Query
  find_account_query insert_account_query list_accounts_query delete_account_query : Query
  touch_account_query find_key_query find_active_query insert_key_query : Query
  list_keys_query revoke_key_query rotate_key_query touch_key_query : Query
  load_permissions_query : Query

-- An error of the database, or of a crate (`anyhow::Error`).
pub data Failure : Type 0 where
  failure : Failure

abbrev pub user_exists : ℕ → Db → Bool
user_exists user db = any (λ (u : User). u.id == user) db.users
