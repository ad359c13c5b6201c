-- ===== src/Security/ApiKeys.antt =====
-- src/security/persistence/api_key_repository_pg.rs: the table of keys, and `PgApiKeyVerifier`.
pub mod Abroad
pub mod Inserted
pub mod Revoked
use egras.Prelude.{
  ℕ, String, Bool, true, false, ◌&&◌, ◌||◌, not, ◌+◌, ◌*◌, Option, none, some, List, [], ◌∷◌, ◌++◌,
  map, filter, find, any, sort_by, Result, ok, err, ◌>>=◌, ltb, leb, ◌==◌, ℕ_eq, bytes_eq,
  if◌then◌else◌,
}
use egras.Auth.Middleware.{VerifiedKey}
use egras.Security.Model.{
  ApiKey, StoredKey, ServiceAccount, Db, Query, Failure, failure, user_exists, find_key_query,
  find_active_query, insert_key_query, list_keys_query, revoke_key_query, rotate_key_query,
  touch_key_query,
}
use egras.Security.PasswordHash.{Argon2, verify_password}

pub record NewApiKeyRow : Type 0 where
  pub id : ℕ
  pub service_account_user_id : ℕ
  pub prefix : List ℕ
  pub secret_hash : List ℕ
  pub name : String
  pub scopes : Option (List String)
  pub created_by : ℕ

pub record ApiKeyRow : Type 0 where
  pub key : ApiKey
  pub secret_hash : List ℕ
  pub organisation_id : ℕ

pub data ApiKeyRepoError : Type 0 where
  duplicate_prefix other : ApiKeyRepoError

abbrev pub is_active : StoredKey → Bool
is_active k = elim k.key.revoked_at [ none ↦ true | some _ ↦ false ]

abbrev pub stored : ℕ → NewApiKeyRow → StoredKey
stored now new = record {
  key = record {
    id = new.id;
    service_account_user_id = new.service_account_user_id;
    prefix = new.prefix;
    name = new.name;
    scopes = new.scopes;
    created_at = now;
    created_by = new.created_by;
    last_used_at = none;
    revoked_at = none;
  };
  secret_hash = new.secret_hash;
}

-- `cardinality(scopes) > 0`
abbrev pub has_no_scope : Option (List String) → Bool
has_no_scope none = false
has_no_scope (some []) = true
has_no_scope (some (_ ∷ _)) = false

abbrev pub with_key : (ApiKey → ApiKey) → StoredKey → StoredKey
with_key f k = record k { key = f k.key }

-- `SET revoked_at = NOW()`
abbrev revoke_at : ℕ → ApiKey → ApiKey
revoke_at now key = record key { revoked_at = some now }

abbrev pub is_of : ℕ → ℕ → StoredKey → Bool
is_of sa id k = k.key.id == id && k.key.service_account_user_id == sa

abbrev pub revoke_if : (StoredKey → Bool) → ℕ → StoredKey → StoredKey
revoke_if p now k = if p k && is_active k then with_key (revoke_at now) k else k

abbrev last_use : ℕ → Option ℕ → Option ℕ
last_use now none = some now
last_use now (some t) = if ltb (t + 60 * 1000000000) now then some now else some t

abbrev pub use_at : ℕ → ApiKey → ApiKey
use_at now key = record key { last_used_at = last_use now key.last_used_at }

abbrev key_before : ApiKey → ApiKey → Bool
key_before a b = ltb a.created_at b.created_at || a.created_at == b.created_at && leb a.id b.id

abbrev key_of : Option StoredKey → Option ApiKey
key_of none = none
key_of (some k) = some k.key

-- `JOIN service_accounts sa ON sa.user_id = k.service_account_user_id`
abbrev joined : StoredKey → Option ServiceAccount → Option ApiKeyRow
joined k none = none
joined k (some a) =
    some (record { key = k.key; secret_hash = k.secret_hash; organisation_id = a.organisation_id })

abbrev join : List ServiceAccount → Option StoredKey → Option ApiKeyRow
join accounts none = none
join accounts (some k) =
    joined k (find (λ (a : ServiceAccount). a.user_id == k.key.service_account_user_id) accounts)

abbrev accepted : ApiKeyRow → VerifiedKey
accepted row = record {
  key_id = row.key.id;
  sa_user_id = row.key.service_account_user_id;
  organisation_id = row.organisation_id;
  scopes = row.key.scopes;
}

module _ (fails : Query → Bool) where
  -- The prefix is `UNIQUE`, over revoked keys too; account and creator are foreign keys.
  unfoldable pub insert_key : ℕ → NewApiKeyRow → Db → Result ApiKeyRepoError (ApiKey × Db)
  insert_key now new db =
      if fails insert_key_query || has_no_scope new.scopes
      then err other
      else if any (λ (k : StoredKey). k.key.id == new.id || k.key.prefix == new.prefix) db.api_keys
      then err duplicate_prefix
      else if not (
            any (λ (a : ServiceAccount). a.user_id == new.service_account_user_id)
              db.service_accounts)
          || not (user_exists new.created_by db)
      then err other
      else ok ((stored now new).key, record db { api_keys = db.api_keys ++ stored now new ∷ [] })

  unfoldable pub find_active_by_prefix : List ℕ → Db → Result Failure (Option ApiKeyRow)
  find_active_by_prefix prefix db =
      if fails find_active_query
      then err failure
      else ok (
          join db.service_accounts
            (find (λ (k : StoredKey). k.key.prefix == prefix && is_active k) db.api_keys))

  unfoldable pub find_key : ℕ → ℕ → Db → Result Failure (Option ApiKey)
  find_key sa id db =
      if fails find_key_query then err failure else ok (key_of (find (is_of sa id) db.api_keys))

  pub list_by_sa : ℕ → Db → Result Failure (List ApiKey)
  list_by_sa sa db =
      if fails list_keys_query
      then err failure
      else ok (
          sort_by key_before (
            map (λ (k : StoredKey). k.key)
              (filter (λ (k : StoredKey). k.key.service_account_user_id == sa) db.api_keys)))

  -- Whether a key has changed from active to revoked.
  unfoldable pub revoke : ℕ → ℕ → ℕ → Db → Result Failure (Bool × Db)
  revoke now sa id db =
      if fails revoke_key_query
      then err failure
      else ok (
        any (λ k. is_of sa id k && is_active k) db.api_keys,
        record db { api_keys = map (revoke_if (is_of sa id) now) db.api_keys },
      )

  unfoldable pub touch_last_used : ℕ → ℕ → Db → Result Failure Db
  touch_last_used now id db =
      if fails touch_key_query
      then err failure
      else ok (record db {
        api_keys =
            map (λ (k : StoredKey). if k.key.id == id then with_key (use_at now) k else k)
              db.api_keys;
      })

  -- One transaction: an insert that is refused leaves the old key as it was.
  unfoldable pub rotate : ℕ → ℕ → NewApiKeyRow → Db → Result ApiKeyRepoError (ApiKey × Db)
  unfolding insert_key
  rotate now old_key_id new db =
      if fails rotate_key_query
      then err other
      else insert_key now new
          (record db { api_keys = map (revoke_if (λ k. k.key.id == old_key_id) now) db.api_keys })

  check_secret : Argon2 → List ℕ → Option ApiKeyRow → Result Failure (Option VerifiedKey)
  check_secret a secret none = ok none
  check_secret a secret (some row) = do
    right ← verify_password a secret row.secret_hash
    ok (if right then some (accepted row) else none)

  -- `PgApiKeyVerifier::verify`
  unfoldable pub verify : Argon2 → List ℕ → List ℕ → Db → Result Failure (Option VerifiedKey)
  unfolding find_active_by_prefix check_secret
  verify a prefix secret db = do
    found ← find_active_by_prefix prefix db
    check_secret a secret found
