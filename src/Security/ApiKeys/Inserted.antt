-- ===== src/Security/ApiKeys/Inserted.antt =====
-- A key that has been inserted is the one that the verifier finds under its prefix.
use egras.Prelude.{
  ℕ, Bool, true, false, ◌&&◌, ◌||◌, none, some, List, [], ◌∷◌, ◌++◌, find, any, ok, ◌==◌, ℕ_eq,
  bytes_eq, ◌≡◌, refl, ap, ◌∙◌, beq_refl, arith,
}
use egras.Security.Model.{StoredKey, ServiceAccount, ApiKey, Db, Query}
use egras.Security.PasswordHash.{Argon2, verify_password}
use egras.Security.ApiKeys.{
  NewApiKeyRow, is_active, stored, insert_key, find_active_by_prefix, check_secret, verify,
}

find-append {ℓ} :
    {A : Type ℓ} (p : A → Bool) (x : A) (xs : List A)
    → find p xs ≡ none
    → p x ≡ true
    → find p (xs ++ x ∷ []) ≡ some x
find-append p x [] e q = ground arith
find-append p x (y ∷ ys) e q = ground (arith, find-append p x ys)

find-none_of_any :
    (id : ℕ) (prefix : List ℕ) (rows : List StoredKey)
    → any (λ (k : StoredKey). k.key.id == id || k.key.prefix == prefix) rows ≡ false
    → find (λ (k : StoredKey). k.key.prefix == prefix && is_active k) rows ≡ none
find-none_of_any id prefix [] e = refl
find-none_of_any id prefix (k ∷ rows) e = ground (arith, find-none_of_any id prefix rows)

-- The account of a key.
abbrev pub account_of : ℕ → ServiceAccount → Bool
account_of sa a = a.user_id == sa

module _ (fails : Query → Bool) (now : ℕ) (new : NewApiKeyRow) where
  pub insert_key-ok :
      (db : Db) (key : ApiKey) (db' : Db)
      → insert_key fails now new db ≡ ok (key, db')
      → (any (λ (k : StoredKey). k.key.id == new.id || k.key.prefix == new.prefix) db.api_keys
          ≡ false)
        × (key ≡ (stored now new).key)
        × (db' ≡ record db { api_keys = db.api_keys ++ stored now new ∷ [] })
  unfolding insert_key
  insert_key-ok db key db' e = (ground arith, ground arith, ground arith)

  active : (stored now new).key.prefix == new.prefix && is_active (stored now new) ≡ true
  active = ground (arith, beq_refl new.prefix)

  -- What the verifier answers for the prefix and the secret of a row that was inserted.
  pub verify-insert_key :
      (later : Query → Bool) (a : Argon2) (secret : List ℕ) (db db' : Db) (key : ApiKey)
      (account : ServiceAccount)
      → insert_key fails now new db ≡ ok (key, db')
      → find (account_of new.service_account_user_id) db.service_accounts ≡ some account
      → later Query.find_active_query ≡ false
      → verify_password a secret new.secret_hash ≡ ok true
      → verify later a new.prefix secret db'
        ≡ ok (
            some (record {
              key_id = new.id;
              sa_user_id = new.service_account_user_id;
              organisation_id = account.organisation_id;
              scopes = new.scopes;
            }))
  unfolding verify find_active_by_prefix check_secret
  verify-insert_key later a secret db db' key account e has works right =
      let (fresh, _, written) = insert_key-ok db key db' e in
      let found =
        find-append (λ (k : StoredKey). k.key.prefix == new.prefix && is_active k) (stored now new)
          db.api_keys (find-none_of_any new.id new.prefix db.api_keys fresh) active in
      ap (λ d. verify later a new.prefix secret d) written
      ∙ (rw (verify, find_active_by_prefix, works, found, has, check_secret, right) refl)
