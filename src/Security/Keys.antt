-- ===== src/Security/Keys.antt =====
-- src/security/service: create_api_key.rs, rotate_api_key.rs, revoke_api_key.rs and list_api_keys.rs.
-- `Draw` is what an attempt to
-- make a key takes from the generators.
pub mod Abroad
pub mod Tests
pub mod Drawing
pub mod Minted
pub mod Retiring
pub mod Forever
use egras.Prelude.{
  ℕ, zero, suc, String, not, Option, none, some, List, Result, ok, err, ◌>>=◌, ok_or, if◌then◌else◌,
}
use egras.Audit.Security.{api_key_created, api_key_rotated, api_key_revoked}
use egras.Security.ApiKeySecret.{generate}
use egras.Security.PasswordHash.{hash_password}
use egras.Security.Model.{ApiKey, ApiKeyMaterial, Db, Failure}
use egras.Security.ServiceAccounts.{find_account}
use egras.Security.ApiKeys.{
  NewApiKeyRow, ApiKeyRepoError, has_no_scope, insert_key, find_key, list_by_sa, revoke, rotate,
}
use egras.Security.State.{AppState, Call, World, recorded, or_error}

pub record Draw : Type 0 where
  pub id : ℕ
  pub prefix_bytes : List ℕ
  pub secret_bytes : List ℕ
  pub salt : List ℕ

pub record CreateApiKeyInput : Type 0 where
  pub organisation_id : ℕ
  pub sa_user_id : ℕ
  pub name : String
  pub scopes : Option (List String)
  pub actor_user_id : ℕ
  pub actor_org_id : ℕ

pub data CreateApiKeyError : Type 0 where
  not_found empty_scopes prefix_collision other : CreateApiKeyError

pub record RotateApiKeyInput : Type 0 where
  pub organisation_id : ℕ
  pub sa_user_id : ℕ
  pub old_key_id : ℕ
  pub name : Option String
  pub scopes : Option (Option (List String))
  pub actor_user_id : ℕ
  pub actor_org_id : ℕ

pub data RotateApiKeyError : Type 0 where
  not_found key_not_found empty_scopes prefix_collision other : RotateApiKeyError

pub record RevokeApiKeyInput : Type 0 where
  pub organisation_id : ℕ
  pub sa_user_id : ℕ
  pub key_id : ℕ
  pub actor_user_id : ℕ
  pub actor_org_id : ℕ

pub data RevokeApiKeyError : Type 0 where
  not_found key_not_found other : RevokeApiKeyError

pub data ListApiKeysError : Type 0 where
  not_found other : ListApiKeysError

-- `name.unwrap_or_else(|| old.name.clone())`
abbrev pub name_or : Option String → ApiKey → String
name_or none old = old.name
name_or (some name) old = name

abbrev pub scopes_or :
    Option (Option (List String)) → ApiKey → Result RotateApiKeyError (Option (List String))
scopes_or none old = ok old.scopes
scopes_or (some scopes) old =
    if has_no_scope scopes then err RotateApiKeyError.empty_scopes else ok scopes

module _ (s : AppState) (c : Call) where
  -- The account stands in the organisation.
  pub check_account {ℓ} : {E : Type ℓ} → E → E → ℕ → ℕ → Db → Result E (Unit {0})
  check_account error missing org sa db = do
    found ← or_error error (find_account c.fails org sa db)
    _ ← ok_or found missing
    ok tt

  -- The row of a key that is drawn, and its plaintext.
  pub draw_key :
      ℕ → String → Option (List String) → ℕ → Draw → Result Failure (NewApiKeyRow × List ℕ)
  draw_key sa name scopes actor d = do
    let g = generate s.hex_encode s.base64_encode d.prefix_bytes d.secret_bytes
    secret_hash ← hash_password s.argon2 d.salt g.secret
    ok (
      record {
        id = d.id;
        service_account_user_id = sa;
        prefix = g.prefix;
        secret_hash = secret_hash;
        name = name;
        scopes = scopes;
        created_by = actor;
      },
      g.plaintext,
    )

  module _ (draws : ℕ → Draw) where
    -- `for _ in 0..2`, with the attempts that are left.
    pub create_loop : CreateApiKeyInput → ℕ → Db → Result CreateApiKeyError (ApiKeyMaterial × Db)
    unfolding draw_key
    create_loop input zero db = err CreateApiKeyError.prefix_collision
    create_loop input (suc n) db =
        elim (draw_key input.sa_user_id input.name input.scopes input.actor_user_id (draws n)) [
          | err _ ↦ err CreateApiKeyError.other
          | ok (row, plaintext) ↦ elim (insert_key c.fails c.now row db) [
            | ok (key, db') ↦ ok (record { key = key; plaintext = plaintext }, db')
            | err ApiKeyRepoError.duplicate_prefix ↦ create_loop input n db
            | err ApiKeyRepoError.other ↦ err CreateApiKeyError.other
          ]
        ]

    pub create_key_db : CreateApiKeyInput → Db → Result CreateApiKeyError (ApiKeyMaterial × Db)
    unfolding create_loop check_account
    create_key_db input db =
        if has_no_scope input.scopes then err CreateApiKeyError.empty_scopes else do
          _ ←
              check_account CreateApiKeyError.other CreateApiKeyError.not_found
                input.organisation_id input.sa_user_id db
          create_loop input 2 db

    pub create_api_key : CreateApiKeyInput → World → Result CreateApiKeyError ApiKeyMaterial × World
    unfolding create_key_db
    create_api_key input w = elim (create_key_db input w.db) [
      | err e ↦ (err e, w)
      | ok (m, db) ↦ (
        ok m,
        recorded
            (api_key_created s.uuid_json c.stamp input.actor_user_id input.actor_org_id
              input.sa_user_id input.organisation_id m.key.id (s.text_of m.key.prefix))
            (record w { db = db }),
      )
    ]

    pub rotate_loop :
        RotateApiKeyInput
        → String
        → Option (List String)
        → ℕ
        → Db
        → Result RotateApiKeyError (ApiKeyMaterial × Db)
    unfolding draw_key
    rotate_loop input name scopes zero db = err RotateApiKeyError.prefix_collision
    rotate_loop input name scopes (suc n) db =
        elim (draw_key input.sa_user_id name scopes input.actor_user_id (draws n)) [
          | err _ ↦ err RotateApiKeyError.other
          | ok (row, plaintext) ↦ elim (rotate c.fails c.now input.old_key_id row db) [
            | ok (key, db') ↦ ok (record { key = key; plaintext = plaintext }, db')
            | err ApiKeyRepoError.duplicate_prefix ↦ rotate_loop input name scopes n db
            | err ApiKeyRepoError.other ↦ err RotateApiKeyError.other
          ]
        ]

    pub rotate_key_db : RotateApiKeyInput → Db → Result RotateApiKeyError (ApiKeyMaterial × Db)
    unfolding rotate_loop check_account
    rotate_key_db input db = do
      _ ←
          check_account RotateApiKeyError.other RotateApiKeyError.not_found input.organisation_id
            input.sa_user_id db
      found ←
          or_error RotateApiKeyError.other (find_key c.fails input.sa_user_id input.old_key_id db)
      old ← ok_or found RotateApiKeyError.key_not_found
      scopes ← scopes_or input.scopes old
      rotate_loop input (name_or input.name old) scopes 2 db

    pub rotate_api_key : RotateApiKeyInput → World → Result RotateApiKeyError ApiKeyMaterial × World
    unfolding rotate_key_db
    rotate_api_key input w = elim (rotate_key_db input w.db) [
      | err e ↦ (err e, w)
      | ok (m, db) ↦ (
        ok m,
        recorded
            (api_key_rotated s.uuid_json c.stamp input.actor_user_id input.actor_org_id
              input.sa_user_id input.organisation_id input.old_key_id m.key.id)
            (record w { db = db }),
      )
    ]

  pub revoke_key_db : RevokeApiKeyInput → Db → Result RevokeApiKeyError Db
  unfolding check_account
  revoke_key_db input db = do
    _ ←
        check_account RevokeApiKeyError.other RevokeApiKeyError.not_found input.organisation_id
          input.sa_user_id db
    (revoked, db') ←
        or_error RevokeApiKeyError.other (revoke c.fails c.now input.sa_user_id input.key_id db)
    if not revoked then err RevokeApiKeyError.key_not_found else ok db'

  pub revoke_api_key : RevokeApiKeyInput → World → Result RevokeApiKeyError (Unit {0}) × World
  unfolding revoke_key_db
  revoke_api_key input w = elim (revoke_key_db input w.db) [
    | err e ↦ (err e, w)
    | ok db ↦ (
      ok tt,
      recorded
          (api_key_revoked s.uuid_json c.stamp input.actor_user_id input.actor_org_id
            input.sa_user_id input.organisation_id input.key_id)
          (record w { db = db }),
    )
  ]

  pub list_api_keys : ℕ → ℕ → Db → Result ListApiKeysError (List ApiKey)
  unfolding check_account
  list_api_keys org sa db = do
    _ ← check_account ListApiKeysError.other ListApiKeysError.not_found org sa db
    or_error ListApiKeysError.other (list_by_sa c.fails sa db)
