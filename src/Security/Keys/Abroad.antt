-- ===== src/Security/Keys/Abroad.antt =====
-- Making, revoking and rotating a key leave the keys of other organisations as they are.
use egras.Prelude.{
  ℕ, Bool, true, some, [], ◌∷◌, ◌++◌, map, find, any, ok, ◌==◌, ℕ_eq, ◌≡◌, refl, inl, inr, ap, ◌∙◌,
  Bool-cases, Option-cases, Result-cases, All-mono, All-trivial, Keyed, arith,
}
use egras.Security.Model.{StoredKey, ApiKey, ApiKeyMaterial, Db, Query}
use egras.Security.ServiceAccounts.{is_account}
use egras.Security.ApiKeys.{NewApiKeyRow, is_of, revoke_if, stored, find_key, rotate}
use egras.Security.ApiKeys.Inserted.{insert_key-ok}
use egras.Security.State.{AppState, Call, World}
use egras.Security.ApiKeys.Abroad.{
  key_id, any-find, only_found, filter-append_home, filter-revoke_home, SameAbroad,
}
use egras.Security.Keys.{
  Draw, CreateApiKeyInput, RotateApiKeyInput, RevokeApiKeyInput, RotateApiKeyError,
  RevokeApiKeyError, name_or, check_account, create_key_db, create_api_key, rotate_key_db,
  rotate_api_key, revoke_key_db, revoke_api_key,
}
use egras.Security.Keys.Drawing.{
  create_db-ok, create_loop-ok, rotate_db-ok, rotate_loop-ok, check_account-ok,
}
use egras.Security.Keys.Forever.{revoke_db-ok}

module _ (s : AppState) (c : Call) where
  pub creating_abroad :
      (draws : ℕ → Draw) (input : CreateApiKeyInput) (w : World)
      → SameAbroad input.organisation_id w.db (create_api_key s c draws input w).1.db
  unfolding create_api_key
  creating_abroad draws input w = elim (Result-cases (create_key_db s c draws input w.db)) [
    | inr (_, failed) ↦ rw (failed, create_api_key) refl
    | inl ((m, db'), made) ↦
        let ((a, found), looped) = create_db-ok s c draws input w.db db' m made in
        let (k, row, drawn, inserted) = create_loop-ok s c draws input 2 w.db db' m looped in
        let (_, _, written) = insert_key-ok c.fails c.now row w.db m.key db' inserted in
        rw (made, create_api_key, written)
          (filter-append_home input.organisation_id input.sa_user_id w.db.service_accounts
            (any-find input.organisation_id input.sa_user_id w.db.service_accounts a found)
            (stored c.now row) w.db.api_keys drawn.account)
  ]

  revoke_key-account :
      (input : RevokeApiKeyInput) (db db' : Db)
      → revoke_key_db s c input db ≡ ok db'
      → any (is_account input.organisation_id input.sa_user_id) db.service_accounts ≡ true
  unfolding revoke_key_db
  revoke_key-account input db db' e =
      elim (Result-cases (
        check_account s c RevokeApiKeyError.other RevokeApiKeyError.not_found input.organisation_id
          input.sa_user_id db)) [
            | inr (_, failed) ↦ absurd (ground arith)
            | inl (tt, there) ↦
                let (a, found) =
                  check_account-ok s c RevokeApiKeyError.other RevokeApiKeyError.not_found
                    input.organisation_id input.sa_user_id db there in
                any-find input.organisation_id input.sa_user_id db.service_accounts a found
          ]

  pub revoking_abroad :
      (input : RevokeApiKeyInput) (w : World)
      → SameAbroad input.organisation_id w.db (revoke_api_key s c input w).1.db
  unfolding revoke_api_key
  revoking_abroad input w = elim (Result-cases (revoke_key_db s c input w.db)) [
    | inr (_, failed) ↦ rw (failed, revoke_api_key) refl
    | inl (db', made) ↦
        let (_, written) = revoke_db-ok s 0 c input w.db db' made in
        rw (made, revoke_api_key, written)
          (filter-revoke_home input.organisation_id input.sa_user_id w.db.service_accounts
            (revoke_key-account input w.db db' made) (is_of input.sa_user_id input.key_id) c.now
            w.db.api_keys
            (All-trivial
              (λ (k : StoredKey).
                is_of input.sa_user_id input.key_id k ≡ true
                → k.key.service_account_user_id ≡ input.sa_user_id)
              w.db.api_keys (λ k e. ground arith)))
  ]

  rotate_key-account :
      (draws : ℕ → Draw) (input : RotateApiKeyInput) (db db' : Db) (m : ApiKeyMaterial)
      → rotate_key_db s c draws input db ≡ ok (m, db')
      → any (is_account input.organisation_id input.sa_user_id) db.service_accounts ≡ true
  unfolding rotate_key_db
  rotate_key-account draws input db db' m e =
      elim (Result-cases (
        check_account s c RotateApiKeyError.other RotateApiKeyError.not_found input.organisation_id
          input.sa_user_id db)) [
            | inr (_, failed) ↦ absurd (ground arith)
            | inl (tt, there) ↦
                let (a, found) =
                  check_account-ok s c RotateApiKeyError.other RotateApiKeyError.not_found
                    input.organisation_id input.sa_user_id db there in
                any-find input.organisation_id input.sa_user_id db.service_accounts a found
          ]

  find_key-row :
      (sa id : ℕ) (db : Db) (old : ApiKey)
      → find_key c.fails sa id db ≡ ok (some old)
      → (k : StoredKey) × (find (is_of sa id) db.api_keys ≡ some k)
  unfolding find_key
  find_key-row sa id db old e = elim (Option-cases (find (is_of sa id) db.api_keys)) [
    | inl missing ↦ absurd (ground arith)
    | inr found ↦ found
  ]

  rotate-ok :
      (old_id : ℕ) (row : NewApiKeyRow) (db db' : Db) (key : ApiKey)
      → rotate c.fails c.now old_id row db ≡ ok (key, db')
      → db'.api_keys
        ≡ map (revoke_if (λ k. k.key.id == old_id) c.now) db.api_keys ++ stored c.now row ∷ []
  unfolding rotate
  rotate-ok old_id row db db' key e = elim (Bool-cases (c.fails Query.rotate_key_query)) [
    | inl failed ↦ absurd (ground arith)
    | inr works ↦
        let revoked = record db {
          api_keys = map (revoke_if (λ k. k.key.id == old_id) c.now) db.api_keys;
        } in
        let (_, _, written) = insert_key-ok c.fails c.now row revoked key db' (ground arith) in
        ap (λ (d : Db). d.api_keys) written
  ]

  pub rotating_abroad :
      (draws : ℕ → Draw) (input : RotateApiKeyInput) (w : World)
      → Keyed key_id w.db.api_keys
      → SameAbroad input.organisation_id w.db (rotate_api_key s c draws input w).1.db
  unfolding rotate_api_key
  rotating_abroad draws input w keyed = elim (Result-cases (rotate_key_db s c draws input w.db)) [
    | inr (_, failed) ↦ rw (failed, rotate_api_key) refl
    | inl ((m, db'), made) ↦
        let (old, scopes, has_old, _, looped) = rotate_db-ok s c draws input w.db db' m made in
        let (k, row, drawn, done) =
          rotate_loop-ok s c draws input (name_or input.name old) scopes 2 w.db db' m looped in
        let home = rotate_key-account draws input w.db db' m made in
        let (found, is_found) = find_key-row input.sa_user_id input.old_key_id w.db old has_old in
        let only =
          only_found input.sa_user_id input.old_key_id w.db.api_keys found keyed is_found in
        let q : StoredKey → Bool = λ k. k.key.id == input.old_key_id in
        rw (made, rotate_api_key, rotate-ok input.old_key_id row w.db db' m.key done)
          (filter-append_home input.organisation_id input.sa_user_id w.db.service_accounts home
              (stored c.now row) (map (revoke_if q c.now) w.db.api_keys) drawn.account
            ∙ filter-revoke_home input.organisation_id input.sa_user_id w.db.service_accounts home q
                c.now w.db.api_keys
                (All-mono
                  (λ (k : StoredKey).
                    k.key.id ≡ input.old_key_id → is_of input.sa_user_id input.old_key_id k ≡ true)
                  (λ k. q k ≡ true → k.key.service_account_user_id ≡ input.sa_user_id) w.db.api_keys
                  (λ k f e. let is_his = f (ground arith) in ground arith) only))
  ]
