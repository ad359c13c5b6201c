-- ===== src/Security/Keys/Drawing.antt =====
-- What the loops that draw a key make, and what a creation and a rotation that succeed have found.
use egras.Prelude.{
  ℕ, zero, suc, String, Option, some, List, find, ok, ℕ_eq, ◌≡◌, inl, inr, sym, ap, ◌∙◌, Bool-cases,
  Option-cases, Result-cases, arith,
}
use egras.Security.ApiKeySecret.{generate}
use egras.Security.PasswordHash.{hash_password}
use egras.Security.Model.{ApiKey, ApiKeyMaterial, ServiceAccount, Db, Query}
use egras.Security.ServiceAccounts.{find_account, is_account}
use egras.Security.ApiKeys.{
  NewApiKeyRow, ApiKeyRepoError, has_no_scope, insert_key, find_key, rotate,
}
use egras.Security.State.{AppState, Call, World}
use egras.Security.Keys.{
  Draw, CreateApiKeyInput, CreateApiKeyError, draw_key, create_loop, create_key_db, create_api_key,
  check_account, RotateApiKeyInput, RotateApiKeyError, rotate_loop, rotate_key_db, scopes_or,
  name_or,
}

module _ (s : AppState) where
  -- The row and the plaintext that a draw makes.
  pub record Drawn (sa : ℕ) (scopes : Option (List String)) (d : Draw) (row : NewApiKeyRow)
      (plaintext : List ℕ) : Type 0 where
    pub id : row.id ≡ d.id
    pub account : row.service_account_user_id ≡ sa
    pub scopes_of : row.scopes ≡ scopes
    pub prefix :
        row.prefix ≡ (generate s.hex_encode s.base64_encode d.prefix_bytes d.secret_bytes).prefix
    pub hashed :
        hash_password s.argon2 d.salt
          (generate s.hex_encode s.base64_encode d.prefix_bytes d.secret_bytes).secret
        ≡ ok row.secret_hash
    pub plain :
        plaintext ≡ (generate s.hex_encode s.base64_encode d.prefix_bytes d.secret_bytes).plaintext

  module _ (c : Call) where
    pub draw_key-Drawn :
        (sa : ℕ) (name : String) (scopes : Option (List String)) (actor : ℕ) (d : Draw)
        (row : NewApiKeyRow) (plaintext : List ℕ)
        → draw_key s c sa name scopes actor d ≡ ok (row, plaintext)
        → Drawn sa scopes d row plaintext
    unfolding draw_key
    draw_key-Drawn sa name scopes actor d row plaintext e =
        elim (Result-cases (
          hash_password s.argon2 d.salt
            (generate s.hex_encode s.base64_encode d.prefix_bytes d.secret_bytes).secret)) [
              | inr (_, failed) ↦ absurd (ground arith)
              | inl (h, hashed) ↦ record {
                id = ground arith;
                account = ground arith;
                scopes_of = ground arith;
                prefix = ground arith;
                hashed = ground arith;
                plain = ground arith;
              }
            ]

    -- The attempt that went through.
    pub create_loop-ok :
        (draws : ℕ → Draw) (input : CreateApiKeyInput) (n : ℕ) (db db' : Db) (m : ApiKeyMaterial)
        → create_loop s c draws input n db ≡ ok (m, db')
        → (k : ℕ) × (row : NewApiKeyRow) × Drawn input.sa_user_id input.scopes
            (draws k)
            row
            m.plaintext
          × (insert_key c.fails c.now row db ≡ ok (m.key, db'))
    unfolding create_loop
    create_loop-ok draws input zero db db' m e = absurd (ground arith)
    create_loop-ok draws input (suc n) db db' m e =
        elim (Result-cases
          (draw_key s c input.sa_user_id input.name input.scopes input.actor_user_id (draws n))) [
            | inr (_, failed) ↦ absurd (ground arith)
            | inl ((row, plaintext), drawn) ↦
                elim (Result-cases (insert_key c.fails c.now row db)) [
                  | inl ((key, db''), inserted) ↦ (
                    n,
                    row,
                    draw_key-Drawn input.sa_user_id input.name input.scopes input.actor_user_id
                        (draws n) row m.plaintext (ground arith),
                    ground arith,
                  )
                  | inr (ApiKeyRepoError.duplicate_prefix, again) ↦
                      create_loop-ok draws input n db db' m (ground arith)
                  | inr (ApiKeyRepoError.other, failed) ↦ absurd (ground arith)
                ]
          ]

    pub rotate_loop-ok :
        (draws : ℕ → Draw) (input : RotateApiKeyInput) (name : String)
        (scopes : Option (List String)) (n : ℕ) (db db' : Db) (m : ApiKeyMaterial)
        → rotate_loop s c draws input name scopes n db ≡ ok (m, db')
        → (k : ℕ) × (row : NewApiKeyRow) × Drawn input.sa_user_id scopes (draws k) row m.plaintext
          × (rotate c.fails c.now input.old_key_id row db ≡ ok (m.key, db'))
    unfolding rotate_loop
    rotate_loop-ok draws input name scopes zero db db' m e = absurd (ground arith)
    rotate_loop-ok draws input name scopes (suc n) db db' m e =
        elim (Result-cases
          (draw_key s c input.sa_user_id name scopes input.actor_user_id (draws n))) [
            | inr (_, failed) ↦ absurd (ground arith)
            | inl ((row, plaintext), drawn) ↦
                elim (Result-cases (rotate c.fails c.now input.old_key_id row db)) [
                  | inl ((key, db''), inserted) ↦ (
                    n,
                    row,
                    draw_key-Drawn input.sa_user_id name scopes input.actor_user_id (draws n) row
                        m.plaintext (ground arith),
                    ground arith,
                  )
                  | inr (ApiKeyRepoError.duplicate_prefix, again) ↦
                      rotate_loop-ok draws input name scopes n db db' m (ground arith)
                  | inr (ApiKeyRepoError.other, failed) ↦ absurd (ground arith)
                ]
          ]

    abbrev pub account_in : ℕ → ℕ → Db → Option ServiceAccount
    account_in org sa db = find (is_account org sa) db.service_accounts

    pub check_account-ok {ℓ} :
        {E : Type ℓ} (error missing : E) (org sa : ℕ) (db : Db)
        → check_account s c error missing org sa db ≡ ok tt
        → (a : ServiceAccount) × (account_in org sa db ≡ some a)
    unfolding check_account find_account
    check_account-ok error missing org sa db e =
        elim (Bool-cases (c.fails Query.find_account_query)) [
          | inl failed ↦ absurd (ground arith)
          | inr works ↦ elim (Option-cases (account_in org sa db)) [
            | inl none_there ↦ absurd (ground arith)
            | inr (a, found) ↦ (a, found)
          ]
        ]

    -- A creation that succeeds.
    pub record Created (draws : ℕ → Draw) (input : CreateApiKeyInput) (w : World)
        (m : ApiKeyMaterial) : Type 0 where
      pub account : ServiceAccount
      pub found : account_in input.organisation_id input.sa_user_id w.db ≡ some account
      pub attempt : ℕ
      pub row : NewApiKeyRow
      pub drawn : Drawn input.sa_user_id input.scopes (draws attempt) row m.plaintext
      pub inserted :
          insert_key c.fails c.now row w.db ≡ ok (m.key, (create_api_key s c draws input w).1.db)

    pub create_db-ok :
        (draws : ℕ → Draw) (input : CreateApiKeyInput) (db db' : Db) (m : ApiKeyMaterial)
        → create_key_db s c draws input db ≡ ok (m, db')
        → ((a : ServiceAccount) × (account_in input.organisation_id input.sa_user_id db ≡ some a))
          × (create_loop s c draws input 2 db ≡ ok (m, db'))
    unfolding create_key_db
    create_db-ok draws input db db' m e = elim (Bool-cases (has_no_scope input.scopes)) [
      | inl empty ↦ absurd (ground arith)
      | inr scoped ↦
          elim (Result-cases (
            check_account s c CreateApiKeyError.other CreateApiKeyError.not_found
              input.organisation_id input.sa_user_id db)) [
                | inr (_, failed) ↦ absurd (ground arith)
                | inl (tt, there) ↦ (
                  check_account-ok CreateApiKeyError.other CreateApiKeyError.not_found
                      input.organisation_id input.sa_user_id db there,
                  ground arith,
                )
              ]
    ]

    pub create_api_key-ok :
        (draws : ℕ → Draw) (input : CreateApiKeyInput) (w : World) (m : ApiKeyMaterial)
        → (create_api_key s c draws input w).0 ≡ ok m
        → Created draws input w m
    unfolding create_api_key
    create_api_key-ok draws input w m e = elim (Result-cases (create_key_db s c draws input w.db)) [
      | inr (_, failed) ↦ absurd (ground arith)
      | inl ((m', db'), made) ↦
          let made_m : create_key_db s c draws input w.db ≡ ok (m, db') = ground arith in
          let ((a, found), looped) = create_db-ok draws input w.db db' m made_m in
          let (k, row, drawn, inserted) = create_loop-ok draws input 2 w.db db' m looped in
          let after : (create_api_key s c draws input w).1.db ≡ db' = ground arith in
          record {
            account = a;
            found = found;
            attempt = k;
            row = row;
            drawn = drawn;
            inserted = inserted ∙ ap (λ d. ok (m.key, d)) (sym after);
          }
    ]

    -- A rotation that succeeds has found the old key, whose scopes are kept unless others are given.
    pub rotate_db-ok :
        (draws : ℕ → Draw) (input : RotateApiKeyInput) (db db' : Db) (m : ApiKeyMaterial)
        → rotate_key_db s c draws input db ≡ ok (m, db')
        → (old : ApiKey) × (scopes : Option (List String)) × (find_key c.fails input.sa_user_id
              input.old_key_id db
            ≡ ok (some old))
          × (scopes_or input.scopes old ≡ ok scopes)
          × (rotate_loop s c draws input (name_or input.name old) scopes 2 db ≡ ok (m, db'))
    unfolding rotate_key_db
    rotate_db-ok draws input db db' m e =
        elim (Result-cases (
          check_account s c RotateApiKeyError.other RotateApiKeyError.not_found
            input.organisation_id input.sa_user_id db)) [
              | inr (_, failed) ↦ absurd (ground arith)
              | inl (_, there) ↦
                  elim (Result-cases (find_key c.fails input.sa_user_id input.old_key_id db)) [
                    | inr (_, failed) ↦ absurd (ground arith)
                    | inl (found, searched) ↦ elim (Option-cases found) [
                      | inl missing ↦ absurd (ground arith)
                      | inr (old, has) ↦ elim (Result-cases (scopes_or input.scopes old)) [
                        | inr (_, failed) ↦ absurd (ground arith)
                        | inl (scopes, chosen) ↦
                            (old, scopes, searched ∙ ap ok has, chosen, ground arith)
                      ]
                    ]
                  ]
            ]
