-- ===== src/Security/Accounts/Cascades.antt =====
-- What the creation and the deletion of a service account do to the keys.
use egras.Prelude.{
  ℕ, Bool, not, List, any, filter, ok, ◌==◌, ℕ_eq, ◌≡◌, ◌⊎◌, refl, inl, inr, Bool-cases,
  Result-cases, arith,
}
use egras.Security.Model.{StoredKey, Db, Query}
use egras.Security.ServiceAccounts.{create, delete, delete_user, is_account, is_account_user}
use egras.Security.State.{AppState, Call, World}
use egras.Security.Accounts.{
  CreateServiceAccountInput, DeleteServiceAccountInput, create_service_account,
  delete_service_account,
}

-- The keys that are not the account's.
abbrev pub without_keys : ℕ → List StoredKey → List StoredKey
without_keys sa keys = filter (λ (k : StoredKey). not (k.key.service_account_user_id == sa)) keys

module _ (s : AppState) (c : Call) where
  pub create_service_account-api_keys :
      (input : CreateServiceAccountInput) (w : World)
      → (create_service_account s c input w).1.db.api_keys ≡ w.db.api_keys
  unfolding create_service_account create
  create_service_account-api_keys input w = ground arith

  delete-api_keys :
      (org sa : ℕ) (db : Db) (b : Bool) (db' : Db)
      → delete c.fails org sa db ≡ ok (b, db')
      → (db'.api_keys ≡ db.api_keys) ⊎ (db'.api_keys ≡ without_keys sa db.api_keys)
  unfolding delete delete_user
  delete-api_keys org sa db b db' e = elim (Bool-cases (c.fails Query.find_account_query)) [
    | inl failed ↦ absurd (ground arith)
    | inr works ↦ elim (Bool-cases (any (is_account org sa) db.service_accounts)) [
      | inr missing ↦ inl (ground arith)
      | inl there ↦ elim (Bool-cases (any (is_account_user sa) db.users)) [
        | inr no_user ↦ inl (ground arith)
        | inl user ↦ inr (ground arith)
      ]
    ]
  ]

  pub delete_service_account-api_keys :
      (input : DeleteServiceAccountInput) (w : World)
      → ((delete_service_account s c input w).1.db.api_keys ≡ w.db.api_keys)
        ⊎ ((delete_service_account s c input w).1.db.api_keys
            ≡ without_keys input.sa_user_id w.db.api_keys)
  unfolding delete_service_account
  delete_service_account-api_keys input w =
      elim (Result-cases (delete c.fails input.organisation_id input.sa_user_id w.db)) [
        | inr (_, failed) ↦ inl (rw (failed, delete_service_account) refl)
        | inl ((removed, db'), made) ↦ elim (Bool-cases removed) [
          | inr kept ↦ inl (rw (made, delete_service_account, kept) refl)
          | inl gone ↦
              elim (delete-api_keys input.organisation_id input.sa_user_id w.db removed db' made) [
                | inl same ↦ inl (rw (made, delete_service_account, gone) same)
                | inr fewer ↦ inr (rw (made, delete_service_account, gone) fewer)
              ]
        ]
      ]
