-- ===== src/Security/Accounts/Abroad.antt =====
-- The deletion of a service account leaves the keys of other organisations as they are.
use egras.Prelude.{
  ℕ, true, List, [], ◌∷◌, filter, any, ◌==◌, ℕ_eq, ◌≡◌, refl, inl, inr, ap, ◌∙◌, Bool-cases, arith,
}
use egras.Security.Model.{ServiceAccount, StoredKey}
use egras.Security.ServiceAccounts.{is_account, delete}
use egras.Security.ApiKeys.Abroad.{is_foreign, of_home, SameAbroad}
use egras.Security.State.{AppState, Call, World}
use egras.Security.Accounts.{DeleteServiceAccountInput, delete_service_account}
use egras.Security.Accounts.Cascades.{without_keys, delete_service_account-api_keys}

module _ (org sa : ℕ) (accounts : List ServiceAccount)
    (home : any (is_account org sa) accounts ≡ true) where
  filter-without_keys :
      (rows : List StoredKey)
      → filter (is_foreign org accounts) (without_keys sa rows)
        ≡ filter (is_foreign org accounts) rows
  filter-without_keys [] = refl
  filter-without_keys (k ∷ rows) = elim (Bool-cases (k.key.service_account_user_id == sa)) [
    | inl same ↦
        let gone = of_home org sa accounts home k (ground arith) in
        rw same (rw gone (filter-without_keys rows))
    | inr other ↦ rw other (ground (arith, filter-without_keys rows))
  ]

module _ (s : AppState) (c : Call) where
  pub deleting_abroad :
      (input : DeleteServiceAccountInput) (w : World)
      → SameAbroad input.organisation_id w.db (delete_service_account s c input w).1.db
  unfolding delete_service_account delete
  deleting_abroad input w =
      elim (Bool-cases
        (any (is_account input.organisation_id input.sa_user_id) w.db.service_accounts)) [
          | inr missing ↦ ground arith
          | inl home ↦ elim (delete_service_account-api_keys s c input w) [
            | inl same ↦ ap (filter (is_foreign input.organisation_id w.db.service_accounts)) same
            | inr fewer ↦
                ap (filter (is_foreign input.organisation_id w.db.service_accounts)) fewer
                ∙ filter-without_keys input.organisation_id input.sa_user_id w.db.service_accounts
                    home w.db.api_keys
          ]
        ]
