-- ===== src/Security/ApiKeys/Abroad.antt =====
-- The keys of the service accounts of other organisations.
use egras.Prelude.{
  ℕ, Bool, true, false, ◌&&◌, not, none, some, List, [], ◌∷◌, ◌++◌, map, filter, find, any, ◌==◌,
  ℕ_eq, ◌≡◌, ◌≢◌, refl, inl, inr, ap, Bool-cases, All, All-mono, Keyed, Lacking, arith,
}
use egras.Security.Model.{ServiceAccount, StoredKey, Db}
use egras.Security.ServiceAccounts.{is_account}
use egras.Security.ApiKeys.{is_active, is_of, revoke_if}

abbrev pub key_id : StoredKey → ℕ
key_id k = k.key.id

-- The key belongs to no service account of the organisation.
abbrev pub is_foreign : ℕ → List ServiceAccount → StoredKey → Bool
is_foreign org accounts k = not (any (is_account org k.key.service_account_user_id) accounts)

pub any-find :
    (org sa : ℕ) (accounts : List ServiceAccount) (a : ServiceAccount)
    → find (is_account org sa) accounts ≡ some a
    → any (is_account org sa) accounts ≡ true
any-find org sa [] a e = absurd (ground arith)
any-find org sa (b ∷ accounts) a e = ground (arith, any-find org sa accounts a)

-- No row has the id if the account's key is not among them and ids are lacking.
find-Lacking :
    (sa id : ℕ) (rows : List StoredKey) → Lacking key_id id rows → find (is_of sa id) rows ≡ none
find-Lacking sa id [] h = refl
find-Lacking sa id (k ∷ rows) (n, h) = ground (arith, find-Lacking sa id rows h)

pub only_found :
    (sa id : ℕ) (rows : List StoredKey) (found : StoredKey)
    → Keyed key_id rows
    → find (is_of sa id) rows ≡ some found
    → All (λ (k : StoredKey). k.key.id ≡ id → is_of sa id k ≡ true) rows
only_found sa id [] found h e = tt
only_found sa id (k ∷ rows) found (n, h) e = elim (Bool-cases (k.key.id == id)) [
  | inl same ↦
      let is_id : k.key.id ≡ id = ground arith in
      let lacking : Lacking key_id id rows = rw (← is_id) n in
      (
        λ _. let others = find-Lacking sa id rows lacking in ground arith,
        All-mono (λ (r : StoredKey). r.key.id ≢ id) (λ r. r.key.id ≡ id → is_of sa id r ≡ true) rows
            (λ r m q. absurd (m q)) lacking,
      )
  | inr other ↦ (λ q. absurd (ground arith), only_found sa id rows found h (ground arith))
]

module _ (org sa : ℕ) (accounts : List ServiceAccount)
    (home : any (is_account org sa) accounts ≡ true) where
  pub of_home :
      (k : StoredKey) → k.key.service_account_user_id ≡ sa → is_foreign org accounts k ≡ false
  of_home k e = rw e (ap not home)

  pub filter-append_home :
      (k : StoredKey) (rows : List StoredKey)
      → k.key.service_account_user_id ≡ sa
      → filter (is_foreign org accounts) (rows ++ k ∷ []) ≡ filter (is_foreign org accounts) rows
  filter-append_home k [] e = rw (of_home k e) refl
  filter-append_home k (r ∷ rows) e = ground (arith, filter-append_home k rows e)

  pub filter-revoke_home :
      (q : StoredKey → Bool) (now : ℕ) (rows : List StoredKey)
      → All (λ (k : StoredKey). q k ≡ true → k.key.service_account_user_id ≡ sa) rows
      → filter (is_foreign org accounts) (map (revoke_if q now) rows)
        ≡ filter (is_foreign org accounts) rows
  filter-revoke_home q now [] h = refl
  filter-revoke_home q now (k ∷ rows) (m, h) = elim (Bool-cases (q k && is_active k)) [
    | inr left ↦ rw left (ground (arith, filter-revoke_home q now rows h))
    | inl revoked ↦
        let gone = of_home k (m (ground arith)) in
        rw revoked (rw gone (filter-revoke_home q now rows h))
  ]

-- The keys of other organisations, as the accounts stand before a call.
abbrev pub SameAbroad : ℕ → Db → Db → Type 0
SameAbroad org db db' =
    filter (is_foreign org db.service_accounts) db'.api_keys
    ≡ filter (is_foreign org db.service_accounts) db.api_keys
