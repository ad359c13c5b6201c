-- ===== src/Security/ApiKeys/Revoked.antt =====
-- A key that has been revoked stays so, and is never verified.
use egras.Prelude.{
  ℕ, Bool, true, false, ◌&&◌, some, List, [], ◌∷◌, map, find, ok, ◌==◌, ℕ_eq, bytes_eq, ◌≡◌, ◌≢◌,
  refl, inl, inr, sym, ap, ◌∙◌, subst, Bool-cases, Option-cases, Result-cases, All, All-append,
  arith,
}
use egras.Auth.Middleware.{VerifiedKey}
use egras.Security.Model.{StoredKey, ServiceAccount, ApiKey, Db, Query}
use egras.Security.PasswordHash.{Argon2, verify_password}
use egras.Security.ApiKeys.{
  NewApiKeyRow, is_active, stored, revoke_if, insert_key, find_active_by_prefix, check_secret,
  verify,
}
use egras.Security.ApiKeys.Inserted.{insert_key-ok}

-- Every row with the id is revoked.
abbrev pub IsRevoked : ℕ → List StoredKey → Type 0
IsRevoked id rows = All (λ (k : StoredKey). k.key.id ≡ id → is_active k ≡ false) rows

module _ (id : ℕ) where
  pub revoke_if-IsRevoked :
      (p : StoredKey → Bool) (now : ℕ) (rows : List StoredKey)
      → IsRevoked id rows
      → IsRevoked id (map (revoke_if p now) rows)
  revoke_if-IsRevoked p now [] h = tt
  revoke_if-IsRevoked p now (k ∷ rows) (r, h) = (
    λ e. elim (Bool-cases (p k && is_active k)) [
      | inl now_revoked ↦ rw now_revoked refl
      | inr left ↦ rw left (r (ground arith))
    ],
    revoke_if-IsRevoked p now rows h,
  )

  -- A test that takes every row with the id revokes the id.
  pub revoke_all :
      (p : StoredKey → Bool) (now : ℕ) (rows : List StoredKey)
      → All (λ (k : StoredKey). k.key.id ≡ id → p k ≡ true) rows
      → IsRevoked id (map (revoke_if p now) rows)
  revoke_all p now [] h = tt
  revoke_all p now (k ∷ rows) (r, h) = (
    λ e. elim (Bool-cases (p k && is_active k)) [
      | inl now_revoked ↦ rw now_revoked refl
      | inr left ↦ rw left (let q = r (ground arith) in ground arith)
    ],
    revoke_all p now rows h,
  )

  pub insert_key-IsRevoked :
      (fails : Query → Bool) (now : ℕ) (new : NewApiKeyRow) (db db' : Db) (key : ApiKey)
      → new.id ≢ id
      → insert_key fails now new db ≡ ok (key, db')
      → IsRevoked id db.api_keys
      → IsRevoked id db'.api_keys
  insert_key-IsRevoked fails now new db db' key other e h =
      let (_, _, written) = insert_key-ok fails now new db key db' e in
      subst (λ (d : Db). IsRevoked id d.api_keys) (sym written)
        (All-append (λ (k : StoredKey). k.key.id ≡ id → is_active k ≡ false) db.api_keys
          (stored now new ∷ []) h (λ same. absurd (other same), tt))

  found_active :
      (prefix : List ℕ) (rows : List StoredKey) (k : StoredKey)
      → IsRevoked id rows
      → find (λ (k : StoredKey). k.key.prefix == prefix && is_active k) rows ≡ some k
      → k.key.id ≢ id
  found_active prefix [] k h e = absurd (ground arith)
  found_active prefix (r ∷ rows) k (q, h) e =
      elim (Bool-cases (r.key.prefix == prefix && is_active r)) [
        | inr other ↦ found_active prefix rows k h (ground arith)
        | inl here ↦ λ same.
            let is_k : r ≡ k = ground arith in
            let off = q (ap (λ (k : StoredKey). k.key.id) is_k ∙ same) in ground arith
      ]

  -- No prefix and no secret is verified as the key.
  pub verify-IsRevoked :
      (fails : Query → Bool) (a : Argon2) (prefix secret : List ℕ) (db : Db) (v : VerifiedKey)
      → IsRevoked id db.api_keys
      → verify fails a prefix secret db ≡ ok (some v)
      → v.key_id ≢ id
  unfolding verify find_active_by_prefix check_secret
  verify-IsRevoked fails a prefix secret db v h e =
      elim (Bool-cases (fails Query.find_active_query)) [
        | inl failed ↦ absurd (ground arith)
        | inr works ↦
            elim (Option-cases
              (find (λ (k : StoredKey). k.key.prefix == prefix && is_active k) db.api_keys)) [
                | inl missing ↦ absurd (ground arith)
                | inr (k, found) ↦
                    elim (Option-cases (
                      find (λ (b : ServiceAccount). b.user_id == k.key.service_account_user_id)
                        db.service_accounts)) [
                          | inl no_account ↦ absurd (ground arith)
                          | inr (b, has) ↦
                              elim (Result-cases (verify_password a secret k.secret_hash)) [
                                | inr (_, bad) ↦ absurd (ground arith)
                                | inl (right, checked) ↦
                                    let other = found_active prefix db.api_keys k h found in
                                    λ same. other (ground arith)
                              ]
                        ]
              ]
      ]
