-- ===== src/Security/Keys/Forever.antt =====
-- A key that is revoked, or rotated away, is never accepted again, over every sequence of later
-- calls.
use egras.Prelude.{
  ℕ, true, false, ◌&&◌, not, some, List, [], ◌∷◌, map, any, ok, ◌==◌, ℕ_eq, if◌then◌else◌, ◌≡◌, ◌≢◌,
  inl, inr, sym, subst, Bool-cases, Result-cases, All, All-filter, All-trivial, Keyed, beq_refl,
  arith,
}
use egras.Auth.Middleware.{VerifiedKey}
use egras.Security.Model.{StoredKey, Db, Query}
use egras.Security.ApiKeys.{
  is_active, is_of, with_key, use_at, revoke_if, revoke, touch_last_used, verify,
}
use egras.Security.ApiKeys.Revoked.{IsRevoked, revoke_if-IsRevoked, revoke_all, verify-IsRevoked}
use egras.Security.State.{AppState, Call, World}
use egras.Security.Accounts.{DeleteServiceAccountInput, delete_service_account}
use egras.Security.Accounts.Cascades.{
  without_keys, create_service_account-api_keys, delete_service_account-api_keys,
}
use egras.Security.Keys.{
  RevokeApiKeyInput, RevokeApiKeyError, rotate_key_db, rotate_api_key, revoke_key_db,
  revoke_api_key, check_account,
}
use egras.Security.Keys.Retiring.{
  key_id, only_of, KeyRequest, creating, rotating, revoking, creating_account, deleting_account,
  touching, after_touch, Avoids, serve_key, serve_keys, Retires, StaysRevoked, creating-Revoked,
  rotated, rotating-Revoked,
}

module _ (s : AppState) (id : ℕ) where
  -- What a revocation that succeeds has written.
  pub revoke_db-ok :
      (c : Call) (input : RevokeApiKeyInput) (db db' : Db)
      → revoke_key_db s c input db ≡ ok db'
      → (any (λ k. is_of input.sa_user_id input.key_id k && is_active k) db.api_keys ≡ true)
        × (db' ≡ record db {
          api_keys = map (revoke_if (is_of input.sa_user_id input.key_id) c.now) db.api_keys;
        })
  unfolding revoke_key_db revoke
  revoke_db-ok c input db db' e =
      elim (Result-cases (
        check_account s c RevokeApiKeyError.other RevokeApiKeyError.not_found input.organisation_id
          input.sa_user_id db)) [
            | inr (_, failed) ↦ absurd (ground arith)
            | inl (_, there) ↦ elim (Bool-cases (c.fails Query.revoke_key_query)) [
              | inl failed ↦ absurd (ground arith)
              | inr works ↦
                  elim (Bool-cases
                    (any (λ k. is_of input.sa_user_id input.key_id k && is_active k) db.api_keys)) [
                      | inr missing ↦ absurd (ground arith)
                      | inl active ↦ (active, ground arith)
                    ]
            ]
          ]

  revoking-Revoked :
      (c : Call) (input : RevokeApiKeyInput) (w : World)
      → StaysRevoked s id w (revoke_api_key s c input w).1
  unfolding revoke_api_key
  revoking-Revoked c input w h = elim (Result-cases (revoke_key_db s c input w.db)) [
    | inr (_, failed) ↦ rw (failed, revoke_api_key) h
    | inl (db', made) ↦
        let (_, written) = revoke_db-ok c input w.db db' made in
        rw (made, revoke_api_key)
          (subst (λ (d : Db). IsRevoked id d.api_keys) (sym written)
            (revoke_if-IsRevoked id (is_of input.sa_user_id input.key_id) c.now w.db.api_keys h))
  ]

  without_keys-Revoked :
      (sa : ℕ) (rows : List StoredKey) → IsRevoked id rows → IsRevoked id (without_keys sa rows)
  without_keys-Revoked sa rows h =
      All-filter (λ (k : StoredKey). k.key.id ≡ id → is_active k ≡ false)
        (λ k. k.key.id ≡ id → is_active k ≡ false) (λ k. not (k.key.service_account_user_id == sa))
        rows (λ k r _. r) h

  deleting-Revoked :
      (c : Call) (input : DeleteServiceAccountInput) (w : World)
      → StaysRevoked s id w (delete_service_account s c input w).1
  deleting-Revoked c input w h = elim (delete_service_account-api_keys s c input w) [
    | inl same ↦ subst (IsRevoked id) (sym same) h
    | inr fewer ↦
        subst (IsRevoked id) (sym fewer) (without_keys-Revoked input.sa_user_id w.db.api_keys h)
  ]

  touched-Revoked :
      (now key : ℕ) (rows : List StoredKey)
      → IsRevoked id rows
      → IsRevoked id
          (map (λ (k : StoredKey). if k.key.id == key then with_key (use_at now) k else k) rows)
  touched-Revoked now key [] h = tt
  touched-Revoked now key (k ∷ rows) (r, h) = (
    λ e. elim (Bool-cases (k.key.id == key)) [
      | inl here ↦ rw here (r (ground arith))
      | inr there ↦ rw there (r (ground arith))
    ],
    touched-Revoked now key rows h,
  )

  touching-Revoked :
      (c : Call) (key : ℕ) (w : World)
      → StaysRevoked s id w (after_touch w (touch_last_used c.fails c.now key w.db))
  unfolding touch_last_used
  touching-Revoked c key w h = elim (Bool-cases (c.fails Query.touch_key_query)) [
    | inl failed ↦ rw (failed, touch_last_used) h
    | inr works ↦ rw (works, touch_last_used) (touched-Revoked c.now key w.db.api_keys h)
  ]

  serve_key-Revoked :
      (r : Call × KeyRequest) (w : World) → Avoids id r.1 → StaysRevoked s id w (serve_key s r w)
  unfolding serve_key
  serve_key-Revoked (c, creating draws input) w a = creating-Revoked s id c draws input w a
  serve_key-Revoked (c, rotating draws input) w a = rotating-Revoked s id c draws input w a
  serve_key-Revoked (c, revoking input) w a = revoking-Revoked c input w
  serve_key-Revoked (c, creating_account input) w a =
      λ h. subst (IsRevoked id) (sym (create_service_account-api_keys s c input w)) h
  serve_key-Revoked (c, deleting_account input) w a = deleting-Revoked c input w
  serve_key-Revoked (c, touching key) w a = touching-Revoked c key w

  serve_keys-Revoked :
      (requests : List (Call × KeyRequest)) (w : World)
      → All (λ (r : Call × KeyRequest). Avoids id r.1) requests
      → StaysRevoked s id w (serve_keys s requests w)
  unfolding serve_keys
  serve_keys-Revoked [] w a h = h
  serve_keys-Revoked (r ∷ requests) w (a, rest) h =
      serve_keys-Revoked requests (serve_key s r w) rest (serve_key-Revoked r w a h)

  -- The request itself leaves the key revoked.
  retired :
      (r : Call × KeyRequest) (w : World)
      → Keyed key_id w.db.api_keys
      → Avoids id r.1
      → Retires s id r w
      → IsRevoked id (serve_key s r w).db.api_keys
  unfolding serve_key revoke_api_key rotate_api_key
  retired (c, revoking input) w keyed a (is_id, e) =
      elim (Result-cases (revoke_key_db s c input w.db)) [
        | inr (_, failed) ↦ absurd (ground arith)
        | inl (db', made) ↦
            let (active, written) = revoke_db-ok c input w.db db' made in
            let only = only_of input.sa_user_id input.key_id w.db.api_keys keyed active in
            rw (made, serve_key, revoke_api_key)
              (subst (λ (d : Db). IsRevoked id d.api_keys) (sym written)
                (revoke_all id (is_of input.sa_user_id input.key_id) c.now w.db.api_keys
                  (rw (← is_id) only)))
      ]
  retired (c, rotating draws input) w keyed a (is_id, m, e) =
      elim (Result-cases (rotate_key_db s c draws input w.db)) [
        | inr (_, failed) ↦ absurd (ground arith)
        | inl ((m', db'), made) ↦
            rw (made, serve_key, rotate_api_key)
              (rotated s id c draws input w m' db' a made (
                revoke_all id (λ k. k.key.id == input.old_key_id) c.now w.db.api_keys
                  (All-trivial _ w.db.api_keys (λ k q. rw (q, is_id) (beq_refl id)))))
      ]
  retired (c, creating draws input) w keyed a h = absurd h
  retired (c, creating_account input) w keyed a h = absurd h
  retired (c, deleting_account input) w keyed a h = absurd h
  retired (c, touching key) w keyed a h = absurd h

  -- A key that a request has revoked, or rotated away, is accepted by no prefix and no secret after
  -- any further requests on keys and accounts, by whomever and with whatever faults, at any later
  -- instant; with a table of distinct ids, and if no key is made with its id again.
  pub retired_forever :
      (r : Call × KeyRequest) (w : World) (requests : List (Call × KeyRequest)) (d : Call)
      (prefix secret : List ℕ) (v : VerifiedKey)
      → Keyed key_id w.db.api_keys
      → Avoids id r.1
      → Retires s id r w
      → All (λ (q : Call × KeyRequest). Avoids id q.1) requests
      → verify d.fails s.argon2 prefix secret (serve_keys s requests (serve_key s r w)).db
        ≡ ok (some v)
      → v.key_id ≢ id
  retired_forever r w requests d prefix secret v keyed a h later e =
      verify-IsRevoked id d.fails s.argon2 prefix secret
        (serve_keys s requests (serve_key s r w)).db v
        (serve_keys-Revoked requests (serve_key s r w) later (retired r w keyed a h)) e
