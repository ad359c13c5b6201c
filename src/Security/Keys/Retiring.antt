-- ===== src/Security/Keys/Retiring.antt =====
-- The requests on service accounts and keys, and that the creation and the rotation of keys leave a
-- revoked key revoked.
use egras.Prelude.{
  ℕ, true, false, ◌&&◌, List, [], ◌∷◌, map, any, Result, ok, err, ◌==◌, ℕ_eq, ◌≡◌, ◌≢◌, refl, inl,
  inr, sym, ◌∙◌, Bool-cases, Result-cases, All, All-mono, Keyed, Lacking, arith,
}
use egras.Security.Model.{ApiKey, ApiKeyMaterial, StoredKey, Db, Query}
use egras.Security.ApiKeys.{NewApiKeyRow, is_active, is_of, revoke_if, rotate, touch_last_used}
use egras.Security.ApiKeys.Revoked.{IsRevoked, revoke_if-IsRevoked, insert_key-IsRevoked}
use egras.Security.State.{AppState, Call, World}
use egras.Security.Accounts.{
  CreateServiceAccountInput, DeleteServiceAccountInput, create_service_account,
  delete_service_account,
}
use egras.Security.Keys.{
  Draw, CreateApiKeyInput, RotateApiKeyInput, RevokeApiKeyInput, create_key_db, create_api_key,
  rotate_key_db, rotate_api_key, revoke_api_key, name_or,
}
pub use egras.Security.ApiKeys.Abroad.{key_id}
use egras.Security.Keys.Drawing.{create_db-ok, create_loop-ok, rotate_db-ok, rotate_loop-ok}

no_key :
    (sa id : ℕ) (rows : List StoredKey)
    → Lacking key_id id rows
    → any (λ k. is_of sa id k && is_active k) rows ≡ false
no_key sa id [] h = refl
no_key sa id (k ∷ rows) (n, h) = ground (arith, no_key sa id rows h)

-- A key that is found as the account's is the only one with its id.
pub only_of :
    (sa id : ℕ) (rows : List StoredKey)
    → Keyed key_id rows
    → any (λ k. is_of sa id k && is_active k) rows ≡ true
    → All (λ (k : StoredKey). k.key.id ≡ id → is_of sa id k ≡ true) rows
only_of sa id [] h e = tt
only_of sa id (k ∷ rows) (n, h) e = elim (Bool-cases (k.key.id == id)) [
  | inl same ↦
      let is_id : k.key.id ≡ id = ground arith in
      let lacking : Lacking key_id id rows = rw (← is_id) n in
      (
        λ _. let others = no_key sa id rows lacking in ground arith,
        All-mono (λ (r : StoredKey). r.key.id ≢ id) (λ r. r.key.id ≡ id → is_of sa id r ≡ true) rows
            (λ r m q. absurd (m q)) lacking,
      )
  | inr other ↦ (λ q. absurd (ground arith), only_of sa id rows h (ground arith))
]

-- What a client may ask for; `touching` is the verifier's note of a use.
pub data KeyRequest : Type 0 where
  creating : (ℕ → Draw) → CreateApiKeyInput → KeyRequest
  rotating : (ℕ → Draw) → RotateApiKeyInput → KeyRequest
  revoking : RevokeApiKeyInput → KeyRequest
  creating_account : CreateServiceAccountInput → KeyRequest
  deleting_account : DeleteServiceAccountInput → KeyRequest
  touching : ℕ → KeyRequest

abbrev pub after_touch {ℓ} : {E : Type ℓ} → World → Result E Db → World
after_touch w (ok db) = record w { db = db }
after_touch w (err _) = w

-- The ids that the request draws are others.
abbrev pub Avoids : ℕ → KeyRequest → Type 0
Avoids id (creating draws _) = (n : ℕ) → (draws n).id ≢ id
Avoids id (rotating draws _) = (n : ℕ) → (draws n).id ≢ id
Avoids id (revoking _) = Unit
Avoids id (creating_account _) = Unit
Avoids id (deleting_account _) = Unit
Avoids id (touching _) = Unit

module _ (s : AppState) where
  unfoldable pub serve_key : Call × KeyRequest → World → World
  serve_key (c, creating draws input) w = (create_api_key s c draws input w).1
  serve_key (c, rotating draws input) w = (rotate_api_key s c draws input w).1
  serve_key (c, revoking input) w = (revoke_api_key s c input w).1
  serve_key (c, creating_account input) w = (create_service_account s c input w).1
  serve_key (c, deleting_account input) w = (delete_service_account s c input w).1
  serve_key (c, touching key) w = after_touch w (touch_last_used c.fails c.now key w.db)

  unfoldable pub serve_keys : List (Call × KeyRequest) → World → World
  serve_keys [] w = w
  serve_keys (r ∷ requests) w = serve_keys requests (serve_key r w)

  -- The request has revoked the key, or rotated it away.
  abbrev pub Retires : ℕ → Call × KeyRequest → World → Type 0
  Retires id (c, rotating draws input) w =
      (input.old_key_id ≡ id) × (m : ApiKeyMaterial) × ((rotate_api_key s c draws input w).0 ≡ ok m)
  Retires id (c, revoking input) w = (input.key_id ≡ id) × ((revoke_api_key s c input w).0 ≡ ok tt)
  Retires id (_, creating _ _) w = ⊥
  Retires id (_, creating_account _) w = ⊥
  Retires id (_, deleting_account _) w = ⊥
  Retires id (_, touching _) w = ⊥

  module _ (id : ℕ) where
    abbrev pub StaysRevoked : World → World → Type 0
    StaysRevoked w w' = IsRevoked id w.db.api_keys → IsRevoked id w'.db.api_keys

    pub creating-Revoked :
        (c : Call) (draws : ℕ → Draw) (input : CreateApiKeyInput) (w : World)
        → ((n : ℕ) → (draws n).id ≢ id)
        → StaysRevoked w (create_api_key s c draws input w).1
    unfolding create_api_key
    creating-Revoked c draws input w other h =
        elim (Result-cases (create_key_db s c draws input w.db)) [
          | inr (_, failed) ↦ rw (failed, create_api_key) h
          | inl ((m, db'), made) ↦
              let (_, looped) = create_db-ok s c draws input w.db db' m made in
              let (k, row, drawn, inserted) = create_loop-ok s c draws input 2 w.db db' m looped in
              let new_id : row.id ≢ id = λ e. other k (sym drawn.id ∙ e) in
              rw (made, create_api_key)
                (insert_key-IsRevoked id c.fails c.now row w.db db' m.key new_id inserted h)
        ]

    rotate-IsRevoked :
        (c : Call) (old : ℕ) (row : NewApiKeyRow) (db db' : Db) (key : ApiKey)
        → row.id ≢ id
        → rotate c.fails c.now old row db ≡ ok (key, db')
        → IsRevoked id (map (revoke_if (λ k. k.key.id == old) c.now) db.api_keys)
        → IsRevoked id db'.api_keys
    unfolding rotate
    rotate-IsRevoked c old row db db' key other e h =
        elim (Bool-cases (c.fails Query.rotate_key_query)) [
          | inl failed ↦ absurd (ground arith)
          | inr works ↦
              insert_key-IsRevoked id c.fails c.now row
                (record db { api_keys = map (revoke_if (λ k. k.key.id == old) c.now) db.api_keys })
                db' key other (ground arith) h
        ]

    pub rotated :
        (c : Call) (draws : ℕ → Draw) (input : RotateApiKeyInput) (w : World) (m : ApiKeyMaterial)
        (db' : Db)
        → ((n : ℕ) → (draws n).id ≢ id)
        → rotate_key_db s c draws input w.db ≡ ok (m, db')
        → IsRevoked id (map (revoke_if (λ k. k.key.id == input.old_key_id) c.now) w.db.api_keys)
        → IsRevoked id db'.api_keys
    rotated c draws input w m db' other e h =
        let (old, scopes, _, _, looped) = rotate_db-ok s c draws input w.db db' m e in
        let (k, row, drawn, done) =
          rotate_loop-ok s c draws input (name_or input.name old) scopes 2 w.db db' m looped in
        rotate-IsRevoked c input.old_key_id row w.db db' m.key (λ e. other k (sym drawn.id ∙ e))
          done h

    pub rotating-Revoked :
        (c : Call) (draws : ℕ → Draw) (input : RotateApiKeyInput) (w : World)
        → ((n : ℕ) → (draws n).id ≢ id)
        → StaysRevoked w (rotate_api_key s c draws input w).1
    unfolding rotate_api_key
    rotating-Revoked c draws input w other h =
        elim (Result-cases (rotate_key_db s c draws input w.db)) [
          | inr (_, failed) ↦ rw (failed, rotate_api_key) h
          | inl ((m, db'), made) ↦
              rw (made, rotate_api_key)
                (rotated c draws input w m db' other made (
                  revoke_if-IsRevoked id (λ k. k.key.id == input.old_key_id) c.now w.db.api_keys h))
        ]
