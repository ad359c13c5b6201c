-- ===== src/Security/Keys/Minted.antt =====
-- What a key that has been made looks like in the table, and to the verifier.
use egras.Prelude.{
  ℕ, true, false, none, some, List, [], ◌∷◌, find, length, all, bytes, Keyed, Lacking, ◌≢◌, ok,
  ℕ_eq, ◌≡◌, refl, inl, inr, sym, ap, ◌∙◌, Bool-cases, arith,
}
use egras.Auth.Middleware.{VerifiedKey}
use egras.Security.ApiKeySecret.{generate, ParsedKey, parse, is_ascii_hexdigit}
use egras.Security.ApiKeySecret.RoundTrip.{parse-generate}
use egras.Security.PasswordHash.{IsArgon2, verify-hash}
use egras.Security.Model.{ApiKeyMaterial, ServiceAccount, Query}
use egras.Security.ServiceAccounts.{account_id, is_account}
use egras.Security.ApiKeys.{verify}
use egras.Security.ApiKeys.Inserted.{account_of, verify-insert_key, insert_key-ok}
use egras.Security.State.{AppState, Call, World}
use egras.Security.Keys.{Draw, CreateApiKeyInput, create_api_key}
use egras.Security.Keys.Drawing.{create_api_key-ok}

no_account :
    (sa : ℕ) (rows : List ServiceAccount)
    → Lacking account_id sa rows
    → find (account_of sa) rows ≡ none
no_account sa [] h = refl
no_account sa (a ∷ rows) (n, h) = ground (arith, no_account sa rows h)

-- With one row for each account, the join of a key finds the account that was looked up.
pub joined_account :
    (org sa : ℕ) (rows : List ServiceAccount) (a : ServiceAccount)
    → Keyed account_id rows
    → find (is_account org sa) rows ≡ some a
    → (find (account_of sa) rows ≡ some a) × (a.organisation_id ≡ org)
joined_account org sa [] a k e = absurd (ground arith)
joined_account org sa (b ∷ rows) a (n, k) e = elim (Bool-cases (is_account org sa b)) [
  | inl here ↦ (ground arith, ground arith)
  | inr other ↦
      let (found, home) = joined_account org sa rows a k (ground arith) in
      let b_other : account_of sa b ≡ false = elim (Bool-cases (account_of sa b)) [
        | inr differs ↦ differs
        | inl matches ↦
            let same : b.user_id ≡ sa = ground arith in
            let gone = no_account sa rows (rw (← same) n) in ground arith
      ] in
      (rw b_other found, home)
]

module _ (s : AppState) where
  -- The encodings of the bytes that are drawn have the form that the crates document: eight
  -- hexadecimal digits, and a text that is not empty.
  pub record WellDrawn (d : Draw) : Type 0 where
    pub eight : length (s.hex_encode d.prefix_bytes) ≡ 8
    pub digits : all is_ascii_hexdigit (s.hex_encode d.prefix_bytes) ≡ true
    pub nonempty : s.base64_encode d.secret_bytes ≢ []

  -- The plaintext that the creation of a key answers has the form of a key, and the verifier accepts
  -- its prefix and its secret: as the new key, of the service account that was asked for, in the
  -- organisation that was asked for, with the scopes that were asked for. One row for each service
  -- account, and the query of the verifier does not fail.
  pub created_key_verifies :
      (c d : Call) (draws : ℕ → Draw) (input : CreateApiKeyInput) (w : World) (m : ApiKeyMaterial)
      → IsArgon2 s.argon2
      → ((n : ℕ) → WellDrawn (draws n))
      → Keyed account_id w.db.service_accounts
      → (create_api_key s c draws input w).0 ≡ ok m
      → d.fails Query.find_active_query ≡ false
      → (p : ParsedKey) × (parse m.plaintext ≡ some p)
        × (verify d.fails s.argon2 p.prefix p.secret (create_api_key s c draws input w).1.db
            ≡ ok (
                some (record {
                  key_id = m.key.id;
                  sa_user_id = input.sa_user_id;
                  organisation_id = input.organisation_id;
                  scopes = input.scopes;
                })))
  created_key_verifies c d draws input w m law drawn_well keyed e works =
      let k = create_api_key-ok s c draws input w m e in
      let draw = draws k.attempt in
      let good = drawn_well k.attempt in
      let g = generate s.hex_encode s.base64_encode draw.prefix_bytes draw.secret_bytes in
      let (has, home) =
        joined_account input.organisation_id input.sa_user_id w.db.service_accounts k.account keyed
          k.found in
      let db' = (create_api_key s c draws input w).1.db in
      let (_, key_is, _) = insert_key-ok c.fails c.now k.row w.db m.key db' k.inserted in
      let same_account = k.drawn.account in
      let accepted =
        verify-insert_key c.fails c.now k.row d.fails s.argon2 g.secret w.db db' m.key k.account
          k.inserted (rw same_account has) works
          (verify-hash s.argon2 draw.salt g.secret k.row.secret_hash law k.drawn.hashed) in
      (
        record { env = bytes "live"; prefix = g.prefix; secret = g.secret },
        ap parse k.drawn.plain
            ∙ parse-generate s.hex_encode s.base64_encode draw.prefix_bytes draw.secret_bytes
                good.eight good.digits good.nonempty,
        ap (λ p. verify d.fails s.argon2 p g.secret db') (sym k.drawn.prefix)
            ∙ accepted
            ∙ ap (λ (v : VerifiedKey). ok (some v))
                (let i = k.drawn.scopes_of in let j = k.drawn.account in ground arith),
      )
