-- ===== src/Security/Passwords/Reset.antt =====
-- What a reset of the password writes, and that the user can then log in with the new one.
use egras.Prelude.{
  ℕ, String, false, ◌/◌, ◌&&◌, ◌||◌, Option, none, some, List, ◌∷◌, map, find, find-map, length, ok,
  ltb, ◌==◌, ℕ_eq, String_eq, bytes_eq, ◌≡◌, refl, inl, inr, sym, ap, ◌∙◌, Bool-cases, Option-cases,
  Result-cases, arith,
}
use egras.Auth.Jwt.{encode_access_token}
use egras.Security.Model.{User, UserMembership, PasswordResetToken, Db, Query}
use egras.Security.PasswordHash.{verify_password, hash_password, IsArgon2, verify-hash}
use egras.Security.Tokens.{is_pending, mark_used, find_valid, consume}
use egras.Security.Users.{memberships_of, update_password_hash, set_hash}
use egras.Security.State.{nanos, AppState, Call, World}
use egras.Security.Login.{login}
use egras.Security.Login.Sound.{found_user, login-ok_iff}
use egras.Security.Passwords.{
  PasswordResetConfirmInput, confirm_with, confirm_found, password_reset_confirm,
}

-- The token that the text stands for at an instant.
abbrev pub valid_token : AppState → ℕ → List ℕ → Db → Option PasswordResetToken
valid_token s now raw db =
    find (λ (t : PasswordResetToken). t.token_hash == s.sha256_hex raw && is_pending now t)
      db.reset_tokens

-- What a confirmation that succeeds has read and written.
pub record Confirms (s : AppState) (c : Call) (input : PasswordResetConfirmInput) (w : World)
    : Type 0 where
  pub raw : List ℕ
  pub decoded : s.hex_decode input.raw_token ≡ some raw
  pub token : PasswordResetToken
  pub valid : valid_token s c.now raw w.db ≡ some token
  pub new_hash : List ℕ
  pub hashed : hash_password s.argon2 c.random input.new_password ≡ ok new_hash
  pub written : (password_reset_confirm s c input w).1.db ≡ record w.db {
    users = map (set_hash c.now token.user_id new_hash) w.db.users;
    reset_tokens = map (mark_used c.now token.id) w.db.reset_tokens;
  }

set_hash-id : (now id : ℕ) (h : List ℕ) (u : User) → (set_hash now id h u).id ≡ u.id
set_hash-id now id h u = ground arith

set_hash-hash :
    (now id : ℕ) (h : List ℕ) (u : User) → u.id ≡ id → (set_hash now id h u).password_hash ≡ h
set_hash-hash now id h u e = ground arith

module _ (s : AppState) (c : Call) where
  abbrev written_db : PasswordResetToken → List ℕ → Db → Db
  written_db token new_hash db = record db {
    users = map (set_hash c.now token.user_id new_hash) db.users;
    reset_tokens = map (mark_used c.now token.id) db.reset_tokens;
  }

  confirm_with-ok :
      (token : PasswordResetToken) (new_hash : List ℕ) (w : World)
      → (confirm_with s c token new_hash w).0 ≡ ok tt
      → (confirm_with s c token new_hash w).1.db ≡ written_db token new_hash w.db
  unfolding confirm_with update_password_hash consume
  confirm_with-ok token new_hash w e = elim (Bool-cases (c.fails Query.update_hash_query)) [
    | inl failed ↦ absurd (ground arith)
    | inr updated ↦ elim (Bool-cases (c.fails Query.consume_token_query)) [
      | inl failed ↦ absurd (ground arith)
      | inr consumed ↦ rw (updated, confirm_with, update_password_hash, consume, consumed) refl
    ]
  ]

  confirm_found-ok :
      (token : PasswordResetToken) (password : List ℕ) (w : World)
      → (confirm_found s c (some token) password w).0 ≡ ok tt
      → (h : List ℕ) × (hash_password s.argon2 c.random password ≡ ok h)
        × ((confirm_found s c (some token) password w).1.db ≡ written_db token h w.db)
  unfolding confirm_found
  confirm_found-ok token password w e =
      elim (Result-cases (hash_password s.argon2 c.random password)) [
        | inr (_, failed) ↦ absurd (ground arith)
        | inl (h, hashed) ↦
            (h, hashed, rw (hashed, confirm_found) (confirm_with-ok token h w (ground arith)))
      ]

  found-ok :
      (found : Option PasswordResetToken) (password : List ℕ) (w : World)
      → (confirm_found s c found password w).0 ≡ ok tt
      → (t : PasswordResetToken) × (found ≡ some t)
  unfolding confirm_found
  found-ok none password w e = absurd (ground arith)
  found-ok (some t) password w e = (t, refl)

  -- Past the guards, the call is what is done with the token that is found.
  confirm-found :
      (input : PasswordResetConfirmInput) (w : World) (raw : List ℕ)
      → ltb (length input.new_password) 8 ≡ false
      → s.hex_decode input.raw_token ≡ some raw
      → c.fails Query.find_valid_token_query ≡ false
      → password_reset_confirm s c input w
        ≡ confirm_found s c (valid_token s c.now raw w.db) input.new_password w
  unfolding password_reset_confirm find_valid
  confirm-found input w raw long decoded works =
      rw (long, password_reset_confirm, decoded, find_valid, works) refl

  confirms :
      (input : PasswordResetConfirmInput) (w : World) (raw : List ℕ)
      → s.hex_decode input.raw_token ≡ some raw
      → password_reset_confirm s c input w
        ≡ confirm_found s c (valid_token s c.now raw w.db) input.new_password w
      → (password_reset_confirm s c input w).0 ≡ ok tt
      → Confirms s c input w
  confirms input w raw decoded same e =
      let found = valid_token s c.now raw w.db in
      let (t, is_token) = found-ok found input.new_password w (ap (λ r. r.0) (sym same) ∙ e) in
      let same_t : password_reset_confirm s c input w
          ≡ confirm_found s c (some t) input.new_password w =
        same ∙ ap (λ o. confirm_found s c o input.new_password w) is_token in
      let (h, hashed, written) =
        confirm_found-ok t input.new_password w (ap (λ r. r.0) (sym same_t) ∙ e) in
      record {
        raw = raw;
        decoded = decoded;
        token = t;
        valid = is_token;
        new_hash = h;
        hashed = hashed;
        written = ap (λ r. r.1.db) same_t ∙ written;
      }

  pub confirm_sound :
      (input : PasswordResetConfirmInput) (w : World)
      → (password_reset_confirm s c input w).0 ≡ ok tt
      → Confirms s c input w
  unfolding password_reset_confirm find_valid
  confirm_sound input w e = elim (Bool-cases (ltb (length input.new_password) 8)) [
    | inl short ↦ absurd (ground arith)
    | inr long ↦ elim (Option-cases (s.hex_decode input.raw_token)) [
      | inl no_hex ↦ absurd (ground arith)
      | inr (raw, decoded) ↦ elim (Bool-cases (c.fails Query.find_valid_token_query)) [
        | inl failed ↦ absurd (ground arith)
        | inr works ↦ confirms input w raw decoded (confirm-found input w raw long decoded works) e
      ]
    ]
  ]

  -- A user whose name or address was found is found after the reset, with the new hash.
  found_user-written :
      (name : String) (token : PasswordResetToken) (h : List ℕ) (db : Db) (u : User)
      → found_user s name db ≡ some u
      → found_user s name (written_db token h db) ≡ some (set_hash c.now token.user_id h u)
  found_user-written name token h db u e =
      find-map (λ (u : User). u.username == name || s.text.email_is u.email name)
        (set_hash c.now token.user_id h) db.users u
        (λ u. elim (Bool-cases (u.id == token.user_id)) [
          | inl same ↦ rw same refl
          | inr other ↦ rw other refl
        ])
        e

  module _ (d : Call) where
    -- After a reset that succeeded, the user of the token can log in with the new password, from the
    -- next call on: if the user is found by the name, is a member of an organisation, the later
    -- call meets no fault and its token can be signed.
    pub reset_then_login :
        (input : PasswordResetConfirmInput) (w : World) (raw : List ℕ) (token : PasswordResetToken)
        (name : String) (u : User) (m : UserMembership) (rest : List UserMembership)
        (access : List ℕ)
        → IsArgon2 s.argon2
        → (password_reset_confirm s c input w).0 ≡ ok tt
        → s.hex_decode input.raw_token ≡ some raw
        → valid_token s c.now raw w.db ≡ some token
        → found_user s name w.db ≡ some u
        → u.id ≡ token.user_id
        → memberships_of u.id w.db ≡ m ∷ rest
        → d.fails Query.find_user_query ≡ false
        → d.fails Query.list_memberships_query ≡ false
        → encode_access_token s.codec s.jwt_config.secret s.jwt_config.issuer u.id m.org_id
            s.jwt_config.ttl_secs d.id
            (d.now / nanos)
          ≡ some access
        → (login s d
            (record { username_or_email = name; password = input.new_password })
            (password_reset_confirm s c input w).1).0
          ≡ ok (record {
            token = access;
            user_id = u.id;
            active_org_id = m.org_id;
            memberships = m ∷ rest;
          })
    unfolding memberships_of
    reset_then_login input w raw token name u m rest access law e decoded valid found is_user member
          finds lists issued =
        let k = confirm_sound input w e in
        let same_raw : k.raw ≡ raw = let a = k.decoded in ground arith in
        let same_token : k.token ≡ token =
          let a = k.valid in cc (ap (λ r. valid_token s c.now r w.db) same_raw) in
        let new_user = set_hash c.now k.token.user_id k.new_hash u in
        let same_user : u.id ≡ k.token.user_id = is_user ∙ sym (ap (λ t. t.user_id) same_token) in
        let same_id : new_user.id ≡ u.id = set_hash-id c.now k.token.user_id k.new_hash u in
        let hash_of : new_user.password_hash ≡ k.new_hash =
          set_hash-hash c.now k.token.user_id k.new_hash u same_user in
        (login-ok_iff s d _ (password_reset_confirm s c input w).1 _ finds lists).1 (record {
          user = new_user;
          found =
              ap (found_user s name) k.written
              ∙ found_user-written name k.token k.new_hash w.db u found;
          proved =
              ap (verify_password s.argon2 input.new_password) hash_of
              ∙ verify-hash s.argon2 c.random input.new_password k.new_hash law k.hashed;
          session = m;
          others = rest;
          member = ap (memberships_of new_user.id) k.written ∙ (rw same_id member);
          issued = rw same_id issued;
          user_id = sym same_id;
          active_org_id = refl;
          memberships = refl;
        })
