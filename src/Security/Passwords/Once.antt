-- ===== src/Security/Passwords/Once.antt =====
-- A token resets a password once, over every sequence of later calls of the services.
use egras.Prelude.{
  ℕ, String, ◌≤◌, ◌+◌, ◌*◌, Option, none, some, List, [], ◌∷◌, length, count, ok, ltb, ◌≡◌, ◌≢◌,
  inl, inr, sym, ap, subst, Bool-cases, Option-cases, Result-cases, arith, Keyed,
}
use egras.Security.Model.{PasswordResetToken, User, Db, Query}
use egras.Security.PasswordHash.{hash_password}
use egras.Security.Tokens.{token_id, insert, find_valid, consume}
use egras.Security.Tokens.Spent.{
  Spent, has_hash, insert-Spent, mark_used-Spent, marked-Spent, find_valid-Spent,
}
use egras.Security.Users.{find_by_username_or_email, find_by_id, update_password_hash}
use egras.Security.State.{AppState, Call, World, nanos}
use egras.Security.Login.{LoginInput, login, logout, switch_org}
use egras.Security.Login.Kept.{login-reset_tokens, logout-reset_tokens, switch_org-reset_tokens}
use egras.Security.Passwords.{
  ChangePasswordInput, PasswordResetConfirmInput, change_checked, change_password, request_for,
  password_reset_request, confirm_with, confirm_found, password_reset_confirm,
}
use egras.Security.Passwords.Reset.{confirm_sound, valid_token}

-- What a client may ask for.
pub data Request : Type 0 where
  logging_in : LoginInput → Request
  logging_out : ℕ → ℕ → ℕ → ℕ → Request
  switching : ℕ → ℕ → ℕ → Request
  changing : ℕ → ChangePasswordInput → Request
  requesting : String → Request
  confirming : PasswordResetConfirmInput → Request

module _ (s : AppState) where
  pub serve : Call × Request → World → World
  serve (c, logging_in input) w = (login s c input w).1
  serve (c, logging_out user org jti expires) w = (logout s c user org jti expires w).1
  serve (c, switching user from to) w = (switch_org s c user from to w).1
  serve (c, changing user input) w = (change_password s c user input w).1
  serve (c, requesting email) w = (password_reset_request s c email w).1
  serve (c, confirming input) w = (password_reset_confirm s c input w).1

  pub serve_all : List (Call × Request) → World → World
  serve_all [] w = w
  serve_all (r ∷ requests) w = serve_all requests (serve r w)

  module _ (h : List ℕ) where
    abbrev StaysSpent : World → World → Type 0
    StaysSpent w w' = Spent h w.db.reset_tokens → Spent h w'.db.reset_tokens

    -- Where the table of tokens is the same afterwards.
    same_tokens : (w w' : World) → w'.db.reset_tokens ≡ w.db.reset_tokens → StaysSpent w w'
    same_tokens w w' e v = subst (Spent h) (sym e) v

    change-reset_tokens :
        (c : Call) (user : ℕ) (input : ChangePasswordInput) (w : World)
        → (change_password s c user input w).1.db.reset_tokens ≡ w.db.reset_tokens
    unfolding change_password change_checked find_by_id update_password_hash
    change-reset_tokens c user input w = ground arith

    request_for-Spent :
        (c : Call) (found : Option User) (email : String) (w : World)
        → StaysSpent w (request_for s c found email w).1
    unfolding request_for
    request_for-Spent c none email w v = v
    request_for-Spent c (some user) email w v =
        let kept =
          insert-Spent h c.fails c.now c.id user.id (s.sha256_hex c.random)
            (c.now + s.password_reset_ttl_secs * nanos) w.db v in
        elim (Result-cases
          (insert c.fails c.now c.id user.id (s.sha256_hex c.random)
            (c.now + s.password_reset_ttl_secs * nanos) w.db).0) [
              | inl (t, e) ↦ rw (e, request_for) kept
              | inr (f, e) ↦ rw (e, request_for) kept
            ]

    request-Spent :
        (c : Call) (email : String) (w : World)
        → StaysSpent w (password_reset_request s c email w).1
    unfolding password_reset_request
    request-Spent c email w v =
        elim (Result-cases (find_by_username_or_email s.text c.fails email w.db)) [
          | inl (found, e) ↦ rw (e, password_reset_request) (request_for-Spent c found email w v)
          | inr (f, e) ↦ rw (e, password_reset_request) v
        ]

    confirm_with-Spent :
        (c : Call) (token : PasswordResetToken) (new_hash : List ℕ) (w : World)
        → StaysSpent w (confirm_with s c token new_hash w).1
    unfolding confirm_with update_password_hash consume
    confirm_with-Spent c token new_hash w v = elim (Bool-cases (c.fails Query.update_hash_query)) [
      | inl failed ↦ rw (failed, confirm_with, update_password_hash) v
      | inr updated ↦ elim (Bool-cases (c.fails Query.consume_token_query)) [
        | inl failed ↦ rw (updated, confirm_with, update_password_hash, failed, consume) v
        | inr done ↦
            rw (updated, confirm_with, update_password_hash, done, consume)
              (mark_used-Spent h c.now token.id w.db.reset_tokens v)
      ]
    ]

    confirm_found-Spent :
        (c : Call) (found : Option PasswordResetToken) (password : List ℕ) (w : World)
        → StaysSpent w (confirm_found s c found password w).1
    unfolding confirm_found
    confirm_found-Spent c none password w v = v
    confirm_found-Spent c (some t) password w v =
        elim (Result-cases (hash_password s.argon2 c.random password)) [
          | inl (new_hash, e) ↦ rw (e, confirm_found) (confirm_with-Spent c t new_hash w v)
          | inr (f, e) ↦ rw (e, confirm_found) v
        ]

    confirm-Spent :
        (c : Call) (input : PasswordResetConfirmInput) (w : World)
        → StaysSpent w (password_reset_confirm s c input w).1
    unfolding password_reset_confirm
    confirm-Spent c input w v = elim (Bool-cases (ltb (length input.new_password) 8)) [
      | inl short ↦ rw (short, password_reset_confirm) v
      | inr long ↦ elim (Option-cases (s.hex_decode input.raw_token)) [
        | inl no_hex ↦ rw (long, password_reset_confirm, no_hex) v
        | inr (raw, decoded) ↦
            elim (Result-cases (find_valid c.fails c.now (s.sha256_hex raw) w.db)) [
              | inr (f, e) ↦ rw (long, password_reset_confirm, decoded, e) v
              | inl (found, e) ↦
                  rw (long, password_reset_confirm, decoded, e)
                    (confirm_found-Spent c found input.new_password w v)
            ]
      ]
    ]

    serve-Spent : (r : Call × Request) (w : World) → StaysSpent w (serve r w)
    unfolding serve
    serve-Spent (c, logging_in input) w =
        same_tokens w (login s c input w).1 (login-reset_tokens s c input w)
    serve-Spent (c, logging_out user org jti expires) w =
        same_tokens w (logout s c user org jti expires w).1
          (logout-reset_tokens s c user org jti expires w)
    serve-Spent (c, switching user from to) w =
        same_tokens w (switch_org s c user from to w).1 (switch_org-reset_tokens s c user from to w)
    serve-Spent (c, changing user input) w =
        same_tokens w (change_password s c user input w).1 (change-reset_tokens c user input w)
    serve-Spent (c, requesting email) w = request-Spent c email w
    serve-Spent (c, confirming input) w = confirm-Spent c input w

    serve_all-Spent :
        (requests : List (Call × Request)) (w : World) → StaysSpent w (serve_all requests w)
    unfolding serve_all
    serve_all-Spent [] w v = v
    serve_all-Spent (r ∷ requests) w v = serve_all-Spent requests (serve r w) (serve-Spent r w v)

  -- With a table of distinct ids and hashes: after a confirmation that succeeded, no confirmation
  -- with the same token succeeds again, at whatever instant, after whatever further calls of the
  -- services, and whatever faults they meet.
  pub confirm_once :
      (c : Call) (input : PasswordResetConfirmInput) (w : World) (requests : List (Call × Request))
      (d : Call) (again : PasswordResetConfirmInput)
      → Keyed token_id w.db.reset_tokens
      → ((h : List ℕ) → count (has_hash h) w.db.reset_tokens ≤ 1)
      → (password_reset_confirm s c input w).0 ≡ ok tt
      → again.raw_token ≡ input.raw_token
      → (password_reset_confirm s d again
          (serve_all requests (password_reset_confirm s c input w).1)).0
        ≢ ok tt
  confirm_once c input w requests d again keyed unique e same e' =
      let k = confirm_sound s c input w e in
      let h = s.sha256_hex k.raw in
      let spent : Spent h (password_reset_confirm s c input w).1.db.reset_tokens =
        subst (λ (db : Db). Spent h db.reset_tokens) (sym k.written)
          (marked-Spent h c.now w.db.reset_tokens k.token keyed (unique h) k.valid) in
      let later = serve_all-Spent h requests (password_reset_confirm s c input w).1 spent in
      let k' =
        confirm_sound s d again (serve_all requests (password_reset_confirm s c input w).1) e' in
      let same_raw : k'.raw ≡ k.raw = let a = k.decoded in let b = k'.decoded in ground arith in
      let gone =
        find_valid-Spent h d.now
          (serve_all requests (password_reset_confirm s c input w).1).db.reset_tokens later.used in
      let found = k'.valid in
      cc (
        ap
          (λ r.
            valid_token s d.now r (serve_all requests (password_reset_confirm s c input w).1).db)
          same_raw)
