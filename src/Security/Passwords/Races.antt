-- ===== src/Security/Passwords/Races.antt =====
-- Two confirmations that overlap: each is the search for the token, and then what is done with it.
use egras.Prelude.{ℕ, false, some, List, ok, map, ◌≡◌, refl, ap, ◌∙◌}
use egras.Security.Model.{PasswordResetToken, Query}
use egras.Security.PasswordHash.{hash_password}
use egras.Security.Tokens.{consume}
use egras.Security.Users.{update_password_hash, set_hash}
use egras.Security.State.{AppState, Call, World}
use egras.Security.Passwords.{confirm_with, confirm_found}
use egras.Security.Passwords.Reset.{valid_token}

-- A call that meets no fault on its writes, and hashes the password.
pub record Works (s : AppState) (c : Call) (password hash : List ℕ) : Type 0 where
  pub hashed : hash_password s.argon2 c.random password ≡ ok hash
  pub updates : c.fails Query.update_hash_query ≡ false
  pub consumes : c.fails Query.consume_token_query ≡ false

module _ (s : AppState) (c : Call) where
  -- Whatever the table of tokens says by then, the token that was found is good for the password.
  confirm_found-some :
      (token : PasswordResetToken) (password hash : List ℕ) (w : World)
      → Works s c password hash
      → ((confirm_found s c (some token) password w).0 ≡ ok tt)
        × ((confirm_found s c (some token) password w).1.db.users
            ≡ map (set_hash c.now token.user_id hash) w.db.users)
  unfolding confirm_found confirm_with update_password_hash consume
  confirm_found-some token password hash w h = (
    rw (h.hashed, confirm_found, confirm_with, update_password_hash, h.updates, consume, h.consumes)
        refl,
    rw (h.hashed, confirm_found, confirm_with, update_password_hash, h.updates, consume, h.consumes)
        refl,
  )

module _ (s : AppState) (c : Call) where
  -- If a second confirmation with a token searches for it before the first one has consumed it, both
  -- succeed, and the password is in the end that of the second: the token's one use is only that of
  -- calls that do not overlap. Neither call meets a fault.
  pub overlapping_confirms :
      (d : Call) (raw : List ℕ) (token : PasswordResetToken) (first second h k : List ℕ) (w : World)
      → valid_token s c.now raw w.db ≡ some token
      → valid_token s d.now raw w.db ≡ some token
      → Works s c first h
      → Works s d second k
      → let done = confirm_found s c (valid_token s c.now raw w.db) first w in
        let again = confirm_found s d (valid_token s d.now raw w.db) second done.1 in
        (done.0 ≡ ok tt)
        × (again.0 ≡ ok tt)
        × (again.1.db.users
            ≡ map
                (set_hash d.now token.user_id k)
                (map (set_hash c.now token.user_id h) w.db.users))
  overlapping_confirms d raw token first second h k w found found' works works' =
      let (ok_first, users_first) = confirm_found-some s c token first h w works in
      let w' = (confirm_found s c (some token) first w).1 in
      let (ok_again, users_again) = confirm_found-some s d token second k w' works' in
      rw (found, found')
        (ok_first, ok_again, users_again ∙ ap (map (set_hash d.now token.user_id k)) users_first)
