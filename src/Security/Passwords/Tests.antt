-- ===== src/Security/Passwords/Tests.antt =====
-- A reset of the password, a second try with the same token, and a login.
use egras.Prelude.{
  ℕ, ◌≤◌, some, map, [], ◌∷◌, List, count, ok, ◌≡◌, ◌≢◌, bytes_eq, refl, sort_by, bytes, arith,
}
use egras.Security.Tests.{app, argon2-IsArgon2, call_at, ada, membership, reset_token, world}
use egras.Auth.Jwt.{encode_access_token, access_claims}
use egras.Auth.Tests.{encode}
use egras.Security.Users.{update_password_hash, memberships_of, earliest, set_hash}
use egras.Security.PasswordHash.{hash_password}
use egras.Security.Tokens.{find_valid, consume, is_pending}
use egras.Security.Tokens.Spent.{has_hash}
use egras.Security.Login.{login}
use egras.Security.Passwords.{
  PasswordResetConfirmInput, confirm_with, confirm_found, password_reset_confirm,
}
use egras.Security.Passwords.Reset.{reset_then_login}
use egras.Security.Passwords.Races.{Works, overlapping_confirms}
use egras.Security.Passwords.Once.{requesting, serve_all, confirm_once}

abbrev input : PasswordResetConfirmInput
input = record { raw_token = 1 ∷ 2 ∷ 3 ∷ []; new_password = bytes "second password" }

abbrev again : PasswordResetConfirmInput
again = record { raw_token = 1 ∷ 2 ∷ 3 ∷ []; new_password = bytes "third password" }

confirmed : (password_reset_confirm app (call_at 1000 1) input world).0 ≡ ok tt
unfolding password_reset_confirm find_valid is_pending confirm_found hash_password confirm_with
    update_password_hash consume
confirmed = refl

one_row : (h : List ℕ) → count (has_hash h) world.db.reset_tokens ≤ 1
one_row h = ground arith

confirm_once_example :
    (password_reset_confirm app (call_at 1002 3) again (
      serve_all app
        ((call_at 1001 2, requesting "ada") ∷ [])
        (password_reset_confirm app (call_at 1000 1) input world).1)).0
    ≢ ok tt
confirm_once_example =
    confirm_once app (call_at 1000 1) input world ((call_at 1001 2, requesting "ada") ∷ [])
      (call_at 1002 3) again (tt, tt) one_row confirmed refl

reset_then_login_example :
    (login app
      (call_at 1001 2)
      (record { username_or_email = "ada"; password = bytes "second password" })
      (password_reset_confirm app (call_at 1000 1) input world).1).0
    ≡ ok (record {
      token = 7 ∷ 1 ∷ 1001 ∷ 1061 ∷ 2 ∷ [];
      user_id = 7;
      active_org_id = 1;
      memberships = membership ∷ [];
    })
unfolding encode_access_token encode access_claims is_pending memberships_of earliest sort_by
reset_then_login_example =
    reset_then_login app (call_at 1000 1) (call_at 1001 2) input world (1 ∷ 2 ∷ 3 ∷ []) reset_token
      "ada" ada membership [] (7 ∷ 1 ∷ 1001 ∷ 1061 ∷ 2 ∷ []) argon2-IsArgon2 confirmed refl refl
      refl refl refl refl refl refl

first-Works : Works app (call_at 1000 1) input.new_password (36 ∷ input.new_password)
unfolding hash_password
first-Works = record { hashed = refl; updates = refl; consumes = refl }

second-Works : Works app (call_at 1000 2) again.new_password (36 ∷ again.new_password)
unfolding hash_password
second-Works = record { hashed = refl; updates = refl; consumes = refl }

overlapping_confirms_example :
    let done = confirm_found app (call_at 1000 1) (some reset_token) input.new_password world in
    let later = confirm_found app (call_at 1000 2) (some reset_token) again.new_password done.1 in
    (done.0 ≡ ok tt)
    × (later.0 ≡ ok tt)
    × (later.1.db.users
        ≡ map
            (set_hash (call_at 1000 2).now 7 (36 ∷ again.new_password))
            (map (set_hash (call_at 1000 1).now 7 (36 ∷ input.new_password)) world.db.users))
unfolding is_pending
overlapping_confirms_example =
    overlapping_confirms app (call_at 1000 1) (call_at 1000 2) (1 ∷ 2 ∷ 3 ∷ []) reset_token
      input.new_password again.new_password (36 ∷ input.new_password) (36 ∷ again.new_password)
      world refl refl first-Works second-Works
