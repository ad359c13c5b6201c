-- ===== src/Security/Passwords.antt =====
-- src/security/service/change_password.rs, password_reset_request.rs and password_reset_confirm.rs.
pub mod Reset
pub mod Once
pub mod Races
pub mod Tests
use egras.Prelude.{
  ℕ, String, ◌+◌, ◌*◌, not, Option, none, some, List, length, Result, ok, err, ◌>>=◌, ok_or, ltb,
  if◌then◌else◌,
}
use egras.Audit.Model.{success, failure as failed}
use egras.Audit.Security.{password_changed, password_reset_requested, password_reset_confirmed}
use egras.Security.Model.{User, PasswordResetToken, Db}
use egras.Security.PasswordHash.{hash_password, verify_password}
use egras.Security.Tokens.{insert, find_valid, consume}
use egras.Security.Users.{find_by_username_or_email, find_by_id, update_password_hash}
use egras.Security.State.{nanos, AppState, Call, World, recorded, or_error}

pub record ChangePasswordInput : Type 0 where
  pub current_password : List ℕ
  pub new_password : List ℕ

pub data ChangePasswordError : Type 0 where
  wrong_current_password password_too_short user_not_found internal : ChangePasswordError

pub data PasswordResetRequestError : Type 0 where
  internal : PasswordResetRequestError

pub record PasswordResetConfirmInput : Type 0 where
  pub raw_token : List ℕ
  pub new_password : List ℕ

pub data PasswordResetConfirmError : Type 0 where
  invalid_token password_too_short internal : PasswordResetConfirmError

module _ (s : AppState) (c : Call) where
  -- The tables with the new hash.
  change_checked : ℕ → ChangePasswordInput → Db → Result ChangePasswordError Db
  change_checked user_id input db =
      if ltb (length input.new_password) 8 then err ChangePasswordError.password_too_short else do
        found ← or_error ChangePasswordError.internal (find_by_id s.text c.fails user_id db)
        user ← ok_or found user_not_found
        right ←
            or_error ChangePasswordError.internal
              (verify_password s.argon2 input.current_password user.password_hash)
        if not right then err wrong_current_password else do
          new_hash ←
              or_error ChangePasswordError.internal
                (hash_password s.argon2 c.random input.new_password)
          or_error ChangePasswordError.internal
              (update_password_hash s.text c.fails c.now user_id new_hash db)

  pub change_password :
      ℕ → ChangePasswordInput → World → Result ChangePasswordError (Unit {0}) × World
  unfolding change_checked
  change_password user_id input w = elim (change_checked user_id input w.db) [
    | err e ↦ (err e, w)
    | ok db ↦ (ok tt, recorded (password_changed c.stamp user_id) (record w { db = db }))
  ]

  -- The token is 32 random bytes; what is stored is the hash of these.
  request_for : Option User → String → World → Result PasswordResetRequestError (Unit {0}) × World
  request_for none email w = (ok tt, w)
  request_for (some user) email w =
      let (r, db) =
        insert c.fails c.now c.id user.id (s.sha256_hex c.random)
          (c.now + s.password_reset_ttl_secs * nanos) w.db in
      let w' = record w { db = db } in
      elim r [
        | err _ ↦ (err PasswordResetRequestError.internal, w')
        | ok _ ↦ (ok tt, recorded (password_reset_requested c.stamp email) w')
      ]

  pub password_reset_request : String → World → Result PasswordResetRequestError (Unit {0}) × World
  unfolding request_for
  password_reset_request email w = elim (find_by_username_or_email s.text c.fails email w.db) [
    | err _ ↦ (err PasswordResetRequestError.internal, w)
    | ok found ↦ request_for found email w
  ]

  -- The two writes are two transactions: the password may change and the token stay.
  confirm_with :
      PasswordResetToken → List ℕ → World → Result PasswordResetConfirmError (Unit {0}) × World
  confirm_with token new_hash w =
      elim (update_password_hash s.text c.fails c.now token.user_id new_hash w.db) [
        | err _ ↦ (err PasswordResetConfirmError.internal, w)
        | ok db ↦ elim (consume c.fails c.now token.id db) [
          | err _ ↦ (err PasswordResetConfirmError.internal, record w { db = db })
          | ok db' ↦ (
            ok tt,
            recorded (password_reset_confirmed c.stamp (some token.user_id) success none)
                (record w { db = db' }),
          )
        ]
      ]

  pub confirm_found :
      Option PasswordResetToken
      → List ℕ
      → World
      → Result PasswordResetConfirmError (Unit {0}) × World
  unfolding confirm_with
  confirm_found none new_password w = (
    err invalid_token,
    recorded (password_reset_confirmed c.stamp none failed (some "invalid_token")) w,
  )
  confirm_found (some token) new_password w = elim (hash_password s.argon2 c.random new_password) [
    | err _ ↦ (err PasswordResetConfirmError.internal, w)
    | ok new_hash ↦ confirm_with token new_hash w
  ]

  pub password_reset_confirm :
      PasswordResetConfirmInput → World → Result PasswordResetConfirmError (Unit {0}) × World
  unfolding confirm_found
  password_reset_confirm input w =
      if ltb (length input.new_password) 8
      then (err PasswordResetConfirmError.password_too_short, w)
      else elim (s.hex_decode input.raw_token) [
        | none ↦ (err invalid_token, w)
        | some raw ↦ elim (find_valid c.fails c.now (s.sha256_hex raw) w.db) [
          | err _ ↦ (err PasswordResetConfirmError.internal, w)
          | ok found ↦ confirm_found found input.new_password w
        ]
      ]
