-- ===== src/Security/Login.antt =====
-- src/security/service/login.rs, logout.rs and switch_org.rs.
pub mod Tests
pub mod Kept
pub mod Sound
use egras.Prelude.{
  ℕ, String, Bool, ◌/◌, not, Option, none, some, List, [], ◌∷◌, any, Result, ok, err, if◌then◌else◌,
}
use egras.Audit.Security.{login_failed, login_success, logout as logout_event, session_switched_org}
use egras.Auth.Jwt.{encode_access_token}
use egras.Tenants.Repository.{is_member_row}
use egras.Security.Model.{User, UserMembership, Db, is_member_query, Failure, failure}
use egras.Security.PasswordHash.{hash_password, verify_password, needs_rehash}
use egras.Security.Tokens.{revoke}
use egras.Security.Users.{find_by_username_or_email, update_password_hash, list_memberships}
use egras.Security.State.{nanos, AppState, Call, World, recorded, after}

pub record LoginInput : Type 0 where
  pub username_or_email : String
  pub password : List ℕ

pub record LoginOutput : Type 0 where
  pub token : List ℕ
  pub user_id : ℕ
  pub active_org_id : ℕ
  pub memberships : List UserMembership

pub data LoginError : Type 0 where
  invalid_credentials no_organisation internal : LoginError

pub data LogoutError : Type 0 where
  internal : LogoutError

pub data SwitchOrgError : Type 0 where
  not_member internal : SwitchOrgError

module _ (s : AppState) (c : Call) where
  -- A hash of other costs is replaced; that this fails is not noticed.
  pub rehash : User → List ℕ → Db → Db
  rehash user password db =
      if needs_rehash user.password_hash
      then elim (hash_password s.argon2 c.random password) [
        | ok new_hash ↦ after db (update_password_hash s.text c.fails c.now user.id new_hash db)
        | err _ ↦ db
      ]
      else db

  issue_token : ℕ → ℕ → Option (List ℕ)
  issue_token user_id org_id =
      encode_access_token s.codec s.jwt_config.secret s.jwt_config.issuer user_id org_id
        s.jwt_config.ttl_secs c.id (c.now / nanos)

  -- The user starts in the first of the organisations.
  open_session : User → List UserMembership → World → Result LoginError LoginOutput × World
  unfolding issue_token
  open_session user [] w = (err no_organisation, w)
  open_session user (m ∷ ms) w = elim (issue_token user.id m.org_id) [
    | none ↦ (err LoginError.internal, w)
    | some token ↦ (
      ok (record {
        token = token;
        user_id = user.id;
        active_org_id = m.org_id;
        memberships = m ∷ ms;
      }),
      recorded (login_success c.stamp user.id m.org_id) w,
    )
  ]

  enter : User → LoginInput → World → Result LoginError LoginOutput × World
  unfolding rehash open_session
  enter user input w =
      let w' = record w { db = rehash user input.password w.db } in
      elim (list_memberships s.text c.fails user.id w'.db) [
        | err _ ↦ (err LoginError.internal, w')
        | ok memberships ↦ open_session user memberships w'
      ]

  log_in : Option User → LoginInput → World → Result LoginError LoginOutput × World
  unfolding enter
  log_in none input w = (
    err invalid_credentials,
    recorded (login_failed c.stamp "not_found" input.username_or_email) w,
  )
  log_in (some user) input w = elim (verify_password s.argon2 input.password user.password_hash) [
    | err _ ↦ (err LoginError.internal, w)
    | ok right ↦ if right then enter user input w else (
      err invalid_credentials,
      recorded (login_failed c.stamp "bad_password" input.username_or_email) w,
    )
  ]

  pub login : LoginInput → World → Result LoginError LoginOutput × World
  unfolding log_in
  login input w = elim (find_by_username_or_email s.text c.fails input.username_or_email w.db) [
    | err _ ↦ (err LoginError.internal, w)
    | ok found ↦ log_in found input w
  ]

  pub logout : ℕ → ℕ → ℕ → ℕ → World → Result LogoutError (Unit {0}) × World
  logout user_id org_id jti token_expires_at w =
      elim (revoke c.fails c.now jti user_id token_expires_at w.db) [
        | err _ ↦ (err LogoutError.internal, w)
        | ok db ↦ (
          ok tt,
          recorded (logout_event s.uuid_json c.stamp user_id org_id jti) (record w { db = db }),
        )
      ]

  -- `OrganisationRepository::is_member`
  is_member : ℕ → ℕ → Db → Result Failure Bool
  is_member user org db =
      if c.fails is_member_query
      then err failure
      else ok (any (is_member_row user org) db.memberships)

  pub switch_org : ℕ → ℕ → ℕ → World → Result SwitchOrgError (List ℕ) × World
  unfolding is_member issue_token
  switch_org user_id current_org_id target_org_id w = elim (is_member user_id target_org_id w.db) [
    | err _ ↦ (err SwitchOrgError.internal, w)
    | ok member ↦
        if not member
        then (err SwitchOrgError.not_member, w)
        else elim (issue_token user_id target_org_id) [
          | none ↦ (err SwitchOrgError.internal, w)
          | some token ↦ (
            ok token,
            recorded (session_switched_org s.uuid_json c.stamp user_id current_org_id target_org_id)
                w,
          )
        ]
  ]
