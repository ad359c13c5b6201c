-- ===== src/Security/Login/Kept.antt =====
-- What a login, a logout and a switch leave of the tables.
use egras.Prelude.{
  ℕ, false, Option, none, some, List, [], ◌∷◌, ◌++◌, any, ok, ◌==◌, ℕ_eq, String_eq, ◌≡◌, refl, ap,
  arith,
}
use egras.Security.Model.{RevokedToken, User, UserMembership, Db}
use egras.Security.Tokens.{revoke}
use egras.Security.Users.{find_by_username_or_email, list_memberships, memberships_of}
use egras.Security.State.{AppState, Call, World}
use egras.Security.Login.{
  LoginInput, rehash, open_session, enter, log_in, login, logout, is_member, switch_org,
}
use egras.Security.Login.Sound.{found_user, rehash_lem}

module _ (s : AppState) (c : Call) where
  -- None of these writes the tokens that reset a password.
  rehash-reset_tokens :
      (user : User) (password : List ℕ) (db : Db)
      → (rehash s c user password db).reset_tokens ≡ db.reset_tokens
  rehash-reset_tokens user password db =
      let (users, e) = rehash_lem s c user password db in ap (λ d. d.reset_tokens) e

  open_session-db :
      (user : User) (ms : List UserMembership) (w : World)
      → (open_session s c user ms w).1.db ≡ w.db
  unfolding open_session
  open_session-db user [] w = refl
  open_session-db user (m ∷ ms) w = ground arith

  log_in-reset_tokens :
      (found : Option User) (input : LoginInput) (w : World)
      → (log_in s c found input w).1.db.reset_tokens ≡ w.db.reset_tokens
  unfolding log_in enter list_memberships
  log_in-reset_tokens none input w = refl
  log_in-reset_tokens (some user) input w =
      let w' = record w { db = rehash s c user input.password w.db } in
      ground (
        arith,
        rehash-reset_tokens user input.password w.db,
        open_session-db user (memberships_of user.id w'.db) w',
      )

  pub login-reset_tokens :
      (input : LoginInput) (w : World) → (login s c input w).1.db.reset_tokens ≡ w.db.reset_tokens
  unfolding login find_by_username_or_email
  login-reset_tokens input w =
      ground (arith, log_in-reset_tokens (found_user s input.username_or_email w.db) input w)

  pub logout-reset_tokens :
      (user org jti expires : ℕ) (w : World)
      → (logout s c user org jti expires w).1.db.reset_tokens ≡ w.db.reset_tokens
  unfolding logout revoke
  logout-reset_tokens user org jti expires w = ground arith

  pub switch_org-reset_tokens :
      (user from to : ℕ) (w : World)
      → (switch_org s c user from to w).1.db.reset_tokens ≡ w.db.reset_tokens
  unfolding switch_org is_member
  switch_org-reset_tokens user from to w = ground arith

  -- The row that the first logout of a token writes.
  pub logout-revoked_tokens :
      (user org jti expires : ℕ) (w : World)
      → any (λ (r : RevokedToken). r.jti == jti) w.db.revoked_tokens ≡ false
      → (logout s c user org jti expires w).0 ≡ ok tt
      → (logout s c user org jti expires w).1.db.revoked_tokens
        ≡ w.db.revoked_tokens ++ record { jti = jti; user_id = user; expires_at = expires } ∷ []
  unfolding logout revoke
  logout-revoked_tokens user org jti expires w first e = ground arith
