-- ===== src/Security/Login/Sound.antt =====
-- When a login goes through, and where the session starts.
use egras.Prelude.{
  ℕ, String, true, false, ◌/◌, ◌||◌, Option, none, some, List, [], ◌∷◌, map, find, ok, err, ◌==◌,
  ℕ_eq, String_eq, ◌≡◌, ◌↔◌, refl, inl, inr, sym, ap, ◌∙◌, Bool-cases, Option-cases, Result-cases,
  arith,
}
use egras.Auth.Jwt.{encode_access_token}
use egras.Security.Model.{User, UserMembership, Db, Query}
use egras.Security.PasswordHash.{verify_password, hash_password, needs_rehash}
use egras.Security.Users.{
  find_by_username_or_email, list_memberships, memberships_of, update_password_hash, set_hash,
}
use egras.Security.State.{nanos, AppState, Call, World}
use egras.Security.Login.{
  LoginInput, LoginOutput, LoginError, rehash, issue_token, open_session, enter, log_in, login,
}

-- The user that the name or the address stands for.
abbrev pub found_user : AppState → String → Db → Option User
found_user s name db =
    find (λ (u : User). u.username == name || s.text.email_is u.email name) db.users

-- What a login needs, and what it answers.
pub record LogsIn (s : AppState) (c : Call) (input : LoginInput) (db : Db) (out : LoginOutput)
    : Type 0 where
  pub user : User
  pub found : found_user s input.username_or_email db ≡ some user
  pub proved : verify_password s.argon2 input.password user.password_hash ≡ ok true
  pub session : UserMembership
  pub others : List UserMembership
  pub member : memberships_of user.id db ≡ session ∷ others
  pub issued :
      encode_access_token s.codec s.jwt_config.secret s.jwt_config.issuer user.id session.org_id
        s.jwt_config.ttl_secs c.id
        (c.now / nanos)
      ≡ some out.token
  pub user_id : out.user_id ≡ user.id
  pub active_org_id : out.active_org_id ≡ session.org_id
  pub memberships : out.memberships ≡ session ∷ others

module _ (s : AppState) (c : Call) where
  -- Only users are written.
  pub rehash_lem :
      (user : User) (password : List ℕ) (db : Db)
      → (users : List User) × (rehash s c user password db ≡ record db { users = users })
  unfolding rehash update_password_hash
  rehash_lem user password db = elim (Bool-cases (needs_rehash user.password_hash)) [
    | inr good ↦ (db.users, rw (good, rehash) refl)
    | inl stale ↦ elim (Result-cases (hash_password s.argon2 c.random password)) [
      | inr (_, failed) ↦ (db.users, rw (stale, rehash, failed) refl)
      | inl (h, hashed) ↦ elim (Bool-cases (c.fails Query.update_hash_query)) [
        | inl failed ↦ (db.users, rw (stale, rehash, hashed, failed, update_password_hash) refl)
        | inr done ↦ (
          map (set_hash c.now user.id h) db.users,
          rw (stale, rehash, hashed, done, update_password_hash) refl,
        )
      ]
    ]
  ]

  memberships_of-rehash :
      (user : User) (password : List ℕ) (db : Db) (id : ℕ)
      → memberships_of id (rehash s c user password db) ≡ memberships_of id db
  unfolding memberships_of
  memberships_of-rehash user password db id =
      let (users, e) = rehash_lem user password db in rw e refl

  open_session_sound :
      (user : User) (ms : List UserMembership) (w : World) (out : LoginOutput)
      → (open_session s c user ms w).0 ≡ ok out
      → (m : UserMembership) × (rest : List UserMembership) × (ms ≡ m ∷ rest)
        × (issue_token s c user.id m.org_id ≡ some out.token)
        × (out.user_id ≡ user.id)
        × (out.active_org_id ≡ m.org_id)
        × (out.memberships ≡ m ∷ rest)
  unfolding open_session
  open_session_sound user [] w out e = absurd (ground arith)
  open_session_sound user (m ∷ rest) w out e =
      elim (Option-cases (issue_token s c user.id m.org_id)) [
        | inl failed ↦ absurd (ground arith)
        | inr (t, issued) ↦ (m, rest, refl, ground arith, ground arith, ground arith, ground arith)
      ]

  enter_sound :
      (user : User) (input : LoginInput) (w : World) (out : LoginOutput)
      → (enter s c user input w).0 ≡ ok out
      → (m : UserMembership) × (rest : List UserMembership) × (memberships_of user.id w.db
          ≡ m ∷ rest)
        × (issue_token s c user.id m.org_id ≡ some out.token)
        × (out.user_id ≡ user.id)
        × (out.active_org_id ≡ m.org_id)
        × (out.memberships ≡ m ∷ rest)
  unfolding enter list_memberships
  enter_sound user input w out e = elim (Bool-cases (c.fails Query.list_memberships_query)) [
    | inl failed ↦ absurd (ground arith)
    | inr done ↦
        let w' = record w { db = rehash s c user input.password w.db } in
        let (m, rest, some_member, issued, id, org, all) =
          open_session_sound user (memberships_of user.id w'.db) w' out (ground arith) in
        (
          m,
          rest,
          sym (memberships_of-rehash user input.password w.db user.id) ∙ some_member,
          issued,
          id,
          org,
          all,
        )
  ]

  log_in_sound :
      (user : User) (input : LoginInput) (w : World) (out : LoginOutput)
      → (log_in s c (some user) input w).0 ≡ ok out
      → (verify_password s.argon2 input.password user.password_hash ≡ ok true)
        × ((enter s c user input w).0 ≡ ok out)
  unfolding log_in
  log_in_sound user input w out e =
      elim (Result-cases (verify_password s.argon2 input.password user.password_hash)) [
        | inr (_, failed) ↦ absurd (ground arith)
        | inl (right, verified) ↦ elim (Bool-cases right) [
          | inr wrong ↦ absurd (ground arith)
          | inl correct ↦ (ground arith, ground arith)
        ]
      ]

  missing_refused :
      (input : LoginInput) (w : World)
      → (log_in s c none input w).0 ≡ err LoginError.invalid_credentials
  unfolding log_in
  missing_refused input w = refl

  -- A login that goes through is by the user whom the name stands for, with the password.
  login_sound :
      (input : LoginInput) (w : World) (out : LoginOutput)
      → (login s c input w).0 ≡ ok out
      → LogsIn s c input w.db out
  unfolding login find_by_username_or_email issue_token
  login_sound input w out e = elim (Bool-cases (c.fails Query.find_user_query)) [
    | inl failed ↦ absurd (ground arith)
    | inr done ↦ elim (Option-cases (found_user s input.username_or_email w.db)) [
      | inl missing ↦ absurd (ground (arith, missing_refused input w))
      | inr (user, found) ↦
          let (proved, entered) = log_in_sound user input w out (ground arith) in
          let (m, rest, member, issued, id, org, all) = enter_sound user input w out entered in
          record {
            user = user;
            found = found;
            proved = proved;
            session = m;
            others = rest;
            member = member;
            issued = issued;
            user_id = id;
            active_org_id = org;
            memberships = all;
          }
    ]
  ]

  open_session_complete :
      (user : User) (m : UserMembership) (rest ms : List UserMembership) (w : World) (t : List ℕ)
      → ms ≡ m ∷ rest
      → issue_token s c user.id m.org_id ≡ some t
      → (open_session s c user ms w).0
        ≡ ok (record {
          token = t;
          user_id = user.id;
          active_org_id = m.org_id;
          memberships = m ∷ rest;
        })
  unfolding open_session
  open_session_complete user m rest ms w t e issued = rw (e, open_session, issued) refl

  enter_complete :
      (user : User) (m : UserMembership) (rest : List UserMembership) (input : LoginInput)
      (w : World) (t : List ℕ)
      → c.fails Query.list_memberships_query ≡ false
      → memberships_of user.id w.db ≡ m ∷ rest
      → issue_token s c user.id m.org_id ≡ some t
      → (enter s c user input w).0
        ≡ ok (record {
          token = t;
          user_id = user.id;
          active_org_id = m.org_id;
          memberships = m ∷ rest;
        })
  unfolding enter list_memberships
  enter_complete user m rest input w t works member issued =
      let w' = record w { db = rehash s c user input.password w.db } in
      rw (works, enter, list_memberships)
        (open_session_complete user m rest (memberships_of user.id w'.db) w' t
          (memberships_of-rehash user input.password w.db user.id ∙ member) issued)

  login_complete :
      (input : LoginInput) (w : World) (out : LoginOutput)
      → c.fails Query.find_user_query ≡ false
      → c.fails Query.list_memberships_query ≡ false
      → LogsIn s c input w.db out
      → (login s c input w).0 ≡ ok out
  unfolding login find_by_username_or_email log_in issue_token
  login_complete input w out finds lists l =
      let entered =
        enter_complete l.user l.session l.others input w out.token lists l.member l.issued in
      let same : record {
        token = out.token;
        user_id = l.user.id;
        active_org_id = l.session.org_id;
        memberships = l.session ∷ l.others;
      }
          ≡ out =
        ground arith in
      rw (finds, login, find_by_username_or_email, l.found, log_in, l.proved) (entered ∙ ap ok same)

  -- Where no query fails, a login goes through exactly when the name or the address stands for a
  -- user whose stored hash the password matches, the user is a member of an organisation, and a
  -- token can be signed; it answers a token for the user in the first of the organisations, and
  -- all of them.
  pub login-ok_iff :
      (input : LoginInput) (w : World) (out : LoginOutput)
      → c.fails Query.find_user_query ≡ false
      → c.fails Query.list_memberships_query ≡ false
      → ((login s c input w).0 ≡ ok out) ↔ LogsIn s c input w.db out
  login-ok_iff input w out finds lists =
      (login_sound input w out, λ l. login_complete input w out finds lists l)
