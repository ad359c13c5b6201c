-- ===== src/Tenants/Services/Roles.antt =====
-- Who may assign a role, and what an assignment leaves.
use egras.Prelude.{
  ℕ, Bool, true, false, ◌&&◌, not, none, some, List, [], ◌∷◌, any, find, length, length-append, ok,
  ◌≡◌, ◌⊎◌, ◌+◌, refl, arith, Result-cases, Option-cases, Bool-cases, inl, inr, ◌==◌, ℕ_eq,
  String_eq, if◌then◌else◌,
}
use egras.Audit.Model.{Stamp, organisation_role_assigned}
use egras.Tenants.Repository.{
  Db, Query, Role, User, UserKind, human, service_account, ServiceAccount, Membership,
  is_member_row, is_role_row, insert_row, assign, find_by_code, is_member, has_role, find_user,
  find_service_account,
}
use egras.Tenants.Repository.Owners.{any-append}
use egras.Tenants.Services.{
  World, AssignRoleInput, assign_role, assign_db, assign_checked, check_actor, check_home, home_of,
}

-- The target is no known user, or a human, or a service account of the organisation.
abbrev pub IsHome : AssignRoleInput → Db → Type 0
IsHome input db =
    (find (λ (v : User). v.id == input.target_user_id) db.users ≡ none)
    ⊎ ((u : User) × (find (λ (v : User). v.id == input.target_user_id) db.users ≡ some u)
        × (u.kind ≡ human))
    ⊎ ((s : ServiceAccount) × (find
            (λ (r : ServiceAccount).
              r.organisation_id == input.organisation_id && r.user_id == input.target_user_id)
            db.service_accounts
          ≡ some s))

pub any-insert_new :
    (user org role at : ℕ) (rows : List Membership)
    → any (is_role_row user org role) (
        insert_row
          (record { user_id = user; organisation_id = org; role_id = role; created_at = at })
          rows)
      ≡ true
unfolding insert_row
any-insert_new user org role at rows =
    let new : Membership = record {
      user_id = user;
      organisation_id = org;
      role_id = role;
      created_at = at;
    } in
    ground (arith, any-append (is_role_row user org role) rows (new ∷ []))

module _ (fails : Query → Bool) (now : ℕ) (stamp : Stamp) where
  check_actor_sound :
      (actor : ℕ) (is_operator : Bool) (org : ℕ) (db : Db)
      → check_actor fails now stamp actor is_operator org db ≡ ok tt
      → (is_operator ≡ true) ⊎ (any (is_member_row actor org) db.memberships ≡ true)
  unfolding check_actor is_member
  check_actor_sound actor true org db h = inl refl
  check_actor_sound actor false org db h = inr (ground arith)

  home_of_sound :
      (org target : ℕ) (kind : UserKind) (db : Db)
      → home_of fails now stamp org target kind db ≡ ok tt
      → (kind ≡ human)
        ⊎ ((s : ServiceAccount) × (find
                (λ (r : ServiceAccount). r.organisation_id == org && r.user_id == target)
                db.service_accounts
              ≡ some s))
  unfolding home_of find_service_account
  home_of_sound org target human db h = inl refl
  home_of_sound org target service_account db h =
      elim (Option-cases (
        find (λ (r : ServiceAccount). r.organisation_id == org && r.user_id == target)
          db.service_accounts)) [
            | inl missing ↦ absurd (ground arith)
            | inr (s, found) ↦ inr (s, found)
          ]

  check_home_sound :
      (input : AssignRoleInput) (db : Db)
      → check_home fails now stamp input.organisation_id input.target_user_id db ≡ ok tt
      → IsHome input db
  unfolding check_home find_user
  check_home_sound input db h =
      elim (Option-cases (find (λ (v : User). v.id == input.target_user_id) db.users)) [
        | inl unknown ↦ inl unknown
        | inr (u, found) ↦
            elim (home_of_sound input.organisation_id input.target_user_id u.kind db
              (ground arith)) [
                | inl person ↦ inr (inl (u, found, person))
                | inr home ↦ inr (inr home)
              ]
      ]

  -- What a checked assignment has found, and what it leaves.
  assign_checked_sound :
      (input : AssignRoleInput) (db db' : Db) (was_new : Bool)
      → assign_checked fails now stamp input db ≡ ok (was_new, db')
      → (any (is_member_row input.target_user_id input.organisation_id) db.memberships ≡ true)
        × ((role : Role) × (find (λ (r : Role). r.code == input.role_code) db.roles ≡ some role)
            × (any (is_role_row input.target_user_id input.organisation_id role.id) db.memberships
                ≡ not was_new)
            × (any (is_role_row input.target_user_id input.organisation_id role.id) db'.memberships
                ≡ true))
  unfolding assign_checked find_by_code is_member has_role assign
  assign_checked_sound input db db' was_new h =
      let member = λ (m : Membership). is_member_row input.target_user_id input.organisation_id m in
      elim (Option-cases (find (λ (r : Role). r.code == input.role_code) db.roles)) [
        | inl unknown ↦ absurd (ground arith)
        | inr (role, known) ↦ elim (Bool-cases (any member db.memberships)) [
          | inr foreign ↦ absurd (ground (arith, foreign))
          | inl target ↦
              let rows : db'.memberships
                  ≡ insert_row
                      (record {
                        user_id = input.target_user_id;
                        organisation_id = input.organisation_id;
                        role_id = role.id;
                        created_at = now;
                      })
                      db.memberships =
                ground arith in
              (
                target,
                (
                  role,
                  known,
                  ground arith,
                  rw rows (
                      any-insert_new input.target_user_id input.organisation_id role.id now
                        db.memberships),
                ),
              )
        ]
      ]

  -- An assignment that succeeds was asked by an operator or by a member of the organisation; its target
  -- is a member, and if it is a service account, then one of the organisation. The target holds the
  -- role afterwards; the answer says whether it did not before, and only then an event is recorded.
  pub assign_role_sound :
      (actor actor_org : ℕ) (is_operator : Bool) (input : AssignRoleInput) (w : World)
      (was_new : Bool)
      → (assign_role fails now stamp actor actor_org is_operator input w).0 ≡ ok was_new
      → let w' = (assign_role fails now stamp actor actor_org is_operator input w).1 in
        let user = input.target_user_id in
        let org = input.organisation_id in
        ((is_operator ≡ true) ⊎ (any (is_member_row actor org) w.db.memberships ≡ true))
        × IsHome input w.db
        × (any (is_member_row user org) w.db.memberships ≡ true)
        × (length w'.audit ≡ length w.audit + (if was_new then 1 else 0))
        × (role : Role) × (find (λ (r : Role). r.code == input.role_code) w.db.roles ≡ some role)
        × (any (is_role_row user org role.id) w.db.memberships ≡ not was_new)
        × (any (is_role_row user org role.id) w'.db.memberships ≡ true)
  unfolding assign_role assign_db
  assign_role_sound actor actor_org is_operator input w was_new h =
      elim (Result-cases (assign_db fails now stamp actor is_operator input w.db)) [
        | inr (e, failed) ↦ absurd (ground (arith, failed))
        | inl ((new, db'), done) ↦
            let same : new ≡ was_new = ground (arith, done) in
            let asked =
              check_actor_sound actor is_operator input.organisation_id w.db (ground arith) in
            let home = check_home_sound input w.db (ground arith) in
            let (target, (role, known, before, after)) =
              assign_checked_sound input w.db db' new (ground arith) in
            let event =
              organisation_role_assigned stamp actor actor_org input.organisation_id
                input.target_user_id input.role_code in
            let grown = length-append w.audit (event ∷ []) in
            (
              asked,
              home,
              target,
              ground (arith, done, same, grown),
              role,
              known,
              ground (arith, before, same),
              ground (arith, done, after),
            )
      ]
