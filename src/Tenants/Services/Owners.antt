-- ===== src/Tenants/Services/Owners.antt =====
-- No sequence of calls of the services takes the last owner from an organisation.
use mathlib.Core.Path.{subst}
use egras.Prelude.{
  ℕ, Bool, true, false, ◌&&◌, not, List, [], ◌∷◌, any, none, some, ok, ◌≡◌, sym, ◌↔◌, ◌⊎◌, arith,
  Result-cases, inl, inr, ◌==◌, ℕ_eq,
}
use egras.Audit.Model.{Stamp}
use egras.Tenants.Repository.{
  Db, Query, Membership, remove_query, is_member_row, is_owner_row, add_member,
  remove_member_checked, assign, find_by_code,
}
use egras.Tenants.Repository.Owners.{
  HasOwner, remove-HasOwner, add-HasOwner, assign-HasOwner, any_of_count, any_of_count_zero,
}
use egras.Tenants.Services.{
  World, AddUserToOrganisationInput, RemoveUserFromOrganisationInput, AssignRoleInput,
  add_user_to_organisation, remove_user_from_organisation, assign_role, assign_db, assign_checked,
}

-- What a call meets: the faults of the database, its clock, and the stamp of its event.
pub record Meets : Type 0 where
  pub fails : Query → Bool
  pub now : ℕ
  pub stamp : Stamp

pub data Call : Type 0 where
  adding : Meets → (actor actor_org : ℕ) → AddUserToOrganisationInput → Call
  removing : Meets → (actor actor_org : ℕ) → RemoveUserFromOrganisationInput → Call
  assigning : Meets → (actor actor_org : ℕ) → (is_operator : Bool) → AssignRoleInput → Call

pub apply : Call → World → World
apply (adding m actor org input) w =
    (add_user_to_organisation m.fails m.now m.stamp actor org input w).1
apply (removing m actor org input) w =
    (remove_user_from_organisation m.fails m.now m.stamp actor org input w).1
apply (assigning m actor org is_operator input) w =
    (assign_role m.fails m.now m.stamp actor org is_operator input w).1

pub apply_all : List Call → World → World
apply_all [] w = w
apply_all (c ∷ calls) w = apply_all calls (apply c w)

module _ (fails : Query → Bool) (now : ℕ) (stamp : Stamp) where
  assign_checked-HasOwner :
      (input : AssignRoleInput) (db db' : Db) (was_new : Bool) (o : ℕ)
      → assign_checked fails now stamp input db ≡ ok (was_new, db')
      → HasOwner db o
      → HasOwner db' o
  unfolding assign_checked
  assign_checked-HasOwner input db db' was_new o done h =
      elim (Result-cases (find_by_code fails input.role_code db)) [
        | inr (e, failed) ↦ absurd (ground arith)
        | inl (none, unknown) ↦ absurd (ground arith)
        | inl (some role, known) ↦
            elim (Result-cases
              (assign fails now input.target_user_id input.organisation_id role.id db)) [
                | inr (e, failed) ↦ absurd (ground arith)
                | inl (db'', stored) ↦
                    let same : db'' ≡ db' = ground arith in
                    rw (← same) (
                      assign-HasOwner fails now input.target_user_id input.organisation_id role.id o
                        db db'' stored h)
              ]
      ]

  assign_db-HasOwner :
      (actor : ℕ) (is_operator : Bool) (input : AssignRoleInput) (db db' : Db) (was_new : Bool)
      (o : ℕ)
      → assign_db fails now stamp actor is_operator input db ≡ ok (was_new, db')
      → HasOwner db o
      → HasOwner db' o
  unfolding assign_db
  assign_db-HasOwner actor is_operator input db db' was_new o done h =
      assign_checked-HasOwner input db db' was_new o (ground arith) h

apply-HasOwner : (c : Call) (w : World) (o : ℕ) → HasOwner w.db o → HasOwner (apply c w).db o
unfolding apply add_user_to_organisation remove_user_from_organisation assign_role
apply-HasOwner (adding m actor org input) w o h =
    elim (Result-cases (add_member m.fails m.now input.user_id input.org_id input.role_code w.db)) [
      | inr (e, failed) ↦
          let same : (apply (adding m actor org input) w).db ≡ w.db = ground (arith, failed) in
          subst (λ db. HasOwner db o) (sym same) h
      | inl (db, done) ↦
          let same : (apply (adding m actor org input) w).db ≡ db = ground (arith, done) in
          subst (λ db. HasOwner db o) (sym same)
            (add-HasOwner m.fails m.now input.user_id input.org_id o input.role_code w.db db done h)
    ]
apply-HasOwner (removing m actor org input) w o h =
    elim (Result-cases (remove_member_checked m.fails input.user_id input.org_id w.db)) [
      | inr (e, failed) ↦
          let same : (apply (removing m actor org input) w).db ≡ w.db = ground (arith, failed) in
          subst (λ db. HasOwner db o) (sym same) h
      | inl (db, done) ↦
          let same : (apply (removing m actor org input) w).db ≡ db = ground (arith, done) in
          subst (λ db. HasOwner db o) (sym same)
            (remove-HasOwner m.fails input.user_id input.org_id o w.db db done h)
    ]
apply-HasOwner (assigning m actor org is_operator input) w o h =
    elim (Result-cases (assign_db m.fails m.now m.stamp actor is_operator input w.db)) [
      | inr (e, failed) ↦
          let same : (apply (assigning m actor org is_operator input) w).db ≡ w.db =
            ground (arith, failed) in
          subst (λ db. HasOwner db o) (sym same) h
      | inl ((was_new, db), done) ↦
          let same : (apply (assigning m actor org is_operator input) w).db ≡ db =
            ground (arith, done) in
          subst (λ db. HasOwner db o) (sym same)
            (assign_db-HasOwner m.fails m.now m.stamp actor is_operator input w.db db was_new o done
              h)
    ]

-- No sequence of calls that add members, remove members and assign roles, by any actors and with any
-- faults of the database, leaves an organisation that has an owner without one.
pub calls_keep_owner :
    (calls : List Call) (w : World) (org : ℕ)
    → HasOwner w.db org
    → HasOwner (apply_all calls w).db org
unfolding apply_all
calls_keep_owner [] w org h = h
calls_keep_owner (c ∷ calls) w org h =
    calls_keep_owner calls (apply c w) org (apply-HasOwner c w org h)

-- The removal goes through exactly when the user is a member, and is no owner or not the only one;
-- if its transaction does not fail.
pub remove_user-ok_iff :
    (fails : Query → Bool) (now : ℕ) (stamp : Stamp) (actor actor_org : ℕ)
    (input : RemoveUserFromOrganisationInput) (w : World)
    → fails remove_query ≡ false
    → ((remove_user_from_organisation fails now stamp actor actor_org input w).0 ≡ ok tt) ↔ (
        (any (is_member_row input.user_id input.org_id) w.db.memberships ≡ true)
        × ((any
                (λ (m : Membership).
                  is_member_row input.user_id input.org_id m && is_owner_row w.db.roles m)
                w.db.memberships
              ≡ false)
            ⊎ (any
                  (λ (m : Membership).
                    m.organisation_id == input.org_id
                    && is_owner_row w.db.roles m
                    && not (m.user_id == input.user_id))
                  w.db.memberships
                ≡ true)))
unfolding remove_user_from_organisation remove_member_checked
remove_user-ok_iff fails now stamp actor actor_org input w works =
    let others = λ (m : Membership).
      m.organisation_id == input.org_id
      && is_owner_row w.db.roles m
      && not (m.user_id == input.user_id) in
    let counted = any_of_count others w.db.memberships in
    let none_counted = any_of_count_zero others w.db.memberships in
    (λ h. ground arith, λ h. ground arith)
