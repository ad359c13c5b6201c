-- ===== src/Features/Handlers/Home.antt =====
-- A caller who is no operator writes flags of the own organisation only.
use egras.Prelude.{
  ℕ, String, Bool, false, ok, err, ◌==◌, ℕ_eq, ◌≡◌, refl, inl, inr, sym, ap, ◌∙◌, Bool-cases,
  Result-cases, arith,
}
use egras.Json.{Value}
use egras.Error.{AppError}
use egras.Audit.Model.{Stamp}
use egras.Auth.Permissions.{Extensions, is_operator_over_tenants}
use egras.Auth.Extractors.{AuthedCaller, Permission, features_manage, authed_caller, require_perm}
use egras.Features.Repository.{Db, Query, override_row}
use egras.Features.Service.{World, set_org_feature}
use egras.Features.Service.Abroad.{
  SameAbroad, set_org_feature-SameAbroad, clear_org_feature-SameAbroad,
}
use egras.Features.Handlers.{authorised, evaluated, put_org_feature, delete_org_feature}

-- A request that writes a flag.
pub data Write : Type 0 where
  putting : (ℕ → Bool) → Value → Write
  deleting : Write

-- Who passes for an organisation without being an operator belongs to it.
authorised_home :
    (p : Permission) (parts : Extensions) (org_id : ℕ) (caller a : AuthedCaller)
    → authed_caller parts ≡ ok caller
    → is_operator_over_tenants caller.permissions ≡ false
    → authorised p parts org_id ≡ ok a
    → (caller ≡ a) × (caller.claims.org ≡ org_id)
authorised_home p parts org_id caller a is_caller plain e =
    elim (Result-cases (require_perm p parts)) [
      | inr (_, denied) ↦ absurd (ground arith)
      | inl (_, granted) ↦ elim (Bool-cases (caller.claims.org == org_id)) [
        | inr elsewhere ↦ absurd (ground arith)
        | inl home ↦ (ground arith, ground arith)
      ]
    ]

module _ (fails : Query → Bool) (before : String → String → Bool) (now : ℕ) (stamp : Stamp)
    (parts : Extensions) (org_id : ℕ) (slug : String) where
  pub write : Write → World → World
  write (putting is_i64 value) w =
      (put_org_feature fails before now is_i64 stamp parts org_id slug value w).1
  write deleting w = (delete_org_feature fails before now stamp parts org_id slug w).1

  put_db :
      (is_i64 : ℕ → Bool) (value : Value) (a : AuthedCaller) (w : World)
      → authorised features_manage parts org_id ≡ ok a
      → (put_org_feature fails before now is_i64 stamp parts org_id slug value w).1.db
        ≡ (set_org_feature fails is_i64 now stamp
            (record {
              organisation_id = org_id;
              slug = slug;
              value = value;
              actor_user_id = a.claims.sub;
              actor_org_id = a.claims.org;
              actor_is_operator = is_operator_over_tenants a.permissions;
            })
            w).1.db
  unfolding put_org_feature evaluated
  put_db is_i64 value a w let_in =
      rw (let_in, put_org_feature)
        (elim (Result-cases
          (set_org_feature fails is_i64 now stamp
            (record {
              organisation_id = org_id;
              slug = slug;
              value = value;
              actor_user_id = a.claims.sub;
              actor_org_id = a.claims.org;
              actor_is_operator = is_operator_over_tenants a.permissions;
            })
            w).0) [ inr (_, failed) ↦ rw failed refl | inl (_, done) ↦ rw done refl ])

  put_refused :
      (is_i64 : ℕ → Bool) (value : Value) (e : AppError) (w : World)
      → authorised features_manage parts org_id ≡ err e
      → (put_org_feature fails before now is_i64 stamp parts org_id slug value w).1 ≡ w
  unfolding put_org_feature
  put_refused is_i64 value e w refused = rw (refused, put_org_feature) refl

  -- Whatever organisation and flag the path of a write names: the overrides of other organisations
  -- than that of the caller's claims stay as they are, if the caller is no operator over tenants.
  pub flags_abroad_stay :
      (caller : AuthedCaller) (asked : Write) (w : World)
      → authed_caller parts ≡ ok caller
      → is_operator_over_tenants caller.permissions ≡ false
      → SameAbroad caller.claims.org w (write asked w)
  unfolding write delete_org_feature
  flags_abroad_stay caller (putting is_i64 value) w is_caller plain o s other =
      elim (Result-cases (authorised features_manage parts org_id)) [
        | inr (e, refused) ↦
            ap (λ (v : World). override_row o s v.db.overrides)
              (put_refused is_i64 value e w refused)
        | inl (a, let_in) ↦
            let (_, home) =
              authorised_home features_manage parts org_id caller a is_caller plain let_in in
            ap (λ (d : Db). override_row o s d.overrides) (put_db is_i64 value a w let_in)
            ∙ set_org_feature-SameAbroad fails stamp is_i64 now _ w o s (λ e. other (e ∙ sym home))
      ]
  flags_abroad_stay caller deleting w is_caller plain o s other =
      elim (Result-cases (authorised features_manage parts org_id)) [
        | inr (_, refused) ↦ rw (refused, write, delete_org_feature) refl
        | inl (a, let_in) ↦
            let (_, home) =
              authorised_home features_manage parts org_id caller a is_caller plain let_in in
            rw (let_in, write, delete_org_feature)
              (clear_org_feature-SameAbroad fails stamp _ w o s (λ e. other (e ∙ sym home)))
      ]
