-- ===== src/Features/Service/Guards.antt =====
-- Who may set or clear a flag, and with what value.
use egras.Prelude.{
  ℕ, Bool, true, false, contains, some, ok, err, ◌≡◌, ◌↔◌, ◌⊎◌, arith, Option-cases, Result-cases,
  inl, inr, String_eq, ℕ_eq,
}
use egras.Audit.Model.{Stamp}
use egras.Features.Model.{FeatureValueType, FeatureDefinition, try_from_str, validate}
use egras.Features.Model.Typing.{HasType, validate_iff}
use egras.Features.Repository.{
  Db, Query, DefinitionRow, get_definition_query, upsert_query, get_definition, definition_row,
  upsert_override, delete_override,
}
use egras.Features.Repository.Rows.{any-definition_row}
use egras.Features.Service.{
  World, SetOrgFeatureInput, SetOrgFeatureError, check_set, set_org_feature, ClearOrgFeatureInput,
  ClearOrgFeatureError, check_clear, clear_org_feature,
}

-- The flag exists, the value has its declared type, and the flag is self-service or the actor is
-- an operator.
pub record MaySet (is_i64 : ℕ → Bool) (input : SetOrgFeatureInput) (db : Db) : Type 0 where
  pub row : DefinitionRow
  pub value_type : FeatureValueType
  pub known : definition_row input.slug db.definitions ≡ some row
  pub decoded : try_from_str row.value_type ≡ some value_type
  pub typed : HasType is_i64 value_type input.value
  pub allowed : (row.self_service ≡ true) ⊎ (input.actor_is_operator ≡ true)

module _ (fails : Query → Bool) (is_i64 : ℕ → Bool) (input : SetOrgFeatureInput) (db : Db) where
  check_set_sound :
      (d : FeatureDefinition) → check_set fails is_i64 input db ≡ ok d → MaySet is_i64 input db
  unfolding check_set get_definition
  check_set_sound d h = elim (Option-cases (definition_row input.slug db.definitions)) [
    | inl unknown ↦ absurd (ground arith)
    | inr (row, known) ↦ elim (Option-cases (try_from_str row.value_type)) [
      | inl bad ↦ absurd (ground arith)
      | inr (t, good) ↦ elim (Result-cases (validate is_i64 t input.value)) [
        | inr (reason, wrong) ↦ absurd (ground arith)
        | inl (tt, right) ↦ record {
          row = row;
          value_type = t;
          known = known;
          decoded = good;
          typed = (validate_iff is_i64 t input.value).0 right;
          allowed = ground arith;
        }
      ]
    ]
  ]

  check_set_complete :
      fails (get_definition_query input.slug) ≡ false
      → MaySet is_i64 input db
      → (d : FeatureDefinition) × (check_set fails is_i64 input db ≡ ok d)
  unfolding check_set get_definition
  check_set_complete f m =
      let right = (validate_iff is_i64 m.value_type input.value).1 m.typed in
      (
        record {
          slug = m.row.slug;
          value_type = m.value_type;
          default_value = m.row.default_value;
          description = m.row.description;
          self_service = m.row.self_service;
        },
        ground (arith, m.known, m.decoded, m.allowed, right),
      )

module _ (fails : Query → Bool) (is_i64 : ℕ → Bool) (now : ℕ) (stamp : Stamp) where
  pub set_org_feature_sound :
      (input : SetOrgFeatureInput) (w : World)
      → (set_org_feature fails is_i64 now stamp input w).0 ≡ ok tt
      → MaySet is_i64 input w.db
  unfolding set_org_feature
  set_org_feature_sound input w h = elim (Result-cases (check_set fails is_i64 input w.db)) [
    | inl (d, passed) ↦ check_set_sound fails is_i64 input w.db d passed
    | inr (e, refused) ↦ absurd (ground arith)
  ]

  -- When no query fails, and the organisation and the actor exist: a set succeeds exactly when the
  -- flag exists, the value has its declared type, and the flag is self-service or the actor is an
  -- operator.
  pub set_org_feature-ok_iff :
      (input : SetOrgFeatureInput) (w : World)
      → fails (get_definition_query input.slug) ≡ false
      → fails (upsert_query input.organisation_id input.slug) ≡ false
      → contains w.db.organisations input.organisation_id ≡ true
      → contains w.db.users input.actor_user_id ≡ true
      → ((set_org_feature fails is_i64 now stamp input w).0 ≡ ok tt) ↔ MaySet is_i64 input w.db
  unfolding set_org_feature upsert_override
  set_org_feature-ok_iff input w f g org user = (
    set_org_feature_sound input w,
    λ m.
        let (d, passed) = check_set_complete fails is_i64 input w.db f m in
        ground (arith, any-definition_row input.slug w.db.definitions m.row, m.known, passed),
  )

  -- A set that fails, by a guard or by the database, leaves tables, cache and audit trail alone.
  pub set_org_feature_error_unchanged :
      (input : SetOrgFeatureInput) (w : World) (e : SetOrgFeatureError)
      → (set_org_feature fails is_i64 now stamp input w).0 ≡ err e
      → (set_org_feature fails is_i64 now stamp input w).1 ≡ w
  unfolding set_org_feature
  set_org_feature_error_unchanged input w e h =
      elim (Result-cases (check_set fails is_i64 input w.db)) [
        | inr (e', refused) ↦ ground arith
        | inl (d, passed) ↦
            elim (Result-cases (
              upsert_override fails now input.organisation_id input.slug input.value
                input.actor_user_id w.db)) [
                  | inl (r, stored) ↦ absurd (ground arith)
                  | inr (e', failed) ↦ ground arith
                ]
      ]

module _ (fails : Query → Bool) (stamp : Stamp) where
  -- A clear that fails, by a guard or by the database, leaves tables, cache and audit trail alone.
  pub clear_org_feature_error_unchanged :
      (input : ClearOrgFeatureInput) (w : World) (e : ClearOrgFeatureError)
      → (clear_org_feature fails stamp input w).0 ≡ err e
      → (clear_org_feature fails stamp input w).1 ≡ w
  unfolding clear_org_feature
  clear_org_feature_error_unchanged input w e h =
      elim (Result-cases (check_clear fails input w.db)) [
        | inr (e', refused) ↦ ground arith
        | inl (d, passed) ↦
            elim (Result-cases (delete_override fails input.organisation_id input.slug w.db)) [
              | inl (r, stored) ↦ absurd (ground arith)
              | inr (e', failed) ↦ ground arith
            ]
      ]
