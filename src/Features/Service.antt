-- ===== src/Features/Service.antt =====
-- src/features/service: setting, clearing and listing the flags of an organisation.
-- `audit` lists the events that were handed to the recorder; its result is not used.
pub mod Guards
pub mod Visibility
pub mod Races
pub mod WellTyped
pub mod Listing
pub mod Abroad
pub mod Tests
use egras.Prelude.{
  ℕ, String, Bool, true, false, ◌&&◌, not, Option, none, some, List, [], ◌∷◌, ◌++◌, any, Result, ok,
  err, ◌>>=◌, ok_or, map_err, ◌==◌, String_eq, if◌then◌else◌,
}
use egras.Json.{Value}
use egras.Audit.Model.{AuditEvent, Stamp, feature_set, feature_cleared}
use egras.Features.Model.{
  FeatureDefinition, OrgFeatureOverride, EvaluatedFeature, FeatureSource, default, override, Reason,
  validate,
}
use egras.Features.Repository.{
  Db, Query, FeatureRepoError, get_definition, upsert_override, delete_override, list_definitions,
  list_overrides_for_org,
}
use egras.Features.Evaluate.{PgFeatureEvaluator, evaluate, invalidate}

-- What a call of the services sees and changes.
pub record World : Type 0 where
  pub db : Db
  pub evaluator : PgFeatureEvaluator
  pub audit : List AuditEvent

pub record SetOrgFeatureInput : Type 0 where
  pub organisation_id : ℕ
  pub slug : String
  pub value : Value
  pub actor_user_id : ℕ
  pub actor_org_id : ℕ
  pub actor_is_operator : Bool

pub data SetOrgFeatureError : Type 0 where
  unknown_slug not_self_service other : SetOrgFeatureError
  invalid_value : Reason → SetOrgFeatureError

pub record ClearOrgFeatureInput : Type 0 where
  pub organisation_id : ℕ
  pub slug : String
  pub actor_user_id : ℕ
  pub actor_org_id : ℕ
  pub actor_is_operator : Bool

pub data ClearOrgFeatureError : Type 0 where
  unknown_slug not_self_service other : ClearOrgFeatureError

module _ (fails : Query → Bool) where
  -- Steps 1 to 3 of `set_org_feature`.
  check_set : (ℕ → Bool) → SetOrgFeatureInput → Db → Result SetOrgFeatureError FeatureDefinition
  check_set is_i64 input db = do
    found ← map_err (λ _. SetOrgFeatureError.other) (get_definition fails input.slug db)
    definition ← ok_or found SetOrgFeatureError.unknown_slug
    _ ← map_err invalid_value (validate is_i64 definition.value_type input.value)
    if not definition.self_service && not input.actor_is_operator
        then err SetOrgFeatureError.not_self_service
        else ok definition

  -- `now` is the database's clock.
  pub set_org_feature :
      (ℕ → Bool)
      → ℕ
      → Stamp
      → SetOrgFeatureInput
      → World
      → Result SetOrgFeatureError (Unit {0}) × World
  unfolding check_set
  set_org_feature is_i64 now stamp input w = elim (check_set is_i64 input w.db) [
    | err e ↦ (err e, w)
    | ok definition ↦
        elim (upsert_override fails now input.organisation_id input.slug input.value
          input.actor_user_id w.db) [
            | err e ↦ (err SetOrgFeatureError.other, w)
            | ok (old_value, db) ↦ (
              ok tt,
              record {
                db = db;
                evaluator = invalidate input.organisation_id input.slug w.evaluator;
                audit =
                    w.audit
                    ++ feature_set stamp input.actor_user_id input.actor_org_id
                        input.organisation_id input.slug old_value input.value
                        definition.self_service
                      ∷ [];
              },
            )
          ]
  ]

  -- Steps 1 and 2 of `clear_org_feature`.
  check_clear : ClearOrgFeatureInput → Db → Result ClearOrgFeatureError FeatureDefinition
  check_clear input db = do
    found ← map_err (λ _. ClearOrgFeatureError.other) (get_definition fails input.slug db)
    definition ← ok_or found ClearOrgFeatureError.unknown_slug
    if not definition.self_service && not input.actor_is_operator
        then err ClearOrgFeatureError.not_self_service
        else ok definition

  pub clear_org_feature :
      Stamp → ClearOrgFeatureInput → World → Result ClearOrgFeatureError (Unit {0}) × World
  unfolding check_clear
  clear_org_feature stamp input w = elim (check_clear input w.db) [
    | err e ↦ (err e, w)
    | ok definition ↦ elim (delete_override fails input.organisation_id input.slug w.db) [
      | err e ↦ (err ClearOrgFeatureError.other, w)
      | ok (old_value, db) ↦ (
        ok tt,
        record {
          db = db;
          evaluator = invalidate input.organisation_id input.slug w.evaluator;
          audit =
              w.audit
              ++ feature_cleared stamp input.actor_user_id input.actor_org_id input.organisation_id
                  input.slug old_value definition.self_service
                ∷ [];
        },
      )
    ]
  ]

  -- The loop of `list_org_features`; an error of the evaluator ends it.
  list_from :
      ℕ
      → ℕ
      → List OrgFeatureOverride
      → List FeatureDefinition
      → Db
      → PgFeatureEvaluator
      → Option (List EvaluatedFeature) × PgFeatureEvaluator
  list_from now org_id overrides [] db ev = (some [], ev)
  list_from now org_id overrides (def ∷ defs) db ev =
      let (value, ev') = evaluate fails now org_id def.slug db ev in
      let (rest, ev'') = list_from now org_id overrides defs db ev' in
      elim value [
        | err e ↦ (none, ev')
        | ok v ↦ elim rest [
          | none ↦ (none, ev'')
          | some features ↦ (
            some (
                record {
                  slug = def.slug;
                  value = v;
                  source =
                      if any (λ (ov : OrgFeatureOverride). ov.slug == def.slug) overrides
                      then override
                      else default;
                  value_type = def.value_type;
                  self_service = def.self_service;
                }
                ∷ features),
            ev'',
          )
        ]
      ]

  -- `none` is the error `Other`.
  pub list_org_features :
      (String → String → Bool) → ℕ → ℕ → World → Option (List EvaluatedFeature) × PgFeatureEvaluator
  unfolding list_from
  list_org_features before now org_id w = elim (list_definitions fails before w.db) [
    | err e ↦ (none, w.evaluator)
    | ok definitions ↦ elim (list_overrides_for_org fails before org_id w.db) [
      | err e ↦ (none, w.evaluator)
      | ok overrides ↦ list_from now org_id overrides definitions w.db w.evaluator
    ]
  ]
