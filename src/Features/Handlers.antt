-- ===== src/Features/Handlers.antt =====
-- src/features/interface.rs: the handlers of feature flags, with the extractors in the order of their
-- parameters. The writing handlers take no RequireHumanCaller, so an API key may use them.
pub mod Home
pub mod Tests
use egras.Prelude.{
  ℕ, String, Bool, ◌&&◌, not, Option, none, some, List, find, Result, ok, err, ◌>>=◌, ok_or,
  map_err, ◌==◌, String_eq, ℕ_eq, if◌then◌else◌,
}
use egras.Json.{Value}
use egras.Error.{AppError, not_found, internal}
use egras.Audit.Model.{Stamp}
use egras.Auth.Permissions.{Extensions, is_operator_over_tenants}
use egras.Auth.Extractors.{
  AuthedCaller, Permission, features_read, features_manage, tenants_manage_all, authed_caller,
  require_perm,
}
use egras.Features.Model.{
  FeatureDefinition, EvaluatedFeature, Reason, expected_boolean, expected_string, expected_integer,
  expected_array_of_strings,
}
use egras.Features.Repository.{Db, Query, list_definitions}
use egras.Features.Evaluate.{PgFeatureEvaluator}
use egras.Features.Service.{
  World, SetOrgFeatureError, ClearOrgFeatureError, set_org_feature, clear_org_feature,
  list_org_features,
}

reason_text : Reason → String
reason_text expected_boolean = "expected boolean"
reason_text expected_string = "expected string"
reason_text expected_integer = "expected integer"
reason_text expected_array_of_strings = "expected array of strings"

set_response : SetOrgFeatureError → AppError
unfolding reason_text
set_response SetOrgFeatureError.unknown_slug = AppError.feature_unknown
set_response SetOrgFeatureError.not_self_service = AppError.feature_not_self_service
set_response (SetOrgFeatureError.invalid_value reason) =
    AppError.feature_invalid_value (reason_text reason)
set_response SetOrgFeatureError.other = AppError.internal

clear_response : ClearOrgFeatureError → AppError
clear_response ClearOrgFeatureError.unknown_slug = AppError.feature_unknown
clear_response ClearOrgFeatureError.not_self_service = AppError.feature_not_self_service
clear_response ClearOrgFeatureError.other = AppError.internal

-- The caller, if the organisation is the caller's own or the caller is an operator.
abbrev pub authorised : Permission → Extensions → ℕ → Result AppError AuthedCaller
authorised p parts org_id = do
  caller ← authed_caller parts
  _ ← require_perm p parts
  if not (is_operator_over_tenants caller.permissions) && not (caller.claims.org == org_id)
      then err (AppError.not_found "organisation")
      else ok caller

-- `before` is the order of the database's collation.
module _ (fails : Query → Bool) (before : String → String → Bool) (now : ℕ) where
  pub get_definitions : Extensions → Db → Result AppError (List FeatureDefinition)
  get_definitions parts db = do
    _ ← require_perm tenants_manage_all parts
    map_err (λ _. AppError.internal) (list_definitions fails before db)

  pub get_org_features : Extensions → ℕ → World → Result AppError (List EvaluatedFeature) × World
  get_org_features parts org_id w = elim (authorised features_read parts org_id) [
    | err e ↦ (err e, w)
    | ok caller ↦
        let (features, evaluator) = list_org_features fails before now org_id w in
        (ok_or features AppError.internal, record w { evaluator = evaluator })
  ]

  -- The state of the flag after the write, out of the listing.
  pub evaluated : ℕ → String → World → Result AppError EvaluatedFeature × World
  evaluated org_id slug w =
      let (features, evaluator) = list_org_features fails before now org_id w in
      (
        do
          listed ← ok_or features AppError.internal
          ok_or (find (λ (f : EvaluatedFeature). f.slug == slug) listed) AppError.feature_unknown,
        record w { evaluator = evaluator },
      )

  pub put_org_feature :
      (ℕ → Bool)
      → Stamp
      → Extensions
      → ℕ
      → String
      → Value
      → World
      → Result AppError EvaluatedFeature × World
  unfolding evaluated set_response
  put_org_feature is_i64 stamp parts org_id slug value w =
      elim (authorised features_manage parts org_id) [
        | err e ↦ (err e, w)
        | ok caller ↦
            let (answer, w') =
              set_org_feature fails is_i64 now stamp
                (record {
                  organisation_id = org_id;
                  slug = slug;
                  value = value;
                  actor_user_id = caller.claims.sub;
                  actor_org_id = caller.claims.org;
                  actor_is_operator = is_operator_over_tenants caller.permissions;
                })
                w in
            elim answer [ err e ↦ (err (set_response e), w') | ok _ ↦ evaluated org_id slug w' ]
      ]

  pub delete_org_feature :
      Stamp → Extensions → ℕ → String → World → Result AppError (Unit {0}) × World
  unfolding clear_response
  delete_org_feature stamp parts org_id slug w = elim (authorised features_manage parts org_id) [
    | err e ↦ (err e, w)
    | ok caller ↦
        let (answer, w') =
          clear_org_feature fails stamp
            (record {
              organisation_id = org_id;
              slug = slug;
              actor_user_id = caller.claims.sub;
              actor_org_id = caller.claims.org;
              actor_is_operator = is_operator_over_tenants caller.permissions;
            })
            w in
        (map_err clear_response answer, w')
  ]
