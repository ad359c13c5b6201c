-- ===== src/Features/Service/Tests.antt =====
-- Setting and clearing a flag of the catalogue.
use egras.Features.Model.{EvaluatedFeature, default}
use egras.Features.Repository.{DefinitionRow}
use egras.Features.Repository.Tests.{
  first, first-IsCollation, catalogue_listed, catalogue_overrides,
}
use egras.Features.Repository.Order.{IsOrdered}
use egras.Features.Service.{list_from, list_org_features}
use egras.Features.Service.Listing.{IsRecent, list_org_features_sound}
use egras.Prelude.{
  String, ◌∷◌, All, count, ℕ, Bool, true, false, ok, err, some, [], ◌≡◌, ◌↔◌, refl, arith, ◌==◌,
  String_eq, ℕ_eq, inl, inr, Bool-cases,
}
use egras.Json
use egras.Json.{Value}
use egras.Audit.Model.{Stamp}
use egras.Features.Model.{int, enum_set, try_from_str, validate}
use egras.Features.Model.Typing.{HasType, an_int, strings}
use egras.Features.Repository.{
  definition_row, override_row, get_definition, upsert_override, delete_override,
}
use egras.Features.Evaluate.{evaluate, with_ttl, fill}
use egras.Features.Evaluate.Staleness.{start}
use egras.Features.Evaluate.Tests.{
  catalogue, headers, limit_row, headers_row, no_faults, limit_read, limit_loaded, headers_read,
  limit_read_next,
}
use egras.Features.Service.{
  World, SetOrgFeatureInput, ClearOrgFeatureInput, SetOrgFeatureError, ClearOrgFeatureError,
  check_set, set_org_feature, check_clear, clear_org_feature,
}
use egras.Features.Service.Guards.{MaySet, set_org_feature-ok_iff, set_org_feature_error_unchanged}
use egras.Features.Service.Visibility.{set_org_feature-evaluate}
use egras.Features.Service.Races.{stale_after_set}
use egras.Features.Service.WellTyped.{IsWellTyped, set_clear-IsWellTyped, evaluate-HasType}

abbrev world : World
world = record { db = catalogue; evaluator = with_ttl 60; audit = [] }

abbrev stamp : Stamp
stamp = record { id = 1; occurred_at = 4 }

abbrev pub fits : ℕ → Bool
fits n = true

abbrev raise : SetOrgFeatureInput
raise = record {
  organisation_id = 1;
  slug = "limit";
  value = Json.number 9;
  actor_user_id = 7;
  actor_org_id = 1;
  actor_is_operator = false;
}

abbrev misspelt : SetOrgFeatureInput
misspelt = record raise { slug = "limits" }

abbrev lower : ClearOrgFeatureInput
lower = record {
  organisation_id = 1;
  slug = "limit";
  actor_user_id = 7;
  actor_org_id = 1;
  actor_is_operator = false;
}

raise_succeeds : (set_org_feature no_faults fits 4 stamp raise world).0 ≡ ok tt
unfolding set_org_feature check_set get_definition definition_row validate upsert_override
    try_from_str
raise_succeeds = refl

misspelt_fails :
    (set_org_feature no_faults fits 4 stamp misspelt world).0 ≡ err SetOrgFeatureError.unknown_slug
unfolding set_org_feature check_set get_definition definition_row validate upsert_override
    try_from_str
misspelt_fails = refl

lower_succeeds : (clear_org_feature no_faults stamp lower world).0 ≡ ok tt
unfolding clear_org_feature check_clear get_definition definition_row delete_override try_from_str
lower_succeeds = refl

abbrev misspelt_clear : ClearOrgFeatureInput
misspelt_clear = record lower { slug = "limits" }

misspelt_clear_fails :
    (clear_org_feature no_faults stamp misspelt_clear world).0
    ≡ err ClearOrgFeatureError.unknown_slug
unfolding clear_org_feature check_clear get_definition definition_row delete_override try_from_str
misspelt_clear_fails = refl

limit_known : definition_row "limit" catalogue.definitions ≡ some limit_row
unfolding definition_row
limit_known = refl

int_name : try_from_str "int" ≡ some int
unfolding try_from_str
int_name = refl

pub catalogue-IsWellTyped : IsWellTyped fits catalogue
unfolding definition_row override_row try_from_str
catalogue-IsWellTyped = record {
  defaults = λ slug d t known decoded. elim (Bool-cases ("limit" == slug)) [
    | inl here ↦
        let row : d ≡ limit_row = ground arith in
        let type : t ≡ int = ground (arith, rw row at decoded) in rw (row, type) (an_int refl)
    | inr there ↦
        let row : d ≡ headers_row = ground arith in
        let type : t ≡ enum_set = ground (arith, rw row at decoded) in
        rw (row, type) (strings (refl, tt))
  ];
  overrides = λ org slug r t found flag. absurd (ground arith);
}

set_org_feature-evaluate_example :
    (evaluate no_faults 5 1 "limit"
      (set_org_feature no_faults fits 4 stamp raise world).1.db
      (set_org_feature no_faults fits 4 stamp raise world).1.evaluator).0
    ≡ ok (Json.number 9)
set_org_feature-evaluate_example =
    set_org_feature-evaluate no_faults no_faults fits 4 stamp 5 raise world 1 "limit" raise_succeeds
      refl

stale_after_set_example :
    (evaluate no_faults 50 1 "limit" (set_org_feature no_faults fits 4 stamp raise world).1.db (
      fill 3 1 "limit"
        (Json.number 1)
        (set_org_feature no_faults fits 4 stamp raise world).1.evaluator)).0
    ≡ ok (Json.number 1)
unfolding with_ttl
stale_after_set_example =
    stale_after_set no_faults no_faults no_faults fits 4 stamp raise world (Json.number 1) 3 50
      limit_loaded raise_succeeds (omega arith)

set_org_feature-ok_iff_example :
    ((set_org_feature no_faults fits 4 stamp raise world).0 ≡ ok tt) ↔ MaySet fits raise catalogue
set_org_feature-ok_iff_example =
    set_org_feature-ok_iff no_faults fits 4 stamp raise world refl refl refl refl

set_org_feature_error_unchanged_example :
    (set_org_feature no_faults fits 4 stamp misspelt world).1 ≡ world
set_org_feature_error_unchanged_example =
    set_org_feature_error_unchanged no_faults fits 4 stamp misspelt world
      SetOrgFeatureError.unknown_slug misspelt_fails

set_clear-IsWellTyped_example :
    ((input : SetOrgFeatureInput)
      → IsWellTyped fits (set_org_feature no_faults fits 4 stamp input world).1.db)
    × ((input : ClearOrgFeatureInput)
        → IsWellTyped fits (clear_org_feature no_faults stamp input world).1.db)
set_clear-IsWellTyped_example =
    set_clear-IsWellTyped fits no_faults 4 stamp world catalogue-IsWellTyped

evaluate-HasType_example : HasType fits int (Json.number 1)
evaluate-HasType_example =
    evaluate-HasType fits (λ _. catalogue) (λ _. no_faults) 60 5 1 "limit" (Json.number 1)
      (with_ttl 60) int (λ _. (catalogue-IsWellTyped, (limit_row, limit_known, int_name))) start
      limit_read

abbrev listed_limit : EvaluatedFeature
listed_limit = record {
  slug = "limit";
  value = Json.number 1;
  source = default;
  value_type = int;
  self_service = true;
}

abbrev listed_headers : EvaluatedFeature
listed_headers = record {
  slug = "auth.api_key_headers";
  value = headers;
  source = default;
  value_type = enum_set;
  self_service = false;
}

catalogue_answered :
    (list_org_features no_faults first 5 1 world).0 ≡ some (listed_headers ∷ listed_limit ∷ [])
unfolding list_org_features list_from
catalogue_answered =
    ground (arith, catalogue_listed, catalogue_overrides, headers_read 1, limit_read_next)

list_org_features_sound_example :
    IsOrdered first ("auth.api_key_headers" ∷ "limit" ∷ [])
    × (count (λ (s : String). s == "limit") ("auth.api_key_headers" ∷ "limit" ∷ [])
        ≡ count (λ (r : DefinitionRow). r.slug == "limit") catalogue.definitions)
    × All (IsRecent (λ _. catalogue) (λ _. no_faults) 60 5 1) (listed_headers ∷ listed_limit ∷ [])
list_org_features_sound_example =
    list_org_features_sound (λ _. catalogue) (λ _. no_faults) 60 5 1 first world
      (listed_headers ∷ listed_limit ∷ []) "limit" first-IsCollation refl start catalogue_answered
