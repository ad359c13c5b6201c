-- ===== src/Features/Repository/Tests.antt =====
-- Queries on a catalogue of two flags, which the table does not hold in order.
use egras.Prelude.{
  String, Bool, true, false, ◌&&◌, not, ◌==◌, String_eq, ok, [], ◌∷◌, ◌≡◌, refl, arith,
}
use egras.Json
use egras.Features.Model.{FeatureDefinition, int, enum_set, try_from_str}
use egras.Features.Repository.{
  list_definitions, of_rows, order_by_slug, insert_by_slug, list_overrides_for_org,
}
use egras.Features.Repository.Order.{IsCollation}
use egras.Features.Evaluate.Tests.{catalogue, headers, no_faults}

-- An order in which one slug comes before every other.
abbrev pub first : String → String → Bool
first a b = a == "auth.api_key_headers" && not (b == "auth.api_key_headers")

pub first-IsCollation : IsCollation first
first-IsCollation = record {
  asymmetric = λ s t e. ground arith;
  not_before-trans = λ s t u e f. ground arith;
}

abbrev pub limit_definition : FeatureDefinition
limit_definition = record {
  slug = "limit";
  value_type = int;
  default_value = Json.number 1;
  description = "";
  self_service = true;
}

abbrev pub headers_definition : FeatureDefinition
headers_definition = record {
  slug = "auth.api_key_headers";
  value_type = enum_set;
  default_value = headers;
  description = "";
  self_service = false;
}

pub catalogue_listed :
    list_definitions no_faults first catalogue ≡ ok (headers_definition ∷ limit_definition ∷ [])
unfolding list_definitions of_rows order_by_slug insert_by_slug try_from_str
catalogue_listed = refl

pub catalogue_overrides : list_overrides_for_org no_faults first 1 catalogue ≡ ok []
unfolding list_overrides_for_org order_by_slug
catalogue_overrides = refl
