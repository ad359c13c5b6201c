-- ===== src/Features/Evaluate/Tests.antt =====
-- A catalogue of two flags, and reads of them.
use egras.Prelude.{
  ℕ, Bool, true, false, ok, some, [], ◌∷◌, ◌≡◌, refl, ◌≤◌, ◌+◌, ltb, if◌then◌else◌, arith,
}
use egras.Json
use egras.Json.{Value}
use egras.Features.Repository.{
  Db, Query, DefinitionRow, definition_row, override_row, get_override, get_definition,
}
use egras.Features.Model.{enum_set, try_from_str}
use egras.Features.Evaluate.{
  with_ttl, evaluate, cache_hit, cache_get, cache_remove, fill, load, load_at, evaluate_at,
}
use egras.Features.Evaluate.Effective.{IsSeen}
use egras.Features.Evaluate.Staleness.{start, evaluate_staleness}

abbrev pub headers : Value
headers = Json.array (Json.of_strings ("x-api-key" ∷ []))

abbrev pub limit_row : DefinitionRow
limit_row = record {
  slug = "limit";
  value_type = "int";
  default_value = Json.number 1;
  description = "";
  self_service = true;
}

abbrev pub headers_row : DefinitionRow
headers_row = record {
  slug = "auth.api_key_headers";
  value_type = "enum_set";
  default_value = headers;
  description = "";
  self_service = false;
}

abbrev pub catalogue : Db
catalogue = record {
  definitions = limit_row ∷ headers_row ∷ [];
  overrides = [];
  organisations = 1 ∷ [];
  users = 7 ∷ [];
}

abbrev pub changed : Db
changed = record catalogue {
  definitions = record limit_row { default_value = Json.number 3 } ∷ headers_row ∷ [];
  overrides =
      record {
        organisation_id = 1;
        slug = "limit";
        value = Json.number 2;
        updated_at = 6;
        updated_by = 7;
      }
      ∷ [];
}

abbrev pub no_faults : Query → Bool
no_faults q = false

pub limit_read : (evaluate no_faults 5 1 "limit" catalogue (with_ttl 60)).0 ≡ ok (Json.number 1)
unfolding evaluate_at with_ttl cache_hit cache_get load_at get_override get_definition
    definition_row override_row try_from_str
limit_read = refl

pub limit_loaded : load no_faults 1 "limit" catalogue ≡ ok (Json.number 1)
unfolding load_at get_override get_definition definition_row override_row try_from_str
limit_loaded = refl

pub headers_read :
    (org : ℕ)
    → (evaluate no_faults 5 org "auth.api_key_headers" catalogue (with_ttl 60)).0 ≡ ok headers
unfolding evaluate_at with_ttl cache_hit cache_get load_at get_override get_definition
    definition_row override_row try_from_str
headers_read org = refl

-- The second of two reads, over the cache that the first has filled.
pub limit_read_next :
    (evaluate no_faults 5 1 "limit" catalogue
      (evaluate no_faults 5 1 "auth.api_key_headers" catalogue (with_ttl 60)).1).0
    ≡ ok (Json.number 1)
unfolding evaluate_at with_ttl cache_hit cache_get cache_remove fill load_at get_override
    get_definition definition_row override_row try_from_str
limit_read_next = refl

pub headers_known : definition_row "auth.api_key_headers" catalogue.definitions ≡ some headers_row
unfolding definition_row
headers_known = refl

pub headers_type : try_from_str "enum_set" ≡ some enum_set
unfolding try_from_str
headers_type = refl

-- Between the two queries an override commits, and then another default.
abbrev busy : ℕ → Db
busy t = if ltb t 6 then catalogue else changed

seen_apart :
    (evaluate_at no_faults no_faults 5 1 "limit" (busy 5) (busy 7) (with_ttl 60) (with_ttl 60)).0
    ≡ ok (Json.number 3)
unfolding evaluate_at with_ttl cache_hit cache_get load_at get_override get_definition
    definition_row override_row try_from_str
seen_apart = refl

evaluate_staleness_example :
    (l : ℕ) × (m : ℕ) × (l ≤ m)
    × (m ≤ 7)
    × (5 ≤ l + 60)
    × IsSeen (busy l) (busy m) 1 "limit" (Json.number 3)
evaluate_staleness_example =
    evaluate_staleness busy (λ _. no_faults) 60 5 5 5 7 1 "limit" (Json.number 3) (with_ttl 60)
      (with_ttl 60) (omega arith) (omega arith) (omega arith) start seen_apart
