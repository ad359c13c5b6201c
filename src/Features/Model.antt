-- ===== src/Features/Model.antt =====
-- src/features/model.rs: value types of flags, their names and their validation.
pub mod Names
pub mod Typing
use egras.Prelude.{
  ℕ, String, Bool, true, false, Option, none, some, List, all, Result, ok, err, ◌==◌, String_eq,
  if◌then◌else◌,
}
use egras.Json
use egras.Json.{Value, items, is_string}

pub data FeatureValueType : Type 0 where
  bool string int enum_set json : FeatureValueType

pub as_str : FeatureValueType → String
as_str bool = "bool"
as_str string = "string"
as_str int = "int"
as_str enum_set = "enum_set"
as_str json = "json"

unfoldable pub try_from_str : String → Option FeatureValueType
try_from_str s =
    if s == "bool"
    then some bool
    else if s == "string"
    then some string
    else if s == "int"
    then some int
    else if s == "enum_set"
    then some enum_set
    else if s == "json"
    then some json
    else none

-- The reasons that `validate` gives.
pub data Reason : Type 0 where
  expected_boolean expected_string expected_integer expected_array_of_strings : Reason

-- `is_i64` is serde_json's `Number::is_i64`.
module _ (is_i64 : ℕ → Bool) where
  unfoldable pub validate : FeatureValueType → Value → Result Reason (Unit {0})
  validate bool (Json.bool _) = ok tt
  validate string (Json.string _) = ok tt
  validate int (Json.number n) = if is_i64 n then ok tt else err expected_integer
  validate enum_set (Json.array vs) =
      if all is_string (items vs) then ok tt else err expected_array_of_strings
  validate json _ = ok tt
  validate bool _ = err expected_boolean
  validate string _ = err expected_string
  validate int _ = err expected_integer
  validate enum_set _ = err expected_array_of_strings

pub record FeatureDefinition : Type 0 where
  pub slug : String
  pub value_type : FeatureValueType
  pub default_value : Value
  pub description : String
  pub self_service : Bool

pub record OrgFeatureOverride : Type 0 where
  pub organisation_id : ℕ
  pub slug : String
  pub value : Value
  pub updated_at : ℕ
  pub updated_by : ℕ

pub data FeatureSource : Type 0 where
  default override : FeatureSource

pub record EvaluatedFeature : Type 0 where
  pub slug : String
  pub value : Value
  pub source : FeatureSource
  pub value_type : FeatureValueType
  pub self_service : Bool
