-- ===== src/Features/Model/Names.antt =====
-- The names of value types, as they stand in the database.
use egras.Prelude.{String, ◌≡◌, ◌↔◌, refl, some, arith, beq_iff, String_eq}
use egras.Features.Model.{FeatureValueType, bool, string, int, enum_set, json, as_str, try_from_str}

try_from_str-as_str : (t : FeatureValueType) → try_from_str (as_str t) ≡ some t
unfolding try_from_str as_str
try_from_str-as_str bool = refl
try_from_str-as_str string = refl
try_from_str-as_str int = refl
try_from_str-as_str enum_set = refl
try_from_str-as_str json = refl

as_str-try_from_str : (s : String) (t : FeatureValueType) → try_from_str s ≡ some t → s ≡ as_str t
unfolding try_from_str as_str
as_str-try_from_str s t h = ground (
  arith,
  beq_iff s "bool",
  beq_iff s "string",
  beq_iff s "int",
  beq_iff s "enum_set",
  beq_iff s "json",
)

-- A name is read as a value type exactly when it is the name that the type is written under.
pub try_from_str_iff :
    (s : String) (t : FeatureValueType) → (try_from_str s ≡ some t) ↔ (s ≡ as_str t)
try_from_str_iff s t = (as_str-try_from_str s t, λ same. rw same (try_from_str-as_str t))
