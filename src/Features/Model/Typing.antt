-- ===== src/Features/Model/Typing.antt =====
-- What it is for a value to have a declared type, and that `validate` decides it.
use mathlib.Core.Bool.{and-eq-true_iff}
use egras.Prelude.{ℕ, Bool, true, List, [], ◌∷◌, all, All, ok, ◌≡◌, ◌↔◌, refl, arith}
use egras.Json
use egras.Json.{Value, items, is_string}
use egras.Features.Model.{FeatureValueType, bool, string, int, enum_set, json, validate}

module _ (is_i64 : ℕ → Bool) where
  -- The types as the wiki describes them, by what a value of each looks like.
  pub data HasType : FeatureValueType → Value → Type 0 where
    a_bool : {b : Bool} → HasType bool (Json.bool b)
    a_string : {s : _} → HasType string (Json.string s)
    an_int : {n : ℕ} → is_i64 n ≡ true → HasType int (Json.number n)
    strings :
        {vs : Json.Items}
        → All (λ v. is_string v ≡ true) (items vs)
        → HasType enum_set (Json.array vs)
    anything : {v : Value} → HasType json v

all_sound : (vs : List Value) → all is_string vs ≡ true → All (λ v. is_string v ≡ true) vs
all_sound [] h = tt
all_sound (v ∷ vs) h = let (p, q) = (and-eq-true_iff _ _).0 h in (p, all_sound vs q)

all_complete : (vs : List Value) → All (λ v. is_string v ≡ true) vs → all is_string vs ≡ true
all_complete [] h = refl
all_complete (v ∷ vs) (p, h) = (and-eq-true_iff _ _).1 (p, all_complete vs h)

module _ (is_i64 : ℕ → Bool) where
  validate_sound :
      (t : FeatureValueType) (v : Value) → validate is_i64 t v ≡ ok tt → HasType is_i64 t v
  unfolding validate
  validate_sound bool (Json.bool b) h = a_bool
  validate_sound string (Json.string s) h = a_string
  validate_sound int (Json.number n) h = an_int (ground arith)
  validate_sound enum_set (Json.array vs) h = strings (all_sound (items vs) (ground arith))
  validate_sound json v h = anything
  validate_sound _ _ h = cc

  validate_complete :
      {t : FeatureValueType} {v : Value} → HasType is_i64 t v → validate is_i64 t v ≡ ok tt
  unfolding validate
  validate_complete a_bool = refl
  validate_complete a_string = refl
  validate_complete (an_int h) = rw h
  validate_complete (strings {vs} h) = rw (all_complete (items vs) h)
  validate_complete anything = refl

  -- `validate` accepts exactly the values of the declared type: Booleans, strings, numbers that fit
  -- an `i64`, arrays of strings only, and for `json` every value.
  pub validate_iff :
      (t : FeatureValueType) (v : Value) → (validate is_i64 t v ≡ ok tt) ↔ HasType is_i64 t v
  validate_iff t v = (validate_sound t v, validate_complete)
