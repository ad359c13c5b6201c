-- ===== src/Features/Evaluate/Effective.antt =====
-- The effective value of a flag, as a relation, and that `load` computes it; and the value that two
-- queries see when the tables change between them.
use egras.Prelude.{ℕ, String, Bool, false, none, some, ok, ◌≡◌, arith, Option-cases, inl, inr}
use egras.Json.{Value}
use egras.Features.Model.{FeatureValueType, OrgFeatureOverride, try_from_str}
use egras.Features.Repository.{
  Db, Query, DefinitionRow, get_override_query, get_definition_query, get_override, get_definition,
  override_row, definition_row,
}
use egras.Features.Evaluate.{load, load_at}

-- The override of the organisation, if the first tables have one, and else the default of the
-- definition in the second tables.
pub data IsSeen (db db' : Db) (org : ℕ) (slug : String) (v : Value) : Type 0 where
  overridden :
      (r : OrgFeatureOverride)
      → override_row org slug db.overrides ≡ some r
      → v ≡ r.value
      → IsSeen db db' org slug v
  defaulted :
      (d : DefinitionRow) (t : FeatureValueType)
      → override_row org slug db.overrides ≡ none
      → definition_row slug db'.definitions ≡ some d
      → try_from_str d.value_type ≡ some t
      → v ≡ d.default_value
      → IsSeen db db' org slug v

-- What tables at rest say.
abbrev pub IsEffective : Db → ℕ → String → Value → Type 0
IsEffective db org slug v = IsSeen db db org slug v

pub load_at_sound :
    (fails fails' : Query → Bool) (org : ℕ) (slug : String) (db db' : Db) (v : Value)
    → load_at fails fails' org slug db db' ≡ ok v
    → IsSeen db db' org slug v
unfolding load_at get_override get_definition
load_at_sound fails fails' org slug db db' v h =
    elim (Option-cases (override_row org slug db.overrides)) [
      | inr (r, found) ↦ overridden r found (ground arith)
      | inl missing ↦ elim (Option-cases (definition_row slug db'.definitions)) [
        | inl unknown ↦ absurd (ground arith)
        | inr (d, known) ↦ elim (Option-cases (try_from_str d.value_type)) [
          | inl bad ↦ absurd (ground arith)
          | inr (t, good) ↦ defaulted d t missing known good (ground arith)
        ]
      ]
    ]

module _ (fails : Query → Bool) (org : ℕ) (slug : String) (db : Db) (v : Value) where
  pub load_complete :
      fails (get_override_query org slug) ≡ false
      → fails (get_definition_query slug) ≡ false
      → IsEffective db org slug v
      → load fails org slug db ≡ ok v
  unfolding load_at get_override get_definition
  load_complete f g (overridden r found e) = ground arith
  load_complete f g (defaulted d t missing known good e) = ground arith

module _ (fails : Query → Bool) (org : ℕ) (slug : String) where
  pub load_overridden :
      (db : Db) (r : OrgFeatureOverride)
      → fails (get_override_query org slug) ≡ false
      → override_row org slug db.overrides ≡ some r
      → load fails org slug db ≡ ok r.value
  unfolding load_at get_override
  load_overridden db r f found = ground arith

  -- `load` reads the row of its key and the definitions, and nothing else.
  pub load_cong :
      (db db' : Db)
      → db'.definitions ≡ db.definitions
      → override_row org slug db'.overrides ≡ override_row org slug db.overrides
      → load fails org slug db' ≡ load fails org slug db
  unfolding load_at get_override get_definition
  load_cong db db' same_definitions same_row = ground arith
