-- ===== src/Features/Repository.antt =====
-- src/features/persistence: the two tables of flags, and the SQL of `FeaturePgRepository`.
-- A query may fail in the database; `fails` says which do.
pub mod Order
pub mod Rows
pub mod Tests
use egras.Prelude.{
  ℕ, String, Bool, true, false, ◌&&◌, Option, none, some, List, [], ◌∷◌, filter, find, contains,
  any, Result, ok, err, ◌>>=◌, ◌==◌, String_eq, ℕ_eq, if◌then◌else◌, not, ok_or,
}
use egras.Json.{Value}
use egras.Features.Model.{FeatureDefinition, OrgFeatureOverride, try_from_str}

pub data FeatureRepoError : Type 0 where
  unknown_slug other : FeatureRepoError

-- A row of `feature_definitions`.
pub record DefinitionRow : Type 0 where
  pub slug : String
  pub value_type : String
  pub default_value : Value
  pub description : String
  pub self_service : Bool

-- The tables, and the ids that the foreign keys of `organisation_features` refer to.
pub record Db : Type 0 where
  pub definitions : List DefinitionRow
  pub overrides : List OrgFeatureOverride
  pub organisations : List ℕ
  pub users : List ℕ

pub data Query : Type 0 where
  list_definitions_query : Query
  get_definition_query : String → Query
  list_overrides_query : ℕ → Query
  get_override_query upsert_query delete_query : ℕ → String → Query

abbrev pub of_row : DefinitionRow → Result FeatureRepoError FeatureDefinition
of_row r = elim (try_from_str r.value_type) [
  | none ↦ err other
  | some t ↦ ok (record {
    slug = r.slug;
    value_type = t;
    default_value = r.default_value;
    description = r.description;
    self_service = r.self_service;
  })
]

-- The row of `feature_definitions` under a slug.
unfoldable pub definition_row : String → List DefinitionRow → Option DefinitionRow
definition_row slug rows = find (λ r. r.slug == slug) rows

abbrev pub is_key : ℕ → String → OrgFeatureOverride → Bool
is_key org slug r = r.organisation_id == org && r.slug == slug

unfoldable pub override_row : ℕ → String → List OrgFeatureOverride → Option OrgFeatureOverride
override_row org slug [] = none
override_row org slug (r ∷ rows) = if is_key org slug r then some r else override_row org slug rows

-- `INSERT … ON CONFLICT (organisation_id, slug) DO UPDATE`
pub upsert_row : OrgFeatureOverride → List OrgFeatureOverride → List OrgFeatureOverride
upsert_row new [] = new ∷ []
upsert_row new (r ∷ rows) =
    if is_key new.organisation_id new.slug r then new ∷ rows else r ∷ upsert_row new rows

pub delete_rows : ℕ → String → List OrgFeatureOverride → List OrgFeatureOverride
delete_rows org slug [] = []
delete_rows org slug (r ∷ rows) =
    let rest = delete_rows org slug rows in if is_key org slug r then rest else r ∷ rest

abbrev value_of : Option OrgFeatureOverride → Option Value
value_of none = none
value_of (some r) = some r.value

-- `.map(try_from).collect()`
of_rows : List DefinitionRow → Result FeatureRepoError (List FeatureDefinition)
of_rows [] = ok []
of_rows (r ∷ rows) = do d ← of_row r; ds ← of_rows rows; ok (d ∷ ds)

-- `ORDER BY slug ASC`: `before` is the order of the database's collation.
module _ {ℓ} {R : Type ℓ} (before : String → String → Bool) (slug_of : R → String) where
  insert_by_slug : R → List R → List R
  insert_by_slug r [] = r ∷ []
  insert_by_slug r (s ∷ rows) =
      if before (slug_of s) (slug_of r) then s ∷ insert_by_slug r rows else r ∷ s ∷ rows

  order_by_slug : List R → List R
  unfolding insert_by_slug
  order_by_slug [] = []
  order_by_slug (r ∷ rows) = insert_by_slug r (order_by_slug rows)

module _ (fails : Query → Bool) where
  pub list_definitions :
      (String → String → Bool) → Db → Result FeatureRepoError (List FeatureDefinition)
  unfolding of_rows order_by_slug
  list_definitions before db =
      if fails list_definitions_query
      then err other
      else of_rows (order_by_slug before (λ r. r.slug) db.definitions)

  unfoldable pub get_definition : String → Db → Result FeatureRepoError (Option FeatureDefinition)
  get_definition slug db =
      if fails (get_definition_query slug)
      then err other
      else elim (definition_row slug db.definitions) [
        | none ↦ ok none
        | some r ↦ do d ← of_row r; ok (some d)
      ]

  pub list_overrides_for_org :
      (String → String → Bool) → ℕ → Db → Result FeatureRepoError (List OrgFeatureOverride)
  unfolding order_by_slug
  list_overrides_for_org before org db =
      if fails (list_overrides_query org)
      then err other
      else ok
          (order_by_slug before (λ r. r.slug) (filter (λ r. r.organisation_id == org) db.overrides))

  unfoldable pub get_override :
      ℕ → String → Db → Result FeatureRepoError (Option OrgFeatureOverride)
  get_override org slug db =
      if fails (get_override_query org slug)
      then err other
      else ok (override_row org slug db.overrides)

  -- The foreign keys are checked in the order of the table's declaration; only that on `slug` is
  -- told apart (`map_slug_fk_error`). `now` is the database's clock.
  unfoldable pub upsert_override :
      ℕ → ℕ → String → Value → ℕ → Db → Result FeatureRepoError (Option Value × Db)
  upsert_override now org slug value updated_by db =
      if fails (upsert_query org slug)
      then err other
      else if not (contains db.organisations org)
      then err other
      else if not (any (λ r. r.slug == slug) db.definitions)
      then err unknown_slug
      else if not (contains db.users updated_by)
      then err other
      else let row : OrgFeatureOverride = record {
        organisation_id = org;
        slug = slug;
        value = value;
        updated_at = now;
        updated_by = updated_by;
      } in
        ok (
          value_of (override_row org slug db.overrides),
          record db { overrides = upsert_row row db.overrides },
        )

  unfoldable pub delete_override : ℕ → String → Db → Result FeatureRepoError (Option Value × Db)
  delete_override org slug db =
      if fails (delete_query org slug)
      then err other
      else ok (
        value_of (override_row org slug db.overrides),
        record db { overrides = delete_rows org slug db.overrides },
      )
