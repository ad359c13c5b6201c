-- ===== src/Features/Repository/Rows.antt =====
-- The table of overrides as a map from (organisation, slug) to rows.
use egras.Prelude.{
  ℕ, String, true, any, List, [], ◌∷◌, none, some, ◌≡◌, ◌&&◌, refl, arith, beq_iff, ◌==◌, String_eq,
  ℕ_eq, if◌then◌else◌,
}
use egras.Features.Model.{OrgFeatureOverride}
use egras.Features.Repository.{DefinitionRow, definition_row, override_row, upsert_row, delete_rows}

pub override_row-upsert_row :
    (org : ℕ) (slug : String) (new : OrgFeatureOverride) (rows : List OrgFeatureOverride)
    → override_row org slug (upsert_row new rows) ≡ (
        if new.organisation_id == org && new.slug == slug
        then some new
        else override_row org slug rows)
unfolding override_row upsert_row
override_row-upsert_row org slug new [] = refl
override_row-upsert_row org slug new (r ∷ rows) = ground (
  arith,
  beq_iff r.slug slug,
  beq_iff new.slug slug,
  beq_iff r.slug new.slug,
  override_row-upsert_row org slug new rows,
)

pub override_row-delete_rows :
    (org : ℕ) (slug : String) (o : ℕ) (s : String) (rows : List OrgFeatureOverride)
    → override_row o s (delete_rows org slug rows)
      ≡ (if org == o && slug == s then none else override_row o s rows)
unfolding override_row delete_rows
override_row-delete_rows org slug o s [] = ground arith
override_row-delete_rows org slug o s (r ∷ rows) = ground (
  arith,
  beq_iff r.slug slug,
  beq_iff slug s,
  beq_iff r.slug s,
  override_row-delete_rows org slug o s rows,
)

pub any-definition_row :
    (slug : String) (rows : List DefinitionRow) (r : DefinitionRow)
    → definition_row slug rows ≡ some r
    → any (λ d. d.slug == slug) rows ≡ true
unfolding definition_row
any-definition_row slug [] r h = cc
any-definition_row slug (d ∷ rows) r h = ground (arith, any-definition_row slug rows r)
