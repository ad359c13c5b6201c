-- ===== src/Features/Service/Abroad.antt =====
-- Setting and clearing a flag leave the overrides of other organisations as they are.
use egras.Prelude.{ℕ, String, Bool, ℕ_eq, String_eq, ◌≡◌, ◌≢◌, inl, inr, refl, Result-cases, arith}
use egras.Audit.Model.{Stamp}
use egras.Features.Repository.{Query, override_row, upsert_override, delete_override}
use egras.Features.Repository.Rows.{override_row-upsert_row, override_row-delete_rows}
use egras.Features.Service.{
  World, SetOrgFeatureInput, ClearOrgFeatureInput, check_set, check_clear, set_org_feature,
  clear_org_feature,
}

-- The overrides of the other organisations.
abbrev pub SameAbroad : ℕ → World → World → Type 0
SameAbroad org w w' =
    (o : ℕ) (slug : String)
    → o ≢ org
    → override_row o slug w'.db.overrides ≡ override_row o slug w.db.overrides

module _ (fails : Query → Bool) (stamp : Stamp) where
  pub set_org_feature-SameAbroad :
      (is_i64 : ℕ → Bool) (now : ℕ) (input : SetOrgFeatureInput) (w : World)
      → SameAbroad input.organisation_id w (set_org_feature fails is_i64 now stamp input w).1
  unfolding set_org_feature upsert_override
  set_org_feature-SameAbroad is_i64 now input w o slug other =
      elim (Result-cases (check_set fails is_i64 input w.db)) [
        | inr (_, refused) ↦ rw (refused, set_org_feature) refl
        | inl (d, passed) ↦
            let row =
              override_row-upsert_row o slug
                (record {
                  organisation_id = input.organisation_id;
                  slug = input.slug;
                  value = input.value;
                  updated_at = now;
                  updated_by = input.actor_user_id;
                })
                w.db.overrides in
            ground (arith, passed, row)
      ]

  pub clear_org_feature-SameAbroad :
      (input : ClearOrgFeatureInput) (w : World)
      → SameAbroad input.organisation_id w (clear_org_feature fails stamp input w).1
  unfolding clear_org_feature delete_override
  clear_org_feature-SameAbroad input w o slug other =
      elim (Result-cases (check_clear fails input w.db)) [
        | inr (_, refused) ↦ rw (refused, clear_org_feature) refl
        | inl (d, passed) ↦
            let row =
              override_row-delete_rows input.organisation_id input.slug o slug w.db.overrides in
            ground (arith, passed, row)
      ]
