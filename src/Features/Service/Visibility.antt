-- ===== src/Features/Service/Visibility.antt =====
-- What a successful set or clear changes, and what the evaluator of the same process then answers.
use egras.Prelude.{
  ℕ, String, Bool, false, none, some, ok, ◌≡◌, arith, ◌==◌, String_eq, ℕ_eq, ◌&&◌, if◌then◌else◌,
  beq_refl, beq_iff, Bool-cases, inl, inr, refl, ◌∙◌,
}
use egras.Audit.Model.{Stamp}
use egras.Features.Model.{OrgFeatureOverride, FeatureValueType, try_from_str}
use egras.Features.Repository.{
  Query, DefinitionRow, get_override_query, get_definition_query, override_row, definition_row,
  upsert_override, delete_override,
}
use egras.Features.Repository.Rows.{override_row-upsert_row, override_row-delete_rows}
use egras.Features.Evaluate.{evaluate, invalidate}
use egras.Features.Evaluate.Cache.{cache_hit-invalidate, evaluate-answer}
use egras.Features.Evaluate.Effective.{defaulted, load_complete, load_overridden, load_cong}
use egras.Features.Service.{
  World, SetOrgFeatureInput, ClearOrgFeatureInput, set_org_feature, clear_org_feature,
}

abbrev pub new_row : ℕ → SetOrgFeatureInput → OrgFeatureOverride
new_row now input = record {
  organisation_id = input.organisation_id;
  slug = input.slug;
  value = input.value;
  updated_at = now;
  updated_by = input.actor_user_id;
}

-- What a successful set leaves: the same definitions, the override under its key and every other
-- override as it was, and no entry of the cache under the key.
pub record IsStored (now : ℕ) (input : SetOrgFeatureInput) (w w' : World) : Type 0 where
  pub definitions : w'.db.definitions ≡ w.db.definitions
  pub overrides :
      (o : ℕ) (s : String)
      → override_row o s w'.db.overrides ≡ (
          if input.organisation_id == o && input.slug == s
          then some (new_row now input)
          else override_row o s w.db.overrides)
  pub evaluator : w'.evaluator ≡ invalidate input.organisation_id input.slug w.evaluator

pub record IsCleared (input : ClearOrgFeatureInput) (w w' : World) : Type 0 where
  pub definitions : w'.db.definitions ≡ w.db.definitions
  pub overrides :
      (o : ℕ) (s : String)
      → override_row o s w'.db.overrides ≡ (
          if input.organisation_id == o && input.slug == s
          then none
          else override_row o s w.db.overrides)
  pub evaluator : w'.evaluator ≡ invalidate input.organisation_id input.slug w.evaluator

module _ (fails : Query → Bool) (is_i64 : ℕ → Bool) (now : ℕ) (stamp : Stamp) where
  pub set_org_feature-IsStored :
      (input : SetOrgFeatureInput) (w : World)
      → (set_org_feature fails is_i64 now stamp input w).0 ≡ ok tt
      → IsStored now input w (set_org_feature fails is_i64 now stamp input w).1
  unfolding set_org_feature upsert_override
  set_org_feature-IsStored input w h = record {
    definitions = ground arith;
    overrides =
        λ o s. ground (arith, override_row-upsert_row o s (new_row now input) w.db.overrides);
    evaluator = ground arith;
  }

module _ (fails : Query → Bool) (stamp : Stamp) where
  pub clear_org_feature-IsCleared :
      (input : ClearOrgFeatureInput) (w : World)
      → (clear_org_feature fails stamp input w).0 ≡ ok tt
      → IsCleared input w (clear_org_feature fails stamp input w).1
  unfolding clear_org_feature delete_override
  clear_org_feature-IsCleared input w h = record {
    definitions = ground arith;
    overrides = λ o s.
        ground
          (arith, override_row-delete_rows input.organisation_id input.slug o s w.db.overrides);
    evaluator = ground arith;
  }

-- Later reads, under any faults of their own.
module _ (fails : Query → Bool) (t : ℕ) where
  IsStored-evaluate :
      (now : ℕ) (input : SetOrgFeatureInput) (w w' : World)
      → IsStored now input w w'
      → fails (get_override_query input.organisation_id input.slug) ≡ false
      → (evaluate fails t input.organisation_id input.slug w'.db w'.evaluator).0 ≡ ok input.value
  IsStored-evaluate now input w w' s f =
      let org = input.organisation_id in
      let slug = input.slug in
      let row = s.overrides org slug in
      let stored = load_overridden fails org slug w'.db (new_row now input) f in
      rw (evaluate-answer fails t org slug w'.db w'.evaluator, s.evaluator)
        (ground (
          arith,
          cache_hit-invalidate t org slug org slug w.evaluator,
          row,
          stored,
          beq_refl org,
          beq_refl slug,
        ))

  IsStored-evaluate_other :
      (now : ℕ) (input : SetOrgFeatureInput) (w w' : World) (o : ℕ) (s : String)
      → IsStored now input w w'
      → (input.organisation_id == o && input.slug == s) ≡ false
      → (evaluate fails t o s w'.db w'.evaluator).0 ≡ (evaluate fails t o s w.db w.evaluator).0
  IsStored-evaluate_other now input w w' o s p other =
      let org = input.organisation_id in
      let slug = input.slug in
      let row = p.overrides o s in
      let same = load_cong fails o s w.db w'.db p.definitions in
      rw
        (
          evaluate-answer fails t o s w'.db w'.evaluator,
          evaluate-answer fails t o s w.db w.evaluator,
          p.evaluator,
        )
        (ground (arith, cache_hit-invalidate t org slug o s w.evaluator, row, same))

  IsCleared-evaluate :
      (input : ClearOrgFeatureInput) (w w' : World) (d : DefinitionRow)
      (value_type : FeatureValueType)
      → IsCleared input w w'
      → fails (get_override_query input.organisation_id input.slug) ≡ false
      → fails (get_definition_query input.slug) ≡ false
      → definition_row input.slug w.db.definitions ≡ some d
      → try_from_str d.value_type ≡ some value_type
      → (evaluate fails t input.organisation_id input.slug w'.db w'.evaluator).0
        ≡ ok d.default_value
  IsCleared-evaluate input w w' d value_type p f g known decoded =
      let org = input.organisation_id in
      let slug = input.slug in
      let row : override_row org slug w'.db.overrides ≡ none =
        p.overrides org slug ∙ ground (arith, beq_refl org, beq_refl slug) in
      let loaded =
        load_complete fails org slug w'.db d.default_value f g
          (defaulted d value_type row (rw p.definitions known) decoded refl) in
      rw (evaluate-answer fails t org slug w'.db w'.evaluator, p.evaluator)
        (ground (
          arith,
          cache_hit-invalidate t org slug org slug w.evaluator,
          loaded,
          beq_refl org,
          beq_refl slug,
        ))

module _ (fails later : Query → Bool) (is_i64 : ℕ → Bool) (now : ℕ) (stamp : Stamp) (t : ℕ) where
  -- After a successful set, the next read in the same process, at any instant and whatever the cache
  -- held, answers the new value for the flag that was set, and for every other flag, of this or of
  -- another organisation, what it would have answered before; provided that the read's query of the
  -- override of the flag that was set does not fail.
  pub set_org_feature-evaluate :
      (input : SetOrgFeatureInput) (w : World) (o : ℕ) (s : String)
      → (set_org_feature fails is_i64 now stamp input w).0 ≡ ok tt
      → later (get_override_query input.organisation_id input.slug) ≡ false
      → let w' = (set_org_feature fails is_i64 now stamp input w).1 in
        (evaluate later t o s w'.db w'.evaluator).0 ≡ (
          if input.organisation_id == o && input.slug == s
          then ok input.value
          else (evaluate later t o s w.db w.evaluator).0)
  set_org_feature-evaluate input w o s h f =
      let w' = (set_org_feature fails is_i64 now stamp input w).1 in
      let done = set_org_feature-IsStored fails is_i64 now stamp input w h in
      elim (Bool-cases (input.organisation_id == o && input.slug == s)) [
        | inl key ↦
            let org : input.organisation_id ≡ o = ground arith in
            let slug : input.slug ≡ s = ground (arith, beq_iff input.slug s) in
            rw (key, ← org, ← slug) (IsStored-evaluate later t now input w w' done f)
        | inr other ↦ rw other (IsStored-evaluate_other later t now input w w' o s done other)
      ]

module _ (fails later : Query → Bool) (stamp : Stamp) (t : ℕ) where
  -- After a successful clear, the next read of the flag in the same process answers the default of
  -- its definition, whatever the cache held, if its two queries do not fail.
  pub clear_org_feature-evaluate :
      (input : ClearOrgFeatureInput) (w : World) (d : DefinitionRow) (value_type : FeatureValueType)
      → (clear_org_feature fails stamp input w).0 ≡ ok tt
      → later (get_override_query input.organisation_id input.slug) ≡ false
      → later (get_definition_query input.slug) ≡ false
      → definition_row input.slug w.db.definitions ≡ some d
      → try_from_str d.value_type ≡ some value_type
      → let w' = (clear_org_feature fails stamp input w).1 in
        (evaluate later t input.organisation_id input.slug w'.db w'.evaluator).0
        ≡ ok d.default_value
  clear_org_feature-evaluate input w d value_type h f g known decoded =
      IsCleared-evaluate later t input w (clear_org_feature fails stamp input w).1 d value_type
        (clear_org_feature-IsCleared fails stamp input w h) f g known decoded
