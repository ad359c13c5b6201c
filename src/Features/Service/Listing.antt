-- ===== src/Features/Service/Listing.antt =====
-- What a listing of an organisation's flags answers.
use native.Mathlib.Nat.{le_refl}
use egras.Prelude.{
  count, any, ◌==◌, String_eq, if◌then◌else◌, ℕ, String, Bool, ◌+◌, ◌≤◌, some, List, [], ◌∷◌, map,
  All, ◌≡◌, refl, arith, ap, Option-cases, Result-cases, inl, inr,
}
use egras.Json.{Value}
use egras.Features.Model.{
  FeatureDefinition, OrgFeatureOverride, EvaluatedFeature, default, override,
}
use egras.Features.Repository.{Db, Query, DefinitionRow, list_definitions, list_overrides_for_org}
use egras.Features.Repository.Order.{IsCollation, IsOrdered, slugs, list_definitions_sound}
use egras.Features.Evaluate.{PgFeatureEvaluator, evaluate}
use egras.Features.Evaluate.Effective.{IsSeen}
use egras.Features.Evaluate.Staleness.{Reach, evaluate_staleness, evaluate-Reach}
use egras.Features.Service.{World, list_from, list_org_features}

abbrev listed_as : List OrgFeatureOverride → FeatureDefinition → Value → EvaluatedFeature
listed_as overrides d v = record {
  slug = d.slug;
  value = v;
  source =
      if any (λ (ov : OrgFeatureOverride). ov.slug == d.slug) overrides then override else default;
  value_type = d.value_type;
  self_service = d.self_service;
}

abbrev pub listed_slugs : List EvaluatedFeature → List String
listed_slugs features = map (λ f. f.slug) features

module _ (hist : ℕ → Db) (fails : ℕ → Query → Bool) (ttl t org : ℕ) where
  -- The value was seen by queries at instants of which the first is within the time to live.
  abbrev pub IsRecent : EvaluatedFeature → Type 0
  IsRecent f =
      (l : ℕ) × (m : ℕ) × (l ≤ m)
      × (m ≤ t)
      × (t ≤ l + ttl)
      × IsSeen (hist l) (hist m) org f.slug f.value

  list_from_sound :
      (overrides : List OrgFeatureOverride) (defs : List FeatureDefinition)
      (ev : PgFeatureEvaluator) (features : List EvaluatedFeature)
      → Reach hist fails ttl t ev
      → (list_from (fails t) t org overrides defs (hist t) ev).0 ≡ some features
      → All IsRecent features × (listed_slugs features ≡ slugs defs)
  unfolding list_from
  list_from_sound overrides [] ev features r h =
      let none_listed : [] ≡ features = ground arith in rw (← none_listed) (tt, refl)
  list_from_sound overrides (d ∷ defs) ev features r h =
      let ev' = (evaluate (fails t) t org d.slug (hist t) ev).1 in
      let rest = (list_from (fails t) t org overrides defs (hist t) ev').0 in
      elim (Result-cases (evaluate (fails t) t org d.slug (hist t) ev).0) [
        | inr (e, failed) ↦ absurd (ground (arith, failed))
        | inl (v, answered) ↦ elim (Option-cases rest) [
          | inl ended ↦ absurd (ground (arith, answered, ended))
          | inr (others, listed) ↦
              let recent =
                evaluate_staleness hist fails ttl t t t t org d.slug v ev ev (le_refl t) (le_refl t)
                  (le_refl t) r answered in
              let (all_recent, slugs) =
                list_from_sound overrides defs ev' others
                  (evaluate-Reach hist fails ttl t org d.slug ev r) listed in
              let here : listed_as overrides d v ∷ others ≡ features =
                ground (arith, answered, listed) in
              rw (← here) ((recent, all_recent), ap (λ ss. d.slug ∷ ss) slugs)
        ]
      ]

  -- A listing that runs at an instant `t`, with an evaluator that the process can have reached by
  -- then and under a collation that orders the texts: the slugs that it answers are in order; each
  -- slug is there exactly as often as `feature_definitions` has it, so no flag is left out or added;
  -- and each value was seen by two queries of the evaluator, at instants `l` and `m` with `l ≤ m` and
  -- `m ≤ t`, `l` not more than the time to live before `t`.
  pub list_org_features_sound :
      (before : String → String → Bool) (w : World) (features : List EvaluatedFeature)
      (slug : String)
      → IsCollation before
      → w.db ≡ hist t
      → Reach hist fails ttl t w.evaluator
      → (list_org_features (fails t) before t org w).0 ≡ some features
      → IsOrdered before (listed_slugs features)
        × (count (λ s. s == slug) (listed_slugs features)
            ≡ count (λ (r : DefinitionRow). r.slug == slug) w.db.definitions)
        × All IsRecent features
  unfolding list_org_features
  list_org_features_sound before w features slug collation now r h =
      elim (Result-cases (list_definitions (fails t) before w.db)) [
        | inr (e, failed) ↦ absurd (ground (arith, failed))
        | inl (defs, found) ↦
            elim (Result-cases (list_overrides_for_org (fails t) before org w.db)) [
              | inr (e, failed) ↦ absurd (ground (arith, failed, found))
              | inl (overrides, some_overrides) ↦
                  let listed : (list_from (fails t) t org overrides defs (hist t) w.evaluator).0
                      ≡ some features =
                    ground (arith, found, some_overrides, now) in
                  let (recent, same_slugs) =
                    list_from_sound overrides defs w.evaluator features r listed in
                  let (ordered, complete) =
                    list_definitions_sound (fails t) before w.db defs slug collation found in
                  rw same_slugs (ordered, complete, recent)
            ]
      ]
