-- ===== src/Features/Service/Races.antt =====
-- A read that overlaps a set: `evaluate` reads the tables before it takes the write lock.
use egras.Prelude.{ℕ, Bool, ok, ◌≡◌, ap, ◌+◌, ◌<◌, arith, beq_refl, String_eq, ℕ_eq}
use egras.Json.{Value}
use egras.Audit.Model.{Stamp}
use egras.Features.Repository.{Query}
use egras.Features.Evaluate.{evaluate, load, fill, invalidate}
use egras.Features.Evaluate.Cache.{cache_hit-fill, evaluate-answer}
use egras.Features.Service.{World, SetOrgFeatureInput, set_org_feature}
use egras.Features.Service.Visibility.{set_org_feature-IsStored}

-- A read of the flag that began at `s` has read the old value when a set succeeds, and takes the
-- write lock after it. Then reads of the flag in the same process, at every instant before
-- `s + ttl`, answer the old value and not the one that was set.
pub stale_after_set :
    (fails first later : Query → Bool) (is_i64 : ℕ → Bool) (now : ℕ) (stamp : Stamp)
    (input : SetOrgFeatureInput) (w : World) (old : Value) (s t : ℕ)
    → load first input.organisation_id input.slug w.db ≡ ok old
    → (set_org_feature fails is_i64 now stamp input w).0 ≡ ok tt
    → t < s + w.evaluator.ttl
    → let w' = (set_org_feature fails is_i64 now stamp input w).1 in
      (evaluate later t input.organisation_id input.slug w'.db
        (fill s input.organisation_id input.slug old w'.evaluator)).0
      ≡ ok old
unfolding invalidate
stale_after_set fails first later is_i64 now stamp input w old s t read done early =
    let w' = (set_org_feature fails is_i64 now stamp input w).1 in
    let org = input.organisation_id in
    let slug = input.slug in
    let same_ttl : w'.evaluator.ttl ≡ w.evaluator.ttl =
      ap (λ ev. ev.ttl) (set_org_feature-IsStored fails is_i64 now stamp input w done).evaluator in
    rw (evaluate-answer later t org slug w'.db (fill s org slug old w'.evaluator)) (
      ground (
        arith,
        cache_hit-fill t s org slug old org slug w'.evaluator,
        beq_refl org,
        beq_refl slug,
        same_ttl,
      ))
