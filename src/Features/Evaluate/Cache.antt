-- ===== src/Features/Evaluate/Cache.antt =====
-- The cache as a map from (organisation, slug) to entries.
use egras.Prelude.{
  Bool, Option, Result, ok, ltb, ◌+◌, ℕ, String, List, [], ◌∷◌, All, none, some, ◌≡◌, ◌&&◌, arith,
  beq_iff, ◌==◌, String_eq, ℕ_eq, if◌then◌else◌, Bool-cases, inl, inr,
}
use egras.Json.{Value}
use egras.Features.Repository.{Db, Query}
use egras.Features.Evaluate.{
  EvaluateError, evaluate, evaluate_at, load, fill, CachedValue, PgFeatureEvaluator, cache_get,
  cache_remove, cache_hit, invalidate,
}

pub cache_get-cache_remove :
    (org : ℕ) (slug : String) (o : ℕ) (s : String) (cache : List CachedValue)
    → cache_get o s (cache_remove org slug cache)
      ≡ (if org == o && slug == s then none else cache_get o s cache)
unfolding cache_get cache_remove
cache_get-cache_remove org slug o s [] = ground arith
cache_get-cache_remove org slug o s (c ∷ cache) = ground (
  arith,
  beq_iff c.slug slug,
  beq_iff slug s,
  beq_iff c.slug s,
  cache_get-cache_remove org slug o s cache,
)

-- What holds of every entry holds of those that are left, and of the one that is found.
module _ {ℓ} (P : CachedValue → Type ℓ) where
  pub All-cache_remove :
      (org : ℕ) (slug : String) (cache : List CachedValue)
      → All P cache
      → All P (cache_remove org slug cache)
  unfolding cache_remove
  All-cache_remove org slug [] h = tt
  All-cache_remove org slug (c ∷ cache) (p, h) =
      let rest = All-cache_remove org slug cache h in
      elim (Bool-cases (c.org == org && c.slug == slug)) [
        | inl same ↦ rw same rest
        | inr other ↦ rw other (p, rest)
      ]

  pub All-cache_get :
      (org : ℕ) (slug : String) (cache : List CachedValue) (c : CachedValue)
      → All P cache
      → cache_get org slug cache ≡ some c
      → P c × (c.org ≡ org) × (c.slug ≡ slug)
  unfolding cache_get
  All-cache_get org slug [] c h e = cc
  All-cache_get org slug (d ∷ cache) c (p, h) e =
      elim (Bool-cases (d.org == org && d.slug == slug)) [
        | inl same ↦
            let found : d ≡ c = ground arith in
            rw (← found) (p, ground arith, ground (arith, beq_iff d.slug slug))
        | inr other ↦ All-cache_get org slug cache c h (ground arith)
      ]

-- After `invalidate` the key has no live entry, and every other key answers as before.
pub cache_hit-invalidate :
    (now org : ℕ) (slug : String) (o : ℕ) (s : String) (ev : PgFeatureEvaluator)
    → cache_hit now o s (invalidate org slug ev)
      ≡ (if org == o && slug == s then none else cache_hit now o s ev)
unfolding cache_hit invalidate
cache_hit-invalidate now org slug o s ev =
    ground (arith, cache_get-cache_remove org slug o s ev.cache)

-- What `evaluate` answers: the live entry, else what the tables say.
abbrev pub answer : Option Value → Result EvaluateError Value → Result EvaluateError Value
answer (some v) r = ok v
answer none r = r

pub evaluate-answer :
    (fails : Query → Bool) (now org : ℕ) (slug : String) (db : Db) (ev : PgFeatureEvaluator)
    → (evaluate fails now org slug db ev).0
      ≡ answer (cache_hit now org slug ev) (load fails org slug db)
unfolding evaluate_at
evaluate-answer fails now org slug db ev = ground arith

pub cache_hit-fill :
    (t s org : ℕ) (slug : String) (v : Value) (o : ℕ) (k : String) (ev : PgFeatureEvaluator)
    → cache_hit t o k (fill s org slug v ev) ≡ (
        if org == o && slug == k
        then (if ltb t (s + ev.ttl) then some v else none)
        else cache_hit t o k ev)
unfolding cache_hit fill cache_get
cache_hit-fill t s org slug v o k ev = ground (arith, cache_get-cache_remove org slug o k ev.cache)
