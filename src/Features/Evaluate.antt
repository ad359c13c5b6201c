-- ===== src/Features/Evaluate.antt =====
-- src/features/service/evaluate.rs: the evaluator with its cache. An instant is a number of
-- nanoseconds. `evaluate` takes the read lock, makes one or two queries, each awaited, and takes the
-- write lock: `evaluate_at` has the tables that each query finds and the cache that each lock finds,
-- and `evaluate` is a call with nothing in between. `cache_hit`, `load_at` and `fill` are the parts.
pub mod Cache
pub mod Effective
pub mod Staleness
pub mod Tests
use egras.Prelude.{
  ℕ, String, Bool, true, false, ◌&&◌, ◌+◌, Option, none, some, List, [], ◌∷◌, ltb, Result, ok, err,
  ◌==◌, String_eq, ℕ_eq, if◌then◌else◌,
}
use egras.Json.{Value}
use egras.Features.Repository.{Db, Query, FeatureRepoError, get_override, get_definition}

pub data EvaluateError : Type 0 where
  unknown_slug : EvaluateError
  repo : FeatureRepoError → EvaluateError

-- An entry of the hash map: its key, and the `CachedValue`.
pub record CachedValue : Type 0 where
  pub org : ℕ
  pub slug : String
  pub value : Value
  pub expires_at : ℕ

pub record PgFeatureEvaluator : Type 0 where
  pub cache : List CachedValue
  pub ttl : ℕ

unfoldable pub with_ttl : ℕ → PgFeatureEvaluator
with_ttl ttl = record { cache = []; ttl = ttl }

-- Sixty seconds.
pub new : PgFeatureEvaluator
unfolding with_ttl
new = with_ttl 60_000_000_000

pub cache_get : ℕ → String → List CachedValue → Option CachedValue
cache_get org slug [] = none
cache_get org slug (c ∷ cache) =
    if c.org == org && c.slug == slug then some c else cache_get org slug cache

pub cache_remove : ℕ → String → List CachedValue → List CachedValue
cache_remove org slug [] = []
cache_remove org slug (c ∷ cache) =
    let rest = cache_remove org slug cache in
    if c.org == org && c.slug == slug then rest else c ∷ rest

abbrev live_value : ℕ → Option CachedValue → Option Value
live_value now none = none
live_value now (some c) = if ltb now c.expires_at then some c.value else none

-- The read lock: an entry that has not expired.
pub cache_hit : ℕ → ℕ → String → PgFeatureEvaluator → Option Value
cache_hit now org slug ev = live_value now (cache_get org slug ev.cache)

-- The repository: the override, else the default of the definition. The second query is awaited
-- after the first, and may find other tables, `db'`, and other faults.
unfoldable pub load_at :
    (Query → Bool) → (Query → Bool) → ℕ → String → Db → Db → Result EvaluateError Value
load_at fails fails' org slug db db' = elim (get_override fails org slug db) [
  | err e ↦ err (repo e)
  | ok (some ov) ↦ ok ov.value
  | ok none ↦ elim (get_definition fails' slug db') [
    | err e ↦ err (repo e)
    | ok none ↦ err unknown_slug
    | ok (some def) ↦ ok def.default_value
  ]
]

-- With nothing between the two queries.
abbrev pub load : (Query → Bool) → ℕ → String → Db → Result EvaluateError Value
load fails org slug db = load_at fails fails org slug db db

-- The write lock: `now` is the instant at which the call began.
pub fill : ℕ → ℕ → String → Value → PgFeatureEvaluator → PgFeatureEvaluator
fill now org slug value ev =
    let entry : CachedValue = record {
      org = org;
      slug = slug;
      value = value;
      expires_at = now + ev.ttl;
    } in
    record ev { cache = entry ∷ cache_remove org slug ev.cache }

-- A call that began at `now`: `ev` is what the read lock finds and `ev'` what the write lock finds.
unfoldable pub evaluate_at :
    (Query → Bool)
    → (Query → Bool)
    → ℕ
    → ℕ
    → String
    → Db
    → Db
    → PgFeatureEvaluator
    → PgFeatureEvaluator
    → Result EvaluateError Value × PgFeatureEvaluator
evaluate_at fails fails' now org slug db db' ev ev' = elim (cache_hit now org slug ev) [
  | some v ↦ (ok v, ev')
  | none ↦ elim (load_at fails fails' org slug db db') [
    | err e ↦ (err e, ev')
    | ok v ↦ (ok v, fill now org slug v ev')
  ]
]

abbrev pub evaluate :
    (Query → Bool)
    → ℕ
    → ℕ
    → String
    → Db
    → PgFeatureEvaluator
    → Result EvaluateError Value × PgFeatureEvaluator
evaluate fails now org slug db ev = evaluate_at fails fails now org slug db db ev ev

unfoldable pub invalidate : ℕ → String → PgFeatureEvaluator → PgFeatureEvaluator
invalidate org slug ev = record ev { cache = cache_remove org slug ev.cache }

pub invalidate_all : PgFeatureEvaluator → PgFeatureEvaluator
invalidate_all ev = record ev { cache = [] }
