-- ===== src/Features/Evaluate/Staleness.antt =====
-- How old an answer of the evaluator can be, while other processes change the tables and other
-- calls of this process run at the same time. `hist` is the state of the tables at each instant.
use native.Mathlib.Nat.{le_refl}
use egras.Prelude.{
  ℕ, String, Bool, ◌+◌, ◌≤◌, All, All-mono, some, ok, ◌≡◌, refl, arith, Option-cases, Result-cases,
  inl, inr, ◌∙◌, ap,
}
use egras.Json.{Value}
use egras.Features.Repository.{Db, Query}
use egras.Features.Evaluate.{
  CachedValue, PgFeatureEvaluator, with_ttl, cache_get, cache_hit, load, load_at, fill, evaluate,
  evaluate_at, invalidate, invalidate_all,
}
use egras.Features.Evaluate.Cache.{All-cache_remove, All-cache_get}
use egras.Features.Evaluate.Effective.{IsSeen, load_at_sound}

module _ (hist : ℕ → Db) (fails : ℕ → Query → Bool) (ttl : ℕ) where
  -- The evaluators of a process at an instant. A call that began at `s`, looked for the override at
  -- `l` and for the definition at `m` may write its entry at any later instant, whatever came between.
  pub data Reach : ℕ → PgFeatureEvaluator → Type 0 where
    start : {t : ℕ} → Reach t (with_ttl ttl)
    wait : {t u : ℕ} {ev : PgFeatureEvaluator} → t ≤ u → Reach t ev → Reach u ev
    filled :
        {t : ℕ} {ev : PgFeatureEvaluator} (s l m org : ℕ) (slug : String) (v : Value)
        → s ≤ l
        → l ≤ m
        → m ≤ t
        → load_at (fails l) (fails m) org slug (hist l) (hist m) ≡ ok v
        → Reach t ev
        → Reach t (fill s org slug v ev)
    evicted :
        {t : ℕ} {ev : PgFeatureEvaluator} (org : ℕ) (slug : String)
        → Reach t ev
        → Reach t (invalidate org slug ev)
    cleared : {t : ℕ} {ev : PgFeatureEvaluator} → Reach t ev → Reach t (invalidate_all ev)

  -- The value was seen by queries at `l` and `m`, up to `t`, and expires within `ttl` of the first.
  abbrev WasSeen : ℕ → CachedValue → Type 0
  WasSeen t c =
      (l : ℕ) × (m : ℕ) × (l ≤ m)
      × (m ≤ t)
      × (c.expires_at ≤ l + ttl)
      × IsSeen (hist l) (hist m) c.org c.slug c.value

  record IsFresh (t : ℕ) (ev : PgFeatureEvaluator) : Type 0 where
    same_ttl : ev.ttl ≡ ttl
    entries : All (WasSeen t) ev.cache

  Reach-IsFresh : {t : ℕ} {ev : PgFeatureEvaluator} → Reach t ev → IsFresh t ev
  unfolding with_ttl fill invalidate invalidate_all
  Reach-IsFresh start = record { same_ttl = refl; entries = tt }
  Reach-IsFresh (wait {t} {u} {ev} h r) =
      let old = Reach-IsFresh r in
      record {
        same_ttl = old.same_ttl;
        entries =
            All-mono (WasSeen t) (WasSeen u) ev.cache
              (λ c (l, m, p, q, expiry, seen). (l, m, p, omega arith, expiry, seen)) old.entries;
      }
  Reach-IsFresh (filled {t} {ev} s l m org slug v p q late loaded r) =
      let old = Reach-IsFresh r in
      record {
        same_ttl = old.same_ttl;
        entries = (
          (
            l,
            m,
            q,
            late,
            omega (arith, old.same_ttl),
            load_at_sound (fails l) (fails m) org slug (hist l) (hist m) v loaded,
          ),
          All-cache_remove (WasSeen t) org slug ev.cache old.entries,
        );
      }
  Reach-IsFresh (evicted {t} {ev} org slug r) =
      let old = Reach-IsFresh r in
      record {
        same_ttl = old.same_ttl;
        entries = All-cache_remove (WasSeen t) org slug ev.cache old.entries;
      }
  Reach-IsFresh (cleared r) = record { same_ttl = (Reach-IsFresh r).same_ttl; entries = tt }

  -- A call that begins at `t`, takes the read lock at `u`, and makes its queries at `l` and `m`.
  module _ (t u l m org : ℕ) (slug : String) (v : Value) where
    hit_WasSeen :
        (ev : PgFeatureEvaluator)
        → IsFresh u ev
        → cache_hit t org slug ev ≡ some v
        → (l' : ℕ) × (m' : ℕ) × (l' ≤ m')
          × (m' ≤ u)
          × (t ≤ l' + ttl)
          × IsSeen (hist l') (hist m') org slug v
    unfolding cache_hit
    hit_WasSeen ev fresh h = elim (Option-cases (cache_get org slug ev.cache)) [
      | inl missing ↦ absurd (ground arith)
      | inr (c, found) ↦
          let ((l', m', p, q, expiry, seen), same_org, same_slug) =
            All-cache_get (WasSeen u) org slug ev.cache c fresh.entries found in
          let same_value : c.value ≡ v = ground arith in
          (l', m', p, q, ground arith, rw (← same_org, ← same_slug, ← same_value) seen)
    ]

    -- A call of `evaluate` that begins at `t`, takes the read lock at `u` and makes its queries at
    -- `l` and `m`, while any other calls of the process and any changes of the tables interleave
    -- with it: what it answers was seen by two queries at instants `l' ≤ m'`, neither after `m`, the
    -- first not more than the time to live before `t`. That is, it is the override that the tables
    -- had at `l'`, or they had none at `l'` and it is the default that they had at `m'`. The two
    -- instants can differ, and with them the tables.
    pub evaluate_staleness :
        (ev ev' : PgFeatureEvaluator)
        → t ≤ u
        → u ≤ l
        → l ≤ m
        → Reach u ev
        → (evaluate_at (fails l) (fails m) t org slug (hist l) (hist m) ev ev').0 ≡ ok v
        → (l' : ℕ) × (m' : ℕ) × (l' ≤ m')
          × (m' ≤ m)
          × (t ≤ l' + ttl)
          × IsSeen (hist l') (hist m') org slug v
    unfolding evaluate_at
    evaluate_staleness ev ev' begun locked queried r h =
        elim (Option-cases (cache_hit t org slug ev)) [
          | inr (w, hit) ↦
              let same : w ≡ v = ground arith in
              let (l', m', p, q, recent, seen) =
                hit_WasSeen ev (Reach-IsFresh r) (hit ∙ ap some same) in
              (l', m', p, omega arith, recent, seen)
          | inl miss ↦ (
            l,
            m,
            queried,
            le_refl m,
            omega arith,
            load_at_sound (fails l) (fails m) org slug (hist l) (hist m) v (ground arith),
          )
        ]

  -- A call with nothing in between is a step of `Reach`.
  pub evaluate-Reach :
      (t org : ℕ) (slug : String) (ev : PgFeatureEvaluator)
      → Reach t ev
      → Reach t (evaluate (fails t) t org slug (hist t) ev).1
  unfolding evaluate_at
  evaluate-Reach t org slug ev r = elim (Option-cases (cache_hit t org slug ev)) [
    | inr (w, hit) ↦ rw (hit, evaluate_at) r
    | inl miss ↦ elim (Result-cases (load (fails t) org slug (hist t))) [
      | inl (w, loaded) ↦
          rw (miss, loaded, evaluate_at)
            (filled t t t org slug w (le_refl t) (le_refl t) (le_refl t) loaded r)
      | inr (e, failed) ↦ rw (miss, failed, evaluate_at) r
    ]
  ]
