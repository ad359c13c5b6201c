-- ===== src/Jobs/Runner/Taken.antt =====
-- The jobs that a claim has just taken from a sound table.
use egras.Prelude.{
  ℕ, String, true, List, All, All-mono, All-filter, All-zip, contains, ok, ◌≡◌, refl, arith, inl,
  inr, ℕ_eq, String_eq,
}
use egras.Jobs.Model.{running, Job}
use egras.Jobs.Repository.{is_due, claimed}
use egras.Jobs.Repository.Claiming.{ClaimCall, claim, chosen, after, claim-ok}
use egras.Jobs.Repository.Snapshots.{
  Distinct, Snapshot, claim-Snapshot, chosen-is_due, All-claim_rows,
}
use egras.Jobs.Runner.Marks.{IsSound, is_active}
use egras.Jobs.Runner.Batches.{IsReady}

-- A row that a claim has just taken.
pub record IsTaken (kinds : List String) (r : Job) : Type 0 where
  pub state : r.state ≡ running
  pub kind : contains kinds r.kind ≡ true

due_IsActive :
    (kinds : List String) (now : ℕ) (r : Job) → is_due kinds now r ≡ true → is_active r.state ≡ true
unfolding is_due
due_IsActive kinds now r h = ground arith

due_kind :
    (kinds : List String) (now : ℕ) (r : Job)
    → is_due kinds now r ≡ true
    → contains kinds r.kind ≡ true
unfolding is_due
due_kind kinds now r h = ground arith

claimed-IsSound :
    (worker_id : String) (visibility now : ℕ) (r : Job)
    → is_active r.state ≡ true
    → IsSound r
    → IsSound (claimed worker_id visibility now r)
unfolding claimed
claimed-IsSound worker_id visibility now r a s = record {
  budget = λ _. s.budget a;
  in_range = s.in_range;
}

claimed-IsTaken :
    (kinds : List String) (worker_id : String) (visibility now : ℕ) (r : Job)
    → contains kinds r.kind ≡ true
    → IsTaken kinds (claimed worker_id visibility now r)
unfolding claimed
claimed-IsTaken kinds worker_id visibility now r k = record { state = refl; kind = k }

claimed-id :
    (worker_id : String) (visibility now : ℕ) (r : Job)
    → (claimed worker_id visibility now r).id ≡ r.id
unfolding claimed
claimed-id worker_id visibility now r = refl

after-lem :
    (c : ClaimCall) (rows : List Job)
    → Distinct rows
    → All IsSound rows
    → All
        (λ (r : Job). IsSound r × (contains (chosen c rows) r.id ≡ true → IsTaken c.kinds r))
        (after c rows)
after-lem c rows d h =
    All-claim_rows
      (λ (r : Job).
        IsSound r × (contains (chosen c rows) r.id ≡ true → is_due c.kinds c.now r ≡ true))
      (λ (r : Job). IsSound r × (contains (chosen c rows) r.id ≡ true → IsTaken c.kinds r)) c
      (chosen c rows) rows
      (λ r p hit. (
        claimed-IsSound c.worker_id c.visibility c.now r (due_IsActive c.kinds c.now r (p.1 hit))
            p.0,
        λ _.
            claimed-IsTaken c.kinds c.worker_id c.visibility c.now r
              (due_kind c.kinds c.now r (p.1 hit)),
      ))
      (λ r p miss. (p.0, λ hit. absurd (ground arith)))
      (All-zip IsSound (λ r. contains (chosen c rows) r.id ≡ true → is_due c.kinds c.now r ≡ true)
        rows h (chosen-is_due c rows d))

pub claim-IsTaken :
    (c : ClaimCall) (rows jobs rows' : List Job)
    → Distinct rows
    → All IsSound rows
    → claim c rows ≡ ok (jobs, rows')
    → All (λ (j : Job). IsSound j × IsTaken c.kinds j) jobs × All IsSound rows'
claim-IsTaken c rows jobs rows' d h e = elim (claim-ok c rows jobs rows' e) [
  | inl (no_jobs, same) ↦ rw (no_jobs, same) (tt, h)
  | inr (some_jobs, changed) ↦
      rw (some_jobs, changed)
        (
          All-filter
              (λ (r : Job). IsSound r × (contains (chosen c rows) r.id ≡ true → IsTaken c.kinds r))
              (λ (j : Job). IsSound j × IsTaken c.kinds j) (λ j. contains (chosen c rows) j.id)
              (after c rows) (λ j p kept. (p.0, p.1 kept)) (after-lem c rows d h),
          All-mono
              (λ (r : Job). IsSound r × (contains (chosen c rows) r.id ≡ true → IsTaken c.kinds r))
              IsSound (after c rows) (λ j p. p.0) (after-lem c rows d h),
        )
]

pub claim-IsReady :
    (c : ClaimCall) (rows jobs rows' : List Job)
    → Distinct rows
    → All IsSound rows
    → claim c rows ≡ ok (jobs, rows')
    → All (IsReady rows') jobs
claim-IsReady c rows jobs rows' d h e =
    All-mono (λ (j : Job). (IsSound j × IsTaken c.kinds j) × Snapshot rows' j) (IsReady rows') jobs
      (λ j p. record { state = p.0.1.state; sound = p.0.0; snapshot = p.1 })
      (All-zip (λ (j : Job). IsSound j × IsTaken c.kinds j) (Snapshot rows') jobs
        (claim-IsTaken c rows jobs rows' d h e).0 (claim-Snapshot c rows jobs rows' d e).1)
