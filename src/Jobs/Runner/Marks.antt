-- ===== src/Jobs/Runner/Marks.antt =====
-- What recording an outcome makes of a row of the table, and when the database refuses it.
use egras.Prelude.{
  ℕ, Bool, true, false, Option, List, [], ◌∷◌, All, Result, ◌≡◌, ◌≢◌, ◌⊎◌, refl, arith, ℕ_eq,
  String_eq,
}
use egras.Jobs.Model.{JobState, pending, running, done, dead, Job, i32_max, leb_ℤ}
use egras.Jobs.Repository.{
  Query, done_query, retry_query, dead_query, mark_done, mark_dead, mark_failed_retry, finished,
  retried, killed, overflows, update_rows,
}
use egras.Jobs.Runner.{
  JobRunner, JobError, Mark, mark_as_done, mark_as_dead, mark_for_retry, decide, apply_mark,
}
use egras.Jobs.Runner.Retries.{marked}

abbrev pub is_active : JobState → Bool
is_active pending = true
is_active running = true
is_active done = false
is_active dead = false

-- A job that can still be run has attempts left, and its budget is an `i32`.
pub record IsSound (j : Job) : Type 0 where
  pub budget : is_active j.state ≡ true → leb_ℤ j.max_attempts j.attempts ≡ false
  pub in_range : leb_ℤ j.max_attempts i32_max ≡ true

pub marked-id : (now : ℕ) (mark : Mark) (j : Job) → (marked now mark j).id ≡ j.id
unfolding finished retried killed
marked-id now mark_as_done j = refl
marked-id now (mark_as_dead msg) j = refl
marked-id now (mark_for_retry msg at) j = refl

-- A job with attempts left is not at the greatest `i32`.
pub IsSound-lt-max :
    (j : Job) → is_active j.state ≡ true → IsSound j → leb_ℤ i32_max j.attempts ≡ false
unfolding leb_ℤ
IsSound-lt-max j a h = let b = h.budget a in let r = h.in_range in ground arith

module _ (r : JobRunner) (from_std : ℕ → Option ℕ) where
  -- The outcome of a job that is running leaves its row sound, and no longer running.
  pub marked-IsSound :
      (now : ℕ) (o : Result JobError (Unit {0})) (j : Job)
      → j.state ≡ running
      → IsSound j
      → IsSound (marked now (decide r.cfg from_std now o j) j)
  unfolding decide finished retried killed
  marked-IsSound now o j s h = let b = h.budget in let k = h.in_range in ground arith

  pub marked-ne-running : (now : ℕ) (mark : Mark) (j : Job) → (marked now mark j).state ≢ running
  unfolding finished retried killed
  marked-ne-running now mark_as_done j e = cc
  marked-ne-running now (mark_as_dead msg) j e = cc
  marked-ne-running now (mark_for_retry msg at) j e = cc

-- A mark updates the job's row, or is refused by the database and leaves the table.
pub apply_mark-cases :
    (fails : Query → Bool) (now : ℕ) (mark : Mark) (job : Job) (rows : List Job)
    → (apply_mark fails now mark job rows ≡ rows)
      ⊎ (apply_mark fails now mark job rows ≡ update_rows job.id (marked now mark) rows)
unfolding apply_mark mark_done mark_dead mark_failed_retry
apply_mark-cases fails now mark_as_done job rows = ground arith
apply_mark-cases fails now (mark_as_dead msg) job rows = ground arith
apply_mark-cases fails now (mark_for_retry msg at) job rows = ground arith

pub overflows-false :
    (id : ℕ) (rows : List Job)
    → All (λ (r : Job). r.id ≡ id → leb_ℤ i32_max r.attempts ≡ false) rows
    → overflows id rows ≡ false
unfolding overflows
overflows-false id [] h = refl
overflows-false id (r ∷ rows) (p, h) = ground (arith, overflows-false id rows h)

pub apply_mark-update_rows :
    (fails : Query → Bool) (now : ℕ) (mark : Mark) (job : Job) (rows : List Job)
    → ((q : Query) → fails q ≡ false)
    → overflows job.id rows ≡ false
    → apply_mark fails now mark job rows ≡ update_rows job.id (marked now mark) rows
unfolding apply_mark mark_done mark_dead mark_failed_retry
apply_mark-update_rows fails now mark_as_done job rows f o = ground (arith, f (done_query job.id))
apply_mark-update_rows fails now (mark_as_dead msg) job rows f o =
    ground (arith, f (dead_query job.id))
apply_mark-update_rows fails now (mark_for_retry msg at) job rows f o =
    ground (arith, f (retry_query job.id))
