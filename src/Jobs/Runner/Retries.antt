-- ===== src/Jobs/Runner/Retries.antt =====
-- The life of one job: what each outcome of its handler makes of its row.
use egras.Prelude.{
  ℕ, String, ◌+◌, ◌<◌, ◌≤◌, Option, err, ◌≡◌, arith, List, [], ◌∷◌, length, ltb, if◌then◌else◌,
}
use egras.Jobs.Model.{pos, pending, dead, Job, add_one, leb_ℤ}
use egras.Jobs.Repository.{finished, retried, killed, claimed}
use egras.Jobs.Runner.{
  JobRunnerConfig, retryable, Mark, mark_as_done, mark_as_dead, mark_for_retry, decide,
}

-- The row that a mark makes of a row.
abbrev pub marked : ℕ → Mark → Job → Job
marked now mark_as_done j = finished now j
marked now (mark_as_dead msg) j = killed msg now j
marked now (mark_for_retry msg next_run_at) j = retried msg next_run_at now j

-- One attempt that fails and may be retried: who claims the job, when, and when it has failed.
pub record Failure : Type 0 where
  pub worker_id : String
  pub visibility : ℕ
  pub claimed_at : ℕ
  pub now : ℕ
  pub message : String

module _ (cfg : JobRunnerConfig) (from_std : ℕ → Option ℕ) where
  pub attempt : Failure → Job → Job
  unfolding claimed
  attempt f j =
      let k = claimed f.worker_id f.visibility f.claimed_at j in
      marked f.now (decide cfg from_std f.now (err (retryable f.message)) k) k

  pub attempts : List Failure → Job → Job
  attempts [] j = j
  attempts (f ∷ fs) j = attempts fs (attempt f j)

  record HasUsed (a m : ℕ) (j : Job) : Type 0 where
    used : j.attempts ≡ pos a
    budget : j.max_attempts ≡ pos m

  attempt-HasUsed :
      (f : Failure) (j : Job) (a m : ℕ)
      → a < m
      → m ≤ 2_147_483_647
      → HasUsed a m j
      → HasUsed (a + 1) m (attempt f j)
  unfolding attempt decide finished retried killed add_one leb_ℤ
  attempt-HasUsed f j a m lt range h = let used = h.used in let budget = h.budget in ground arith

  attempt_state :
      (f : Failure) (j : Job) (a m : ℕ)
      → a < m
      → m ≤ 2_147_483_647
      → HasUsed a m j
      → (attempt f j).state ≡ (if ltb (a + 1) m then pending else dead)
  unfolding attempt decide finished retried killed add_one leb_ℤ
  attempt_state f j a m lt range h = let used = h.used in let budget = h.budget in ground arith

  -- A job that has used `a` of its `m` attempts, and whose handler fails again and again, is
  -- pending after each of the next failures but the last, and dead after the failure that makes
  -- them `m`; every failure counts once. `m` fits an `i32`.
  pub attempts-dead :
      (f : Failure) (fs : List Failure) (j : Job) (a m : ℕ)
      → j.attempts ≡ pos a
      → j.max_attempts ≡ pos m
      → a + length (f ∷ fs) ≤ m
      → m ≤ 2_147_483_647
      → let k = attempts (f ∷ fs) j in
        (k.attempts ≡ pos (a + length (f ∷ fs)))
        × (k.state ≡ (if ltb (a + length (f ∷ fs)) m then pending else dead))
  unfolding attempts
  attempts-dead f [] j a m e g le range =
      let h : HasUsed a m j = record { used = e; budget = g } in
      (
        (attempt-HasUsed f j a m (omega arith) range h).used,
        attempt_state f j a m (omega arith) range h,
      )
  attempts-dead f (f' ∷ fs) j a m e g le range =
      let h = attempt-HasUsed f j a m (omega arith) range (record { used = e; budget = g }) in
      let (counted, state) =
        attempts-dead f' fs (attempt f j) (a + 1) m h.used h.budget (omega arith) range in
      let same : a + 1 + length (f' ∷ fs) ≡ a + length (f ∷ f' ∷ fs) = omega arith in
      rw (← same) (counted, state)
