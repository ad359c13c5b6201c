-- ===== src/Jobs/Repository/Claiming.antt =====
-- Claims exclude one another: a claimed job is not claimed again before its lock expires, unless a
-- write is about it.
use egras.Prelude.{
  ℕ, String, Bool, true, false, ◌&&◌, ◌||◌, ◌==◌, not, ◌+◌, ◌*◌, ◌/◌, ◌<◌, some, List, [], ◌∷◌,
  ◌++◌, All, All-filter, All-trivial, All-append, filter, contains, Result, ok, err, ◌≡◌, ◌≢◌, ◌⊎◌,
  ℕ_eq, arith, refl, Bool-cases, Result-cases, inl, inr,
}
use egras.Jobs.Model.{Job, EnqueueRequest, running}
use egras.Jobs.Backoff.{nanos}
use egras.Jobs.Repository.{
  Query, RepoError, ids, is_due, due, claimed, claim_rows, claim_due, update_rows, overflows,
  new_job, finished, retried, killed, enqueue, mark_done, mark_failed_retry, mark_dead,
  enqueue_query, done_query, retry_query, dead_query,
}
use egras.Jobs.Repository.Order.{Misses, All-due, contains-ids_of_Misses}

-- Every row with the id is locked until an instant.
pub record IsLocked (until : ℕ) (r : Job) : Type 0 where
  pub state : r.state ≡ running
  pub locked_until : r.locked_until ≡ some until

abbrev pub Holds : ℕ → ℕ → List Job → Type 0
Holds until id rows = All (λ (r : Job). r.id ≡ id → IsLocked until r) rows

-- One call of `claim_due`, by any worker.
pub record ClaimCall : Type 0 where
  pub fails : Query → Bool
  pub locked : ℕ → Bool
  pub worker_id : String
  pub kinds : List String
  pub visibility : ℕ
  pub limit : ℕ
  pub now : ℕ

abbrev pub claim : ClaimCall → List Job → Result RepoError (List Job × List Job)
claim c rows = claim_due c.fails c.locked c.worker_id c.kinds c.visibility c.limit c.now rows

-- A write of the table, by any worker or enqueuer, and which of its queries fail.
pub data Write : Type 0 where
  claiming : ClaimCall → Write
  enqueuing : (Query → Bool) → ℕ → ℕ → EnqueueRequest → Write
  finishing : (Query → Bool) → ℕ → ℕ → Write
  retrying : (Query → Bool) → ℕ → ℕ → String → ℕ → Write
  killing : (Query → Bool) → ℕ → ℕ → String → Write

abbrev if_claimed : List Job → Result RepoError (List Job × List Job) → List Job × List Job
if_claimed rows (err e) = ([], rows)
if_claimed rows (ok result) = result

abbrev if_added : List Job → Result RepoError (ℕ × List Job) → List Job × List Job
if_added rows (err e) = ([], rows)
if_added rows (ok (id, rows')) = ([], rows')

abbrev if_marked : List Job → Result RepoError (List Job) → List Job × List Job
if_marked rows (err e) = ([], rows)
if_marked rows (ok rows') = ([], rows')

-- The jobs that a write returns to a worker, and the table it leaves.
pub written : Write → List Job → List Job × List Job
written (claiming c) rows = if_claimed rows (claim c rows)
written (enqueuing fails id now req) rows = if_added rows (enqueue fails id now req rows)
written (finishing fails now id) rows = if_marked rows (mark_done fails now id rows)
written (retrying fails now id error next_run_at) rows =
    if_marked rows (mark_failed_retry fails now id error next_run_at rows)
written (killing fails now id error) rows = if_marked rows (mark_dead fails now id error rows)

-- Writes one after the other; the jobs that their claims return.
pub run_writes : List Write → List Job → List Job
run_writes [] rows = []
run_writes (w ∷ writes) rows = (written w rows).0 ++ run_writes writes (written w rows).1

-- A claim before the instant, or another write that is not about the job.
abbrev pub Spares : ℕ → ℕ → Write → Type 0
Spares until id (claiming c) = c.now < until
Spares until id (enqueuing _ other _ _) = other ≢ id
Spares until id (finishing _ _ other) = other ≢ id
Spares until id (retrying _ _ other _ _) = other ≢ id
Spares until id (killing _ _ other _) = other ≢ id

-- The instant at which a claim's locks expire.
abbrev pub expiry : ClaimCall → ℕ
expiry c = c.now + c.visibility / nanos * nanos

module _ (c : ClaimCall) (chosen : List ℕ) (id : ℕ) where
  claim_rows-Holds :
      (rows : List Job)
      → contains chosen id ≡ true
      → Holds (expiry c) id (claim_rows c.worker_id c.visibility c.now chosen rows)
  unfolding claim_rows claimed
  claim_rows-Holds [] h = tt
  claim_rows-Holds (r ∷ rows) h = (
    λ same.
        let fact : contains chosen r.id ≡ true = ground arith in
        rw fact (record { state = refl; locked_until = refl }),
    claim_rows-Holds rows h,
  )

  claim_rows-Holds_keep :
      (until : ℕ) (rows : List Job)
      → contains chosen id ≡ false
      → Holds until id rows
      → Holds until id (claim_rows c.worker_id c.visibility c.now chosen rows)
  unfolding claim_rows claimed
  claim_rows-Holds_keep until [] h k = tt
  claim_rows-Holds_keep until (r ∷ rows) h (p, k) = (
    λ same. elim (Bool-cases (contains chosen r.id)) [
      | inl hit ↦ let same_id : r.id ≡ id = rw hit at same in absurd (ground arith)
      | inr miss ↦ rw miss (p (rw miss at same))
    ],
    claim_rows-Holds_keep until rows h k,
  )

due-Misses :
    (locked : ℕ → Bool) (kinds : List String) (now limit until id : ℕ) (rows : List Job)
    → now < until
    → Holds until id rows
    → Misses id (due locked kinds now limit rows)
unfolding is_due
due-Misses locked kinds now limit until id rows early h =
    All-due (λ r. r.id ≢ id) locked kinds now limit rows
      (All-filter (λ r. r.id ≡ id → IsLocked until r) (λ r. r.id ≢ id)
        (λ j. is_due kinds now j && not (locked j.id)) rows
        (λ r q passes same. let l = q same in ground (arith, l.state, l.locked_until)) h)

kept-Misses :
    (chosen : List ℕ) (id : ℕ) (rows : List Job)
    → contains chosen id ≡ false
    → Misses id (filter (λ j. contains chosen j.id) rows)
kept-Misses chosen id rows h =
    All-filter (λ r. Unit {0}) (λ r. r.id ≢ id) (λ j. contains chosen j.id) rows
      (λ r _ kept same. ground arith) (All-trivial (λ r. Unit {0}) rows (λ r. tt))

abbrev pub chosen : ClaimCall → List Job → List ℕ
chosen c rows = ids (due c.locked c.kinds c.now c.limit rows)

abbrev pub after : ClaimCall → List Job → List Job
after c rows = claim_rows c.worker_id c.visibility c.now (chosen c rows) rows

-- What a claim that succeeds returns: nothing, when it asks for no kinds, or the chosen rows.
pub claim-ok :
    (c : ClaimCall) (rows jobs rows' : List Job)
    → claim c rows ≡ ok (jobs, rows')
    → ((jobs ≡ []) × (rows' ≡ rows))
      ⊎ ((jobs ≡ filter (λ (j : Job). contains (chosen c rows) j.id) (after c rows))
          × (rows' ≡ after c rows))
unfolding claim_due
claim-ok c rows jobs rows' e = go c.kinds e
  where
    go :
        (kinds : List String)
        → let d = record c { kinds = kinds } in
          claim d rows ≡ ok (jobs, rows')
          → ((jobs ≡ []) × (rows' ≡ rows))
            ⊎ ((jobs ≡ filter (λ (j : Job). contains (chosen d rows) j.id) (after d rows))
                × (rows' ≡ after d rows))
    go [] e = inl (ground arith, ground arith)
    go (kind ∷ kinds) e = inr (ground arith, ground arith)

-- A claim before the expiry neither returns the locked job nor touches its lock.
claim_excludes :
    (c : ClaimCall) (until id : ℕ) (rows jobs rows' : List Job)
    → c.now < until
    → Holds until id rows
    → claim c rows ≡ ok (jobs, rows')
    → Misses id jobs × Holds until id rows'
claim_excludes c until id rows jobs rows' early h e = elim (claim-ok c rows jobs rows' e) [
  | inl (no_jobs, same) ↦ rw (no_jobs, same) (tt, h)
  | inr (some_jobs, changed) ↦
      let missed =
        contains-ids_of_Misses id (due c.locked c.kinds c.now c.limit rows)
          (due-Misses c.locked c.kinds c.now c.limit until id rows early h) in
      rw (some_jobs, changed)
        (
          kept-Misses (chosen c rows) id (after c rows) missed,
          claim_rows-Holds_keep c (chosen c rows) id until rows missed h,
        )
]

-- A claimed job's row is locked until the claim's expiry.
claim-Holds :
    (c : ClaimCall) (rows jobs rows' : List Job)
    → claim c rows ≡ ok (jobs, rows')
    → All (λ (j : Job). Holds (expiry c) j.id rows') jobs
claim-Holds c rows jobs rows' e = elim (claim-ok c rows jobs rows' e) [
  | inl (no_jobs, same) ↦ rw no_jobs tt
  | inr (some_jobs, changed) ↦
      rw (some_jobs, changed)
        (All-filter (λ j. Unit {0}) (λ j. Holds (expiry c) j.id (after c rows))
          (λ j. contains (chosen c rows) j.id) (after c rows)
          (λ j _ kept. claim_rows-Holds c (chosen c rows) j.id rows kept)
          (All-trivial (λ r. Unit {0}) (after c rows) (λ r. tt)))
]

module _ (until id : ℕ) where
  update_rows-Holds :
      (other : ℕ) (f : Job → Job) (rows : List Job)
      → ((r : Job) → (f r).id ≡ r.id)
      → other ≢ id
      → Holds until id rows
      → Holds until id (update_rows other f rows)
  unfolding update_rows
  update_rows-Holds other f [] keeps apart h = tt
  update_rows-Holds other f (r ∷ rows) keeps apart (p, h) = (
    λ same. elim (Bool-cases (r.id == other)) [
      | inl hit ↦
          let same_id : (f r).id ≡ id = rw hit at same in absurd (apart (ground (arith, keeps r)))
      | inr miss ↦ rw miss (p (rw miss at same))
    ],
    update_rows-Holds other f rows keeps apart h,
  )

  written_excludes :
      (w : Write) (rows : List Job)
      → Spares until id w
      → Holds until id rows
      → Misses id (written w rows).0 × Holds until id (written w rows).1
  unfolding written enqueue new_job mark_done mark_failed_retry mark_dead finished retried killed
  written_excludes (claiming c) rows early h = elim (Result-cases (claim c rows)) [
    | inr (e, failed) ↦ rw (failed, written) (tt, h)
    | inl ((jobs, rows'), claimed_jobs) ↦
        rw (claimed_jobs, written) (claim_excludes c until id rows jobs rows' early h claimed_jobs)
  ]
  written_excludes (enqueuing fails other now req) rows apart h =
      elim (Bool-cases (fails enqueue_query || contains (ids rows) other)) [
        | inl refused ↦ rw (refused, written, enqueue) (tt, h)
        | inr taken ↦
            rw (taken, written, enqueue)
              (
                tt,
                All-append (λ (r : Job). r.id ≡ id → IsLocked until r) rows
                    (new_job other now req ∷ []) h (λ same. absurd (apart same), tt),
              )
      ]
  written_excludes (finishing fails now other) rows apart h =
      elim (Bool-cases (fails (done_query other))) [
        | inl failed ↦ rw (failed, written, mark_done) (tt, h)
        | inr marked ↦
            rw (marked, written, mark_done)
              (tt, update_rows-Holds other (finished now) rows (λ r. refl) apart h)
      ]
  written_excludes (retrying fails now other error next_run_at) rows apart h =
      elim (Bool-cases (fails (retry_query other) || overflows other rows)) [
        | inl failed ↦ rw (failed, written, mark_failed_retry) (tt, h)
        | inr marked ↦
            rw (marked, written, mark_failed_retry)
              (tt, update_rows-Holds other (retried error next_run_at now) rows (λ r. refl) apart h)
      ]
  written_excludes (killing fails now other error) rows apart h =
      elim (Bool-cases (fails (dead_query other) || overflows other rows)) [
        | inl failed ↦ rw (failed, written, mark_dead) (tt, h)
        | inr marked ↦
            rw (marked, written, mark_dead)
              (tt, update_rows-Holds other (killed error now) rows (λ r. refl) apart h)
      ]

  run_writes_excludes :
      (writes : List Write) (rows : List Job)
      → All (Spares until id) writes
      → Holds until id rows
      → Misses id (run_writes writes rows)
  unfolding run_writes
  run_writes_excludes [] rows spared h = tt
  run_writes_excludes (w ∷ writes) rows (spares, spared) h =
      let (missed, held) = written_excludes w rows spares h in
      All-append (λ r. r.id ≢ id) (written w rows).0 (run_writes writes (written w rows).1) missed
        (run_writes_excludes writes (written w rows).1 spared held)

  Holds-of_contains :
      (rows jobs : List Job)
      → contains (ids jobs) id ≡ true
      → All (λ (j : Job). Holds until j.id rows) jobs
      → Holds until id rows
  Holds-of_contains rows [] h a = absurd (ground arith)
  Holds-of_contains rows (j ∷ jobs) h (held, a) = elim (Bool-cases (j.id == id)) [
    | inl here ↦ let same : j.id ≡ id = ground arith in rw (← same) held
    | inr there ↦ Holds-of_contains rows jobs (ground arith) a
  ]

-- No double claim: a job that a claim returned is returned by no later claim, by any worker, for any
-- kinds and limits, while every later claim comes before the first claim's locks expire, and every
-- other write in between (an insertion, or a mark as done, dead or to be retried, each of which may
-- fail) is about another job. Nothing is said once the job itself has been marked.
pub no_double_claim :
    (first : ClaimCall) (writes : List Write) (rows jobs rows' : List Job) (id : ℕ)
    → claim first rows ≡ ok (jobs, rows')
    → contains (ids jobs) id ≡ true
    → All (Spares (expiry first) id) writes
    → Misses id (run_writes writes rows')
no_double_claim first writes rows jobs rows' id e returned spared =
    run_writes_excludes (expiry first) id writes rows' spared (
      Holds-of_contains (expiry first) id rows' jobs returned (claim-Holds first rows jobs rows' e))
