-- ===== src/Jobs/Runner/Polls.antt =====
-- What a poll of the runner makes of the table, while no other process writes to it.
use egras.Prelude.{
  ℕ, String, true, false, Option, none, List, [], ◌∷◌, All, All-mono, All-zip, contains, ok, ◌≡◌,
  ◌≢◌, sym, arith, Bool-cases, Result-cases, inl, inr, ◌==◌, ℕ_eq, String_eq, map,
}
use egras.Jobs.Model.{Job}
use egras.Jobs.Repository.{Query}
use egras.Jobs.Repository.Order.{Misses}
use egras.Jobs.Repository.Claiming.{ClaimCall, claim}
use egras.Jobs.Repository.Snapshots.{Distinct, claim-Snapshot}
use egras.Jobs.Runner.{
  JobRunner, JobHandler, Round, dispatch, dispatch_all, poll, run, registered_kinds, find_handler,
}
use egras.Jobs.Runner.Marks.{IsSound}
use egras.Jobs.Runner.Batches.{
  IsReady, IsSettled, dispatch-IsSound, dispatch-IsReady, dispatch-Distinct,
  dispatch_keeps_IsSettled, dispatch-IsSettled,
}
use egras.Jobs.Runner.Taken.{IsTaken, claim-IsTaken, claim-IsReady}

module _ (from_std : ℕ → Option ℕ) (r : JobRunner) (round : Round) where
  rest-IsReady :
      (j : Job) (jobs rows : List Job)
      → Misses j.id jobs
      → All (IsReady rows) jobs
      → All (IsReady (dispatch from_std r round j rows)) jobs
  rest-IsReady j jobs rows m h =
      All-mono (λ (k : Job). (k.id ≢ j.id) × IsReady rows k)
        (IsReady (dispatch from_std r round j rows)) jobs
        (λ k p. dispatch-IsReady from_std r round j k rows (λ e. p.0 (sym e)) p.1)
        (All-zip (λ (k : Job). k.id ≢ j.id) (IsReady rows) jobs m h)

  dispatch_all-IsSound :
      (jobs rows : List Job)
      → Distinct jobs
      → All (IsReady rows) jobs
      → All IsSound rows
      → All IsSound (dispatch_all from_std r round jobs rows)
  unfolding dispatch_all
  dispatch_all-IsSound [] rows d ready h = h
  dispatch_all-IsSound (j ∷ jobs) rows (m, d) (p, ready) h =
      dispatch_all-IsSound jobs (dispatch from_std r round j rows) d
        (rest-IsReady j jobs rows m ready) (dispatch-IsSound from_std r round j rows p h)

  dispatch_all-Distinct :
      (jobs rows : List Job) → Distinct rows → Distinct (dispatch_all from_std r round jobs rows)
  unfolding dispatch_all
  dispatch_all-Distinct [] rows h = h
  dispatch_all-Distinct (j ∷ jobs) rows h =
      dispatch_all-Distinct jobs (dispatch from_std r round j rows)
        (dispatch-Distinct from_std r round j rows h)

  dispatch_all_keeps_IsSettled :
      (jobs : List Job) (id : ℕ) (rows : List Job)
      → IsSettled rows id
      → IsSettled (dispatch_all from_std r round jobs rows) id
  unfolding dispatch_all
  dispatch_all_keeps_IsSettled [] id rows h = h
  dispatch_all_keeps_IsSettled (j ∷ jobs) id rows h =
      dispatch_all_keeps_IsSettled jobs id (dispatch from_std r round j rows)
        (dispatch_keeps_IsSettled from_std r round j id rows h)

  dispatch_all-IsSettled :
      (jobs rows : List Job)
      → ((q : Query) → round.fails q ≡ false)
      → Distinct jobs
      → All (IsReady rows) jobs
      → All (λ (j : Job). IsSettled (dispatch_all from_std r round jobs rows) j.id) jobs
  unfolding dispatch_all
  dispatch_all-IsSettled [] rows works d ready = tt
  dispatch_all-IsSettled (j ∷ jobs) rows works (m, d) (p, ready) = (
    dispatch_all_keeps_IsSettled jobs j.id (dispatch from_std r round j rows)
        (dispatch-IsSettled from_std r round j rows works p),
    dispatch_all-IsSettled jobs (dispatch from_std r round j rows) works d
        (rest-IsReady j jobs rows m ready),
  )

-- The claim that a poll makes.
abbrev pub poll_claim : JobRunner → Round → ClaimCall
poll_claim r round = record {
  fails = round.fails;
  locked = round.locked;
  worker_id = r.worker_id;
  kinds = registered_kinds r;
  visibility = r.cfg.visibility_timeout;
  limit = r.cfg.batch_size;
  now = round.now;
}

-- A table of jobs: ids are distinct, and a job that can still be run has attempts left.
pub record IsTable (rows : List Job) : Type 0 where
  pub distinct : Distinct rows
  pub sound : All IsSound rows

module _ (from_std : ℕ → Option ℕ) (r : JobRunner) where
  poll-IsTable :
      (round : Round) (rows : List Job) → IsTable rows → IsTable (poll from_std r round rows)
  unfolding poll
  poll-IsTable round rows h = elim (Result-cases (claim (poll_claim r round) rows)) [
    | inr (e, failed) ↦ rw (failed, poll) h
    | inl ((jobs, rows'), taken) ↦
        let c = poll_claim r round in
        let snap = claim-Snapshot c rows jobs rows' h.distinct taken in
        rw (taken, poll)
          (record {
            distinct = dispatch_all-Distinct from_std r round jobs rows' snap.2;
            sound =
                dispatch_all-IsSound from_std r round jobs rows' snap.0
                  (claim-IsReady c rows jobs rows' h.distinct h.sound taken)
                  (claim-IsTaken c rows jobs rows' h.distinct h.sound taken).1;
          })
  ]

  -- Of a table with distinct ids, in which every job that is pending or running has attempts left, the
  -- runner's loop makes such a table again, whatever faults the database has, when no other process
  -- writes.
  pub run-IsTable :
      (rounds : List Round) (rows : List Job) → IsTable rows → IsTable (run from_std r rounds rows)
  unfolding run
  run-IsTable [] rows h = h
  run-IsTable (round ∷ rounds) rows h = elim (Bool-cases round.shutdown) [
    | inl stop ↦ simp stop h
    | inr go ↦ simp go (run-IsTable rounds (poll from_std r round rows) (poll-IsTable round rows h))
  ]

  -- Where no query of the database fails, a poll of a table with distinct ids and attempts left leaves none of the jobs that it claimed
  -- running: each is done, dead, or pending again, when no other process writes.
  pub poll-IsSettled :
      (round : Round) (rows jobs rows' : List Job)
      → IsTable rows
      → ((q : Query) → round.fails q ≡ false)
      → claim (poll_claim r round) rows ≡ ok (jobs, rows')
      → All (λ (j : Job). IsSettled (poll from_std r round rows) j.id) jobs
  unfolding poll
  poll-IsSettled round rows jobs rows' h works taken =
      let c = poll_claim r round in
      rw (taken, poll)
        (dispatch_all-IsSettled from_std r round jobs rows' works
          (claim-Snapshot c rows jobs rows' h.distinct taken).0
          (claim-IsReady c rows jobs rows' h.distinct h.sound taken))

registered :
    (kind : String) (handlers : List JobHandler)
    → contains (map (λ h. h.kind) handlers) kind ≡ true
    → find_handler kind handlers ≢ none
unfolding find_handler
registered kind [] h e = cc
registered kind (x ∷ handlers) h e = elim (Bool-cases (x.kind == kind)) [
  | inl here ↦ ground arith
  | inr there ↦ registered kind handlers (ground arith) (rw there at e)
]

-- Each job that a poll claims has a handler: the outcome for a kind that is not registered is never
-- recorded, when the table's ids are distinct and its jobs have attempts left.
pub claimed_has_handler :
    (r : JobRunner) (round : Round) (rows jobs rows' : List Job)
    → IsTable rows
    → claim (poll_claim r round) rows ≡ ok (jobs, rows')
    → All (λ (j : Job). find_handler j.kind r.handlers ≢ none) jobs
claimed_has_handler r round rows jobs rows' h taken =
    All-mono (λ (j : Job). IsSound j × IsTaken (registered_kinds r) j)
      (λ j. find_handler j.kind r.handlers ≢ none) jobs
      (λ j p. registered j.kind r.handlers p.1.kind)
      (claim-IsTaken (poll_claim r round) rows jobs rows' h.distinct h.sound taken).0
