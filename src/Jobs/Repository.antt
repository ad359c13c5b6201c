-- ===== src/Jobs/Repository.antt =====
-- src/jobs/persistence/jobs_repository_pg.rs: the table `jobs` and its SQL. `now` is the database's
-- clock, `fails` says which queries fail in the database, and `locked` which rows another
-- transaction holds, for `SKIP LOCKED`. A number of seconds fits an interval of the database.
pub mod Order
pub mod Enqueuing
pub mod Claiming
pub mod Snapshots
pub mod Tests
use egras.Prelude.{
  ℕ, String, Bool, true, false, ◌&&◌, ◌||◌, not, ◌+◌, ◌*◌, ◌/◌, Option, none, some, List, [], ◌∷◌,
  ◌++◌, map, filter, find, any, take, contains, leb, Result, ok, err, ◌==◌, String_eq, ℕ_eq,
  if◌then◌else◌,
}
use egras.Jobs.Model.{
  ℤ, pos, i32_max, leb_ℤ, add_one, JobState, pending, running, done, dead, Job, EnqueueRequest,
}
use egras.Jobs.Backoff.{nanos}

pub data Query : Type 0 where
  enqueue_query claim_query : Query
  done_query retry_query dead_query find_query : ℕ → Query

pub data RepoError : Type 0 where
  database : RepoError

-- `INSERT INTO jobs`; the id is a fresh UUID, and the primary key refuses one that is there.
new_job : ℕ → ℕ → EnqueueRequest → Job
new_job id now req = record {
  id = id;
  kind = req.kind;
  payload = req.payload;
  state = pending;
  attempts = pos 0;
  max_attempts = req.max_attempts;
  run_at = req.run_at;
  locked_until = none;
  locked_by = none;
  last_error = none;
  created_at = now;
  updated_at = now;
}

-- `run_at <= now()` for a pending job, `locked_until <= now()` for a running one.
abbrev expired : ℕ → Option ℕ → Bool
expired now none = false
expired now (some t) = leb t now

abbrev is_due_state : ℕ → JobState → Job → Bool
is_due_state now pending j = leb j.run_at now
is_due_state now running j = expired now j.locked_until
is_due_state now done j = false
is_due_state now dead j = false

unfoldable pub is_due : List String → ℕ → Job → Bool
is_due kinds now j = contains kinds j.kind && is_due_state now j.state j

-- `ORDER BY run_at ASC`; ties stand in the order of the table.
insert_by_run_at : Job → List Job → List Job
insert_by_run_at j [] = j ∷ []
insert_by_run_at j (k ∷ jobs) =
    if leb j.run_at k.run_at then j ∷ k ∷ jobs else k ∷ insert_by_run_at j jobs

pub order_by_run_at : List Job → List Job
order_by_run_at [] = []
order_by_run_at (j ∷ jobs) = insert_by_run_at j (order_by_run_at jobs)

abbrev pub ids : List Job → List ℕ
ids jobs = map (λ j. j.id) jobs

-- The subquery `due`.
pub due : (ℕ → Bool) → List String → ℕ → ℕ → List Job → List Job
due locked kinds now limit rows =
    take limit (order_by_run_at (filter (λ j. is_due kinds now j && not (locked j.id)) rows))

-- `SET state = 'running', locked_until = now() + visibility, …`
unfoldable pub claimed : String → ℕ → ℕ → Job → Job
claimed worker_id visibility now j = record j {
  state = running;
  locked_until = some (now + visibility / nanos * nanos);
  locked_by = some worker_id;
  updated_at = now;
}

-- `UPDATE jobs … WHERE id = ANY(chosen)`
pub claim_rows : String → ℕ → ℕ → List ℕ → List Job → List Job
claim_rows worker_id visibility now chosen [] = []
claim_rows worker_id visibility now chosen (j ∷ rows) =
    (if contains chosen j.id then claimed worker_id visibility now j else j)
    ∷ claim_rows worker_id visibility now chosen rows

-- `UPDATE jobs SET … WHERE id = $1`
pub update_rows : ℕ → (Job → Job) → List Job → List Job
update_rows id f [] = []
update_rows id f (j ∷ rows) = (if j.id == id then f j else j) ∷ update_rows id f rows

-- `attempts = attempts + 1` is an error of the database on the greatest `i32`.
unfoldable pub overflows : ℕ → List Job → Bool
overflows id rows = any (λ j. j.id == id && leb_ℤ i32_max j.attempts) rows

unfoldable pub finished : ℕ → Job → Job
finished now j = record j { state = done; locked_until = none; locked_by = none; updated_at = now }

unfoldable pub retried : String → ℕ → ℕ → Job → Job
retried error next_run_at now j = record j {
  state = pending;
  attempts = add_one j.attempts;
  last_error = some error;
  run_at = next_run_at;
  locked_until = none;
  locked_by = none;
  updated_at = now;
}

unfoldable pub killed : String → ℕ → Job → Job
killed error now j = record j {
  state = dead;
  attempts = add_one j.attempts;
  last_error = some error;
  locked_until = none;
  locked_by = none;
  updated_at = now;
}

module _ (fails : Query → Bool) where
  pub enqueue : ℕ → ℕ → EnqueueRequest → List Job → Result RepoError (ℕ × List Job)
  unfolding new_job
  enqueue id now req rows =
      if fails enqueue_query || contains (ids rows) id
      then err database
      else ok (id, rows ++ new_job id now req ∷ [])

  -- The claimed jobs, in the order of the table, and the table.
  pub claim_due :
      (ℕ → Bool)
      → String
      → List String
      → ℕ
      → ℕ
      → ℕ
      → List Job
      → Result RepoError (List Job × List Job)
  claim_due locked worker_id [] visibility limit now rows = ok ([], rows)
  claim_due locked worker_id (kind ∷ kinds) visibility limit now rows =
      if fails claim_query
      then err database
      else let chosen = ids (due locked (kind ∷ kinds) now limit rows) in
        let rows' = claim_rows worker_id visibility now chosen rows in
        ok (filter (λ j. contains chosen j.id) rows', rows')

  unfoldable pub mark_done : ℕ → ℕ → List Job → Result RepoError (List Job)
  mark_done now id rows =
      if fails (done_query id) then err database else ok (update_rows id (finished now) rows)

  unfoldable pub mark_failed_retry : ℕ → ℕ → String → ℕ → List Job → Result RepoError (List Job)
  mark_failed_retry now id error next_run_at rows =
      if fails (retry_query id) || overflows id rows
      then err database
      else ok (update_rows id (retried error next_run_at now) rows)

  unfoldable pub mark_dead : ℕ → ℕ → String → List Job → Result RepoError (List Job)
  mark_dead now id error rows =
      if fails (dead_query id) || overflows id rows
      then err database
      else ok (update_rows id (killed error now) rows)

  pub find_job : ℕ → List Job → Result RepoError (Option Job)
  find_job id rows =
      if fails (find_query id) then err database else ok (find (λ j. j.id == id) rows)
