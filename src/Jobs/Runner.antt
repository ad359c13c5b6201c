-- ===== src/Jobs/Runner.antt =====
-- src/jobs/runner.rs: `JobRunner`. The runner's clock is `Utc::now()`; `from_std` is chrono's
-- `Duration::from_std`, in nanoseconds. Errors of the repository are logged and dropped.
pub mod Retries
pub mod Marks
pub mod Batches
pub mod Taken
pub mod Polls
pub mod Tests
use Prim.Native.String
use egras.Prelude.{
  ℕ, String, Bool, ◌+◌, ◌*◌, Option, none, some, List, [], ◌∷◌, map, find, Result, ok, err, ◌==◌,
  String_eq, if◌then◌else◌,
}
use egras.Json.{Value}
use egras.Jobs.Model.{ℤ, leb_ℤ, add_one, as_u32, Job}
use egras.Jobs.Backoff.{nanos, compute_backoff}
use egras.Jobs.Repository.{Query, RepoError, claim_due, mark_done, mark_dead, mark_failed_retry}

pub data JobError : Type 0 where
  retryable permanent : String → JobError

-- What a handler answers on a payload; its effects elsewhere are not part of the model.
pub record JobHandler : Type 0 where
  pub kind : String
  pub handle : Value → Result JobError (Unit {0})

pub record JobRunnerConfig : Type 0 where
  pub poll_interval : ℕ
  pub visibility_timeout : ℕ
  pub batch_size : ℕ
  pub backoff_initial : ℕ
  pub backoff_factor : ℕ
  pub backoff_max : ℕ

abbrev pub default_config : JobRunnerConfig
default_config = record {
  poll_interval = 500_000_000;
  visibility_timeout = 60 * nanos;
  batch_size = 16;
  backoff_initial = 5 * nanos;
  backoff_factor = 4;
  backoff_max = 3600 * nanos;
}

pub record JobRunner : Type 0 where
  pub handlers : List JobHandler
  pub worker_id : String
  pub cfg : JobRunnerConfig

abbrev or_else {ℓ} : {A : Type ℓ} → Option A → A → A
or_else none a = a
or_else (some b) a = b

remove_kind : String → List JobHandler → List JobHandler
remove_kind kind [] = []
remove_kind kind (h ∷ hs) =
    let rest = remove_kind kind hs in if h.kind == kind then rest else h ∷ rest

-- A map: a handler takes the place of one of its kind.
pub register : JobHandler → JobRunner → JobRunner
unfolding remove_kind
register handler r = record r { handlers = handler ∷ remove_kind handler.kind r.handlers }

abbrev pub registered_kinds : JobRunner → List String
registered_kinds r = map (λ h. h.kind) r.handlers

-- What `dispatch` asks of the repository, by the outcome of the handler.
pub data Mark : Type 0 where
  mark_as_done : Mark
  mark_as_dead : String → Mark
  mark_for_retry : String → ℕ → Mark

abbrev retry_mark : JobRunnerConfig → (ℕ → Option ℕ) → ℕ → String → Job → Mark
retry_mark cfg from_std now msg job =
    let next_attempt = add_one job.attempts in
    let backoff =
      compute_backoff (as_u32 next_attempt) cfg.backoff_initial cfg.backoff_factor
        cfg.backoff_max in
    if leb_ℤ job.max_attempts next_attempt
    then mark_as_dead msg
    else mark_for_retry msg (now + or_else (from_std backoff) (5 * nanos))

pub decide : JobRunnerConfig → (ℕ → Option ℕ) → ℕ → Result JobError (Unit {0}) → Job → Mark
decide cfg from_std now (ok _) job = mark_as_done
decide cfg from_std now (err (permanent msg)) job = mark_as_dead msg
decide cfg from_std now (err (retryable msg)) job = retry_mark cfg from_std now msg job

abbrev kept : List Job → Result RepoError (List Job) → List Job
kept rows (ok rows') = rows'
kept rows (err e) = rows

pub apply_mark : (Query → Bool) → ℕ → Mark → Job → List Job → List Job
apply_mark fails now mark_as_done job rows = kept rows (mark_done fails now job.id rows)
apply_mark fails now (mark_as_dead msg) job rows = kept rows (mark_dead fails now job.id msg rows)
apply_mark fails now (mark_for_retry msg next_run_at) job rows =
    kept rows (mark_failed_retry fails now job.id msg next_run_at rows)

pub find_handler : String → List JobHandler → Option JobHandler
find_handler kind handlers = find (λ h. h.kind == kind) handlers

pub outcome : List JobHandler → Job → Result JobError (Unit {0})
outcome handlers job = elim (find_handler job.kind handlers) [
  | none ↦ err (permanent (String.◌++◌ "no handler for kind '" (String.◌++◌ job.kind "'")))
  | some h ↦ h.handle job.payload
]

-- The world while a batch runs: the queries that fail, the rows that other transactions hold, and
-- the two clocks, when the batch is claimed and when each job's outcome is recorded.
pub record Round : Type 0 where
  pub shutdown : Bool
  pub fails : Query → Bool
  pub locked : ℕ → Bool
  pub now : ℕ
  pub clock : Job → ℕ

module _ (from_std : ℕ → Option ℕ) (r : JobRunner) where
  pub dispatch : Round → Job → List Job → List Job
  dispatch round job rows =
      apply_mark round.fails (round.clock job)
        (decide r.cfg from_std (round.clock job) (outcome r.handlers job) job) job rows

  pub dispatch_all : Round → List Job → List Job → List Job
  dispatch_all round [] rows = rows
  dispatch_all round (job ∷ jobs) rows = dispatch_all round jobs (dispatch round job rows)

  -- The body of the loop; a failed claim is an empty batch, after which it sleeps.
  pub poll : Round → List Job → List Job
  poll round rows =
      elim (claim_due round.fails round.locked r.worker_id (registered_kinds r)
        r.cfg.visibility_timeout r.cfg.batch_size round.now rows) [
          | err e ↦ rows
          | ok (jobs, rows') ↦ dispatch_all round jobs rows'
        ]

  -- The loop: the shutdown flag is read before each batch, never within one.
  pub run : List Round → List Job → List Job
  run [] rows = rows
  run (round ∷ rounds) rows =
      let rest = run rounds (poll round rows) in if round.shutdown then rows else rest
