-- ===== src/Jobs/Runner/Tests.antt =====
-- A runner with one handler that always asks for a retry, over the table of two jobs.
use egras.Prelude.{ℕ, false, none, some, [], ◌∷◌, err, ◌≡◌, ◌≢◌, refl, arith, All, Option}
use egras.Jobs.Model.{pos, pending, Job, leb_ℤ}
use egras.Jobs.Repository.Tests.{due_job, later_job, table, taken_job, claim-first}
use egras.Jobs.Runner.{
  JobRunner, JobHandler, retryable, default_config, Round, run, poll, find_handler,
}
use egras.Jobs.Runner.Retries.{Failure, attempts, attempts-dead}
use egras.Jobs.Runner.Batches.{IsSettled}
use egras.Jobs.Runner.Polls.{IsTable, run-IsTable, poll-IsSettled, claimed_has_handler}

abbrev from_std : ℕ → Option ℕ
from_std d = some d

abbrev sender : JobHandler
sender = record { kind = "send"; handle = λ payload. err (retryable "timeout") }

abbrev runner : JobRunner
runner = record { handlers = sender ∷ []; worker_id = "worker"; cfg = default_config }

abbrev round : Round
round = record {
  shutdown = false;
  fails = λ q. false;
  locked = λ id. false;
  now = 10;
  clock = λ j. 12;
}

table-IsTable : IsTable table
unfolding leb_ℤ
table-IsTable = record {
  distinct = ((ground arith, tt), (tt, tt));
  sound = (
    record { budget = λ _. refl; in_range = refl },
    (record { budget = λ _. refl; in_range = refl }, tt),
  );
}

run-IsTable_example : IsTable (run from_std runner (round ∷ []) table)
run-IsTable_example = run-IsTable from_std runner (round ∷ []) table table-IsTable

poll-IsSettled_example :
    All (λ (j : Job). IsSettled (poll from_std runner round table) j.id) (taken_job ∷ [])
poll-IsSettled_example =
    poll-IsSettled from_std runner round table (taken_job ∷ []) (later_job ∷ taken_job ∷ [])
      table-IsTable (λ q. refl) claim-first

claimed_has_handler_example :
    All (λ (j : Job). find_handler j.kind runner.handlers ≢ none) (taken_job ∷ [])
claimed_has_handler_example =
    claimed_has_handler runner round table (taken_job ∷ []) (later_job ∷ taken_job ∷ [])
      table-IsTable claim-first

abbrev failure : Failure
failure = record {
  worker_id = "worker";
  visibility = 60;
  claimed_at = 10;
  now = 12;
  message = "timeout";
}

attempts-dead_example :
    ((attempts default_config from_std (failure ∷ failure ∷ []) due_job).attempts ≡ pos 2)
    × ((attempts default_config from_std (failure ∷ failure ∷ []) due_job).state ≡ pending)
attempts-dead_example =
    attempts-dead default_config from_std failure (failure ∷ []) due_job 0 5 refl refl (omega arith)
      (omega arith)
