-- ===== src/Outbox/Relayer/Tests.antt =====
-- Two events, relayed by a tick whose commit is made but not answered, and by one that works.
use egras.Prelude.{false, ◌+◌, none, [], ◌∷◌, count, ok, ◌≡◌, refl, arith, ◌==◌, String_eq}
use egras.Json
use egras.Jobs.Model.{pos}
use egras.Outbox.Model.{OutboxEvent}
use egras.Outbox.Repository.{is_unrelayed}
use egras.Outbox.Relayer.{Tables, Tick, committed, lost, default_config, tick, run}
use egras.Outbox.Relayer.Conservation.{messages, run_conserves}
use egras.Outbox.Relayer.Progress.{IsQuiet, tick_progress}

abbrev invoice : OutboxEvent
invoice = record {
  id = 1;
  aggregate_type = none;
  aggregate_id = none;
  event_type = "invoice";
  payload = Json.null;
  created_at = 5;
  relayed_at = none;
  relay_attempts = pos 0;
  last_error = none;
}

abbrev welcome : OutboxEvent
welcome = record invoice { id = 2; event_type = "welcome"; created_at = 2 }

abbrev tables : Tables
tables = record { outbox = invoice ∷ welcome ∷ []; jobs = [] }

abbrev quiet : Tick
quiet = record {
  shutdown = false;
  begin_fails = false;
  fails = λ q. false;
  enqueue_fails = λ e. false;
  locked = λ id. false;
  fresh = λ e. 100 + e.id;
  clock = λ e. 9;
  now = 9;
  commit = committed;
}

abbrev unanswered : Tick
unanswered = record quiet { commit = lost }

quiet-IsQuiet : IsQuiet quiet tables
quiet-IsQuiet = record {
  begins = refl;
  works = λ q. refl;
  enqueues = λ e. refl;
  unlocked = λ id. refl;
  commits = refl;
  fresh = λ e. refl;
  distinct = λ a b other same. other (omega (arith, same));
}

run_conserves_example :
    messages
      (λ type payload. type == "welcome")
      (run default_config (unanswered ∷ quiet ∷ []) tables)
    ≡ messages (λ type payload. type == "welcome") tables
run_conserves_example =
    run_conserves default_config (λ type payload. type == "welcome") (unanswered ∷ quiet ∷ [])
      tables ((ground arith, tt), (tt, tt))

tick_progress_example :
    ((tick default_config quiet tables).0 ≡ ok 2)
    × (count is_unrelayed (tick default_config quiet tables).1.outbox + 2 ≡ 2)
tick_progress_example =
    tick_progress default_config quiet tables quiet-IsQuiet ((ground arith, tt), (tt, tt))
