-- ===== src/Jobs/Repository/Tests.antt =====
-- Two jobs, of which one is due, and two workers that claim one after the other.
use egras.Prelude.{false, none, some, List, [], ◌∷◌, ok, ◌≡◌, refl, ◌+◌, ◌*◌, arith}
use egras.Json
use egras.Jobs.Model.{pos, pending, running, Job}
use egras.Jobs.Backoff.{nanos}
use egras.Jobs.Repository.{
  is_due, order_by_run_at, insert_by_run_at, due, claimed, claim_rows, claim_due,
}
use egras.Jobs.Repository.Order.{Misses}
use egras.Jobs.Repository.Claiming.{
  ClaimCall, claim, Write, claiming, finishing, retrying, run_writes, no_double_claim,
}

abbrev pub due_job : Job
due_job = record {
  id = 1;
  kind = "send";
  payload = Json.null;
  state = pending;
  attempts = pos 0;
  max_attempts = pos 5;
  run_at = 3;
  locked_until = none;
  locked_by = none;
  last_error = none;
  created_at = 3;
  updated_at = 3;
}

abbrev pub later_job : Job
later_job = record due_job { id = 2; run_at = 90 }

abbrev pub table : List Job
table = later_job ∷ due_job ∷ []

abbrev pub first : ClaimCall
first = record {
  fails = λ q. false;
  locked = λ id. false;
  worker_id = "worker";
  kinds = "send" ∷ [];
  visibility = 60 * nanos;
  limit = 16;
  now = 10;
}

abbrev pub taken_job : Job
taken_job = record due_job {
  state = running;
  locked_until = some (10 + 60 * nanos);
  locked_by = some "worker";
  updated_at = 10;
}

pub claim-first : claim first table ≡ ok (taken_job ∷ [], later_job ∷ taken_job ∷ [])
unfolding claim_due due is_due order_by_run_at insert_by_run_at claim_rows claimed
claim-first = refl

abbrev second : ClaimCall
second = record first { worker_id = "other"; now = 100 }

abbrev writes : List Write
writes =
    retrying (λ q. false) 20 2 "timeout" 50 ∷ claiming second ∷ finishing (λ q. false) 60 2 ∷ []

no_double_claim_example : Misses 1 (run_writes writes (later_job ∷ taken_job ∷ []))
no_double_claim_example =
    no_double_claim first writes table (taken_job ∷ []) (later_job ∷ taken_job ∷ []) 1 claim-first
      refl (λ e. absurd (omega arith), (omega arith, (λ e. absurd (omega arith), tt)))
