-- ===== src/Audit/Worker.antt =====
-- src/audit/worker.rs and the channel of src/audit/service/record_event.rs. `insert event i` says
-- whether the insert of the attempt `i` goes through. A run of the retry loop gives what it did: whether
-- the event was written, and the milliseconds that it slept. `attempt` is a `u32`, and wraps.
pub mod Retries
pub mod Tests
use egras.Prelude.{
  ℕ, zero, suc, Bool, true, false, ◌+◌, ◌*◌, ◌%◌, min, Option, none, some, List, [], ◌∷◌, ◌++◌,
  length, ltb, leb, if◌then◌else◌, Result, ok, err,
}
use egras.Audit.Model.{AuditEvent}

abbrev pub u64_max : ℕ
u64_max = 18_446_744_073_709_551_615

pub record AuditWorker : Type 0 where
  pub max_retries : ℕ
  pub backoff_initial_ms : ℕ

pub record Written : Type 0 where
  pub written : Bool
  pub sleeps : List ℕ

abbrev slept : ℕ → Option Written → Option Written
slept ms none = none
slept ms (some r) = some (record r { sleeps = ms ∷ r.sleeps })

-- The loop, with the number of the attempts so far and the next delay; `none` is the end of the fuel.
retry : (ℕ → Bool) → ℕ → ℕ → ℕ → ℕ → Option Written
retry insert max_retries zero attempt backoff_ms = none
retry insert max_retries (suc fuel) attempt backoff_ms =
    let next = (attempt + 1) % 4_294_967_296 in
    let rest = retry insert max_retries fuel next (min u64_max (backoff_ms * 4)) in
    if insert attempt
    then some (record { written = true; sleeps = [] })
    else if ltb max_retries next
    then some (record { written = false; sleeps = [] })
    else slept backoff_ms rest

pub write_with_retry : AuditWorker → (AuditEvent → ℕ → Bool) → ℕ → AuditEvent → Option Written
unfolding retry
write_with_retry worker insert fuel event =
    retry (insert event) worker.max_retries fuel 0 worker.backoff_initial_ms

-- The channel: a queue with a capacity, which may be closed.
pub record Channel : Type 0 where
  pub capacity : ℕ
  pub closed : Bool
  pub queue : List AuditEvent

pub data RecorderError : Type 0 where
  channel_full closed : RecorderError

-- `ChannelAuditRecorder::record`, after its line in the log: `try_send`.
pub record_event : AuditEvent → Channel → Result RecorderError (Unit {0}) × Channel
record_event event ch =
    if ch.closed
    then (err RecorderError.closed, ch)
    else if leb ch.capacity (length ch.queue)
    then (err channel_full, ch)
    else (ok tt, record ch { queue = ch.queue ++ event ∷ [] })
