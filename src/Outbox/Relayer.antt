-- ===== src/Outbox/Relayer.antt =====
-- src/outbox/relayer.rs: `OutboxRelayer`. A tick is one transaction over the outbox and the jobs;
-- what it has written when it gives up is rolled back.
pub mod Conservation
pub mod Progress
pub mod Tests
use egras.Prelude.{
  ℕ, Bool, true, false, Option, none, some, List, [], ◌∷◌, length, Result, ok, err, ◌>>=◌, map_err,
  if◌then◌else◌, ◌*◌,
}
use egras.Jobs.Model.{ℤ, pos, Job, request_now, with_max_attempts}
use egras.Jobs.Repository.{enqueue}
use egras.Outbox.Model.{OutboxEvent}
use egras.Outbox.Repository.{Query, Fault, database, ids, claim_unrelayed_in_tx, mark_relayed_in_tx}

pub record OutboxRelayerConfig : Type 0 where
  pub poll_interval : ℕ
  pub batch_size : ℕ
  pub job_max_attempts : ℤ

abbrev pub default_config : OutboxRelayerConfig
default_config = record { poll_interval = 250_000_000; batch_size = 64; job_max_attempts = pos 5 }

pub record Tables : Type 0 where
  pub outbox : List OutboxEvent
  pub jobs : List Job

-- How a commit ends: it is made, it is refused, or it is made and the answer is lost.
pub data Commit : Type 0 where
  committed refused lost : Commit

-- What a tick meets: the shutdown flag before it, faults, rows locked by others, fresh ids by event,
-- the clock, and the end of its commit.
pub record Tick : Type 0 where
  pub shutdown : Bool
  pub begin_fails : Bool
  pub fails : Query → Bool
  pub enqueue_fails : OutboxEvent → Bool
  pub locked : ℕ → Bool
  pub fresh : OutboxEvent → ℕ
  pub clock : OutboxEvent → ℕ
  pub now : ℕ
  pub commit : Commit

module _ (cfg : OutboxRelayerConfig) (t : Tick) where
  -- The loop over the batch.
  pub enqueue_all : List OutboxEvent → List Job → Result Fault (List Job)
  enqueue_all [] jobs = ok jobs
  enqueue_all (e ∷ events) jobs = do
    (_, jobs') ←
        map_err (λ _. database)
          (enqueue (λ _. t.enqueue_fails e) (t.fresh e) t.now
            (with_max_attempts (request_now (t.clock e) e.event_type e.payload)
              cfg.job_max_attempts)
            jobs)
    enqueue_all events jobs'

  abbrev ended : Commit → Tables → Tables → ℕ → Result Fault ℕ × Tables
  ended committed w w' n = (ok n, w')
  ended refused w w' n = (err database, w)
  ended lost w w' n = (err database, w')

  -- The writes of a batch that is not empty.
  pub relay : List OutboxEvent → Tables → Result Fault Tables
  relay events w = do
    jobs ← enqueue_all events w.jobs
    outbox ← mark_relayed_in_tx t.fails t.now (ids events) w.outbox
    ok (record { outbox = outbox; jobs = jobs })

  abbrev tick_batch : List OutboxEvent → Tables → Result Fault ℕ × Tables
  tick_batch [] w = (ok 0, w)
  tick_batch (e ∷ events) w = elim (relay (e ∷ events) w) [
    | err f ↦ (err f, w)
    | ok w' ↦ ended t.commit w w' (length (e ∷ events))
  ]

  pub tick : Tables → Result Fault ℕ × Tables
  tick w =
      if t.begin_fails
      then (err database, w)
      else elim (claim_unrelayed_in_tx t.fails t.locked cfg.batch_size w.outbox) [
        | err f ↦ (err f, w)
        | ok events ↦ tick_batch events w
      ]

-- The loop; a tick that fails is logged, and the next one follows.
pub run : OutboxRelayerConfig → List Tick → Tables → Tables
run cfg [] w = w
run cfg (t ∷ ticks) w = let rest = run cfg ticks (tick cfg t w).1 in if t.shutdown then w else rest
