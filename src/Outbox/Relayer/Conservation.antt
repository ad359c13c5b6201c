-- ===== src/Outbox/Relayer/Conservation.antt =====
-- The relay moves each event from the outbox to the jobs: none is lost, and none is moved twice.
use egras.Prelude.{
  ℕ, String, Bool, true, ◌&&◌, ◌+◌, List, [], ◌∷◌, All-mono, count, count_split, count_cong,
  count_chosen, contains, ok, ◌≡◌, ◌⊎◌, refl, arith, Bool-cases, Result-cases, inl, inr, ℕ_eq,
  Keyed, IsRow, ◌∙◌, length,
}
use egras.Json.{Value}
use egras.Jobs.Model.{Job, request_now, with_max_attempts}
use egras.Jobs.Repository.{enqueue}
use egras.Jobs.Repository.Enqueuing.{count_jobs, count_jobs-enqueue}
use egras.Outbox.Model.{OutboxEvent}
use egras.Outbox.Repository.{
  claim_query, ids, is_unrelayed, selected, mark_rows, claim_unrelayed_in_tx, mark_relayed_in_tx,
}
use egras.Outbox.Repository.Marking.{
  count_unrelayed, count_unrelayed-mark_rows, id_of, Keyed-mark_rows, mark_relayed_in_tx-ok,
  selected-Keyed, selected-IsRow,
}
use egras.Outbox.Relayer.{
  OutboxRelayerConfig, Tables, Tick, Commit, ended, tick_batch, committed, refused, lost,
  enqueue_all, relay, tick, run,
}

-- The messages that pass a test, by type and payload: as events not relayed yet, or as jobs.
abbrev pub messages : (String → Value → Bool) → Tables → ℕ
messages p w = count_unrelayed p w.outbox + count_jobs p w.jobs

abbrev event_passes : (String → Value → Bool) → OutboxEvent → Bool
event_passes p e = p e.event_type e.payload

module _ (cfg : OutboxRelayerConfig) (t : Tick) where
  count_jobs-enqueue_all :
      (p : String → Value → Bool) (events : List OutboxEvent) (jobs jobs' : List Job)
      → enqueue_all cfg t events jobs ≡ ok jobs'
      → count_jobs p jobs' ≡ count_jobs p jobs + count (event_passes p) events
  unfolding enqueue_all request_now with_max_attempts
  count_jobs-enqueue_all p [] jobs jobs' h = ground arith
  count_jobs-enqueue_all p (e ∷ events) jobs jobs' h =
      let req =
        with_max_attempts (request_now (t.clock e) e.event_type e.payload) cfg.job_max_attempts in
      elim (Result-cases (enqueue (λ _. t.enqueue_fails e) (t.fresh e) t.now req jobs)) [
        | inr (f, failed) ↦ absurd (ground arith)
        | inl ((i, more), stored) ↦
            let one =
              count_jobs-enqueue p (λ _. t.enqueue_fails e) (t.fresh e) t.now i req jobs more
                stored in
            let rest = count_jobs-enqueue_all p events more jobs' (ground arith) in
            ground (arith, one, rest)
      ]

  relay-ok :
      (events : List OutboxEvent) (w w' : Tables)
      → relay cfg t events w ≡ ok w'
      → (enqueue_all cfg t events w.jobs ≡ ok w'.jobs)
        × (w'.outbox ≡ mark_rows t.now (ids events) w.outbox)
  unfolding relay
  relay-ok events w w' h = elim (Result-cases (enqueue_all cfg t events w.jobs)) [
    | inr (f, failed) ↦ absurd (ground arith)
    | inl (jobs, stored) ↦
        elim (Result-cases (mark_relayed_in_tx t.fails t.now (ids events) w.outbox)) [
          | inr (f, failed) ↦ absurd (ground arith)
          | inl (outbox, marked) ↦ (
            ground arith,
            ground (arith, mark_relayed_in_tx-ok t.fails t.now (ids events) w.outbox outbox marked),
          )
        ]
  ]

  -- The chosen events leave the outbox as they come to the jobs.
  relay_conserves :
      (p : String → Value → Bool) (w w' : Tables)
      → Keyed id_of w.outbox
      → relay cfg t (selected t.locked cfg.batch_size w.outbox) w ≡ ok w'
      → messages p w' ≡ messages p w
  relay_conserves p w w' h done =
      let events = selected t.locked cfg.batch_size w.outbox in
      let (stored, marked) = relay-ok events w w' done in
      let pending = λ (e : OutboxEvent). is_unrelayed e && event_passes p e in
      let added = count_jobs-enqueue_all p events w.jobs w'.jobs stored in
      let rows = selected-IsRow t.locked cfg.batch_size w.outbox h in
      let left = count_unrelayed-mark_rows p t.now (ids events) w.outbox in
      let split = count_split (λ (e : OutboxEvent). contains (ids events) e.id) pending w.outbox in
      let moved =
        count_chosen id_of pending w.outbox events
          (selected-Keyed t.locked cfg.batch_size w.outbox h)
          (All-mono (λ (e : OutboxEvent). IsRow id_of w.outbox e × (is_unrelayed e ≡ true))
            (IsRow id_of w.outbox) events (λ e q. q.0) rows) in
      let all_pending = count_cong pending (event_passes p) events (
        All-mono (λ (e : OutboxEvent). IsRow id_of w.outbox e × (is_unrelayed e ≡ true))
          (λ e. pending e ≡ event_passes p e) events (λ e q. ground (arith, q.1)) rows) in
      rw marked (omega (arith, added, left, split, moved, all_pending))

  ended-cases :
      (c : Commit) (w w' : Tables) (n : ℕ)
      → ((ended cfg t c w w' n).1 ≡ w) ⊎ ((ended cfg t c w w' n).1 ≡ w')
  ended-cases committed w w' n = inr refl
  ended-cases refused w w' n = inl refl
  ended-cases lost w w' n = inr refl

  tick_batch-cases :
      (events : List OutboxEvent) (w : Tables)
      → ((tick_batch cfg t events w).1 ≡ w)
        ⊎ (relay cfg t events w ≡ ok (tick_batch cfg t events w).1)
  tick_batch-cases [] w = inl refl
  tick_batch-cases (e ∷ events) w = elim (Result-cases (relay cfg t (e ∷ events) w)) [
    | inr (f, failed) ↦ inl (ground (arith, failed))
    | inl (w', done) ↦
        let ends : tick_batch cfg t (e ∷ events) w
            ≡ ended cfg t t.commit w w' (length (e ∷ events)) =
          ground (arith, done) in
        elim (ended-cases t.commit w w' (length (e ∷ events))) [
          | inl same ↦ inl (ground (arith, ends, same))
          | inr new ↦ inr (ground (arith, done, ends, new))
        ]
  ]

  tick-selected :
      (w : Tables)
      → ((tick cfg t w).1 ≡ w)
        ⊎ (tick cfg t w ≡ tick_batch cfg t (selected t.locked cfg.batch_size w.outbox) w)
  unfolding tick claim_unrelayed_in_tx
  tick-selected w = elim (Bool-cases t.begin_fails) [
    | inl stop ↦ inl (ground (arith, stop))
    | inr begun ↦ elim (Bool-cases (t.fails claim_query)) [
      | inl stop ↦ inl (ground (arith, stop, begun))
      | inr claimed ↦ inr (ground (arith, begun, claimed))
    ]
  ]

  -- What a tick leaves: the tables as they were, or those of a relay of the selected events.
  pub tick-cases :
      (w : Tables)
      → ((tick cfg t w).1 ≡ w)
        ⊎ (relay cfg t (selected t.locked cfg.batch_size w.outbox) w ≡ ok (tick cfg t w).1)
  tick-cases w = elim (tick-selected w) [
    | inl same ↦ inl same
    | inr batch ↦ rw batch (tick_batch-cases (selected t.locked cfg.batch_size w.outbox) w)
  ]

  tick-Keyed : (w : Tables) → Keyed id_of w.outbox → Keyed id_of (tick cfg t w).1.outbox
  tick-Keyed w h = elim (tick-cases w) [
    | inl same ↦ rw same h
    | inr done ↦
        rw (relay-ok (selected t.locked cfg.batch_size w.outbox) w (tick cfg t w).1 done).1
          (Keyed-mark_rows t.now (ids (selected t.locked cfg.batch_size w.outbox)) w.outbox h)
  ]

  tick_conserves :
      (p : String → Value → Bool) (w : Tables)
      → Keyed id_of w.outbox
      → messages p (tick cfg t w).1 ≡ messages p w
  tick_conserves p w h = elim (tick-cases w) [
    | inl same ↦ rw same refl
    | inr done ↦ relay_conserves p w (tick cfg t w).1 h done
  ]

-- However its ticks fail, by a query, by a commit that is refused or by one whose answer is lost, the
-- relayer's loop keeps the number of messages of each type and payload, counted as events not relayed
-- yet and as jobs: with distinct ids in the outbox, no event is lost and none becomes two jobs.
pub run_conserves :
    (cfg : OutboxRelayerConfig) (p : String → Value → Bool) (ticks : List Tick) (w : Tables)
    → Keyed id_of w.outbox
    → messages p (run cfg ticks w) ≡ messages p w
unfolding run
run_conserves cfg p [] w h = refl
run_conserves cfg p (t ∷ ticks) w h = elim (Bool-cases t.shutdown) [
  | inl stop ↦ ground (arith, stop)
  | inr go ↦
      let rest = run_conserves cfg p ticks (tick cfg t w).1 (tick-Keyed cfg t w h) in
      let one = tick_conserves cfg t p w h in simp go (rest ∙ one)
]
