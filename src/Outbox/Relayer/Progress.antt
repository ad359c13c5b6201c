-- ===== src/Outbox/Relayer/Progress.antt =====
-- How much a tick relays.
use egras.Prelude.{
  ℕ, true, false, ◌+◌, min, List, [], ◌∷◌, All, All-mono, All-zip, All-trivial, count, count_split,
  count_chosen, length, contains, ok, ◌≡◌, ◌≢◌, refl, arith, ℕ_eq, Keyed, IsRow, sym, ap,
  count_every,
}
use egras.Jobs.Model.{Job, request_now, with_max_attempts}
use egras.Jobs.Repository
use egras.Jobs.Repository.{enqueue}
use egras.Jobs.Repository.Enqueuing.{enqueue_fresh}
use egras.Outbox.Model.{OutboxEvent}
use egras.Outbox.Repository.{
  Query, mark_query, claim_query, ids, is_unrelayed, selected, mark_rows, claim_unrelayed_in_tx,
}
use egras.Outbox.Repository.Marking.{
  id_of, selected-Keyed, selected-IsRow, selected-length, backlog-mark_rows, mark_rows-nil,
  mark_relayed_in_tx-works,
}
use egras.Outbox.Relayer.{
  OutboxRelayerConfig, Tables, Tick, committed, enqueue_all, relay, tick, tick_batch,
}

-- A tick that meets no fault and no row that is locked, with fresh ids for its jobs.
pub record IsQuiet (t : Tick) (w : Tables) : Type 0 where
  pub begins : t.begin_fails ≡ false
  pub works : (q : Query) → t.fails q ≡ false
  pub enqueues : (e : OutboxEvent) → t.enqueue_fails e ≡ false
  pub unlocked : (id : ℕ) → t.locked id ≡ false
  pub commits : t.commit ≡ committed
  pub fresh : (e : OutboxEvent) → contains (Repository.ids w.jobs) (t.fresh e) ≡ false
  pub distinct : (a b : OutboxEvent) → a.id ≢ b.id → t.fresh a ≢ t.fresh b

module _ (cfg : OutboxRelayerConfig) (t : Tick) (w : Tables) (quiet : IsQuiet t w) where
  enqueue_all_fresh :
      (events : List OutboxEvent) (jobs : List Job)
      → Keyed id_of events
      → All (λ e. contains (Repository.ids jobs) (t.fresh e) ≡ false) events
      → (jobs' : List Job) × (enqueue_all cfg t events jobs ≡ ok jobs')
  unfolding enqueue_all
  enqueue_all_fresh [] jobs k f = (jobs, refl)
  enqueue_all_fresh (e ∷ events) jobs (n, k) (f, fs) =
      let req =
        with_max_attempts (request_now (t.clock e) e.event_type e.payload) cfg.job_max_attempts in
      let (more, stored, taken) =
        enqueue_fresh (λ _. t.enqueue_fails e) (t.fresh e) t.now req jobs (quiet.enqueues e) f in
      let (jobs', done) = enqueue_all_fresh events more k (
        All-mono
          (λ (d : OutboxEvent).
            (d.id ≢ e.id) × (contains (Repository.ids jobs) (t.fresh d) ≡ false))
          (λ d. contains (Repository.ids more) (t.fresh d) ≡ false) events
          (λ d p.
            let other = quiet.distinct e d (λ s. p.0 (sym s)) in
            ground (arith, taken (t.fresh d), p.1))
          (All-zip (λ (d : OutboxEvent). d.id ≢ e.id)
            (λ d. contains (Repository.ids jobs) (t.fresh d) ≡ false) events n fs)) in
      (jobs', ground (arith, stored, done))

  tick_batch_works :
      (events : List OutboxEvent) (w' : Tables)
      → relay cfg t events w ≡ ok w'
      → w'.outbox ≡ mark_rows t.now (ids events) w.outbox
      → ((tick_batch cfg t events w).0 ≡ ok (length events))
        × ((tick_batch cfg t events w).1.outbox ≡ mark_rows t.now (ids events) w.outbox)
  tick_batch_works [] w' done e = (refl, sym (mark_rows-nil t.now w.outbox))
  tick_batch_works (d ∷ events) w' done e =
      (ground (arith, done, quiet.commits), ground (arith, done, quiet.commits, e))

  tick_works :
      Keyed id_of w.outbox
      → let events = selected t.locked cfg.batch_size w.outbox in
        ((tick cfg t w).0 ≡ ok (length events))
        × ((tick cfg t w).1.outbox ≡ mark_rows t.now (ids events) w.outbox)
  unfolding tick claim_unrelayed_in_tx relay
  tick_works h =
      let events = selected t.locked cfg.batch_size w.outbox in
      let (jobs', stored) =
        enqueue_all_fresh events w.jobs (selected-Keyed t.locked cfg.batch_size w.outbox h) (
          All-trivial (λ e. contains (Repository.ids w.jobs) (t.fresh e) ≡ false) events
            quiet.fresh) in
      let marked =
        mark_relayed_in_tx-works t.fails t.now (ids events) w.outbox (quiet.works mark_query) in
      let batch : tick cfg t w ≡ tick_batch cfg t events w =
        ground (arith, quiet.begins, quiet.works claim_query) in
      rw batch (
        tick_batch_works events
          (record { outbox = mark_rows t.now (ids events) w.outbox; jobs = jobs' })
          (ground (arith, stored, marked)) refl)

  -- A tick that meets no fault and no lock relays the events that are waiting, up to the size of its
  -- batch: it answers how many, and as many fewer are waiting after it; with distinct ids in the outbox
  -- and fresh and distinct ids for the jobs.
  pub tick_progress :
      Keyed id_of w.outbox
      → let waiting = count is_unrelayed w.outbox in
        ((tick cfg t w).0 ≡ ok (min cfg.batch_size waiting))
        × (count is_unrelayed (tick cfg t w).1.outbox + min cfg.batch_size waiting ≡ waiting)
  tick_progress h =
      let events = selected t.locked cfg.batch_size w.outbox in
      let (answered, outbox) = tick_works h in
      let size = selected-length t.locked cfg.batch_size w.outbox quiet.unlocked in
      let left = backlog-mark_rows t.now (ids events) w.outbox in
      let split =
        count_split (λ (e : OutboxEvent). contains (ids events) e.id) is_unrelayed w.outbox in
      let rows = selected-IsRow t.locked cfg.batch_size w.outbox h in
      let moved =
        count_chosen id_of is_unrelayed w.outbox events
          (selected-Keyed t.locked cfg.batch_size w.outbox h)
          (All-mono (λ (e : OutboxEvent). IsRow id_of w.outbox e × (is_unrelayed e ≡ true))
            (IsRow id_of w.outbox) events (λ e q. q.0) rows) in
      let chosen = count_every is_unrelayed events (
        All-mono (λ (e : OutboxEvent). IsRow id_of w.outbox e × (is_unrelayed e ≡ true))
          (λ e. is_unrelayed e ≡ true) events (λ e q. q.1) rows) in
      (rw answered (ap ok size), rw outbox (omega (arith, size, left, split, moved, chosen)))
