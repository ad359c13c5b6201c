-- ===== src/Jobs/Runner/Batches.antt =====
-- What a batch of the runner makes of the table, while no other process writes to it.
use egras.Prelude.{
  ℕ, false, Option, List, All, All-mono, All-zip, All-trivial, ◌≡◌, ◌≢◌, ◌⊎◌, arith, inl, inr, ℕ_eq,
  String_eq,
}
use egras.Jobs.Model.{running, Job, i32_max, leb_ℤ}
use egras.Jobs.Repository.{Query, update_rows}
use egras.Jobs.Repository.Snapshots.{
  Distinct, Snapshot, All-update_rows, Distinct-update_rows, Snapshot-update_rows,
}
use egras.Jobs.Runner.{JobRunner, Round, Mark, decide, outcome, dispatch}
use egras.Jobs.Runner.Retries.{marked}
use egras.Jobs.Runner.Marks.{
  IsSound, marked-id, IsSound-lt-max, marked-IsSound, marked-ne-running, apply_mark-cases,
  overflows-false, apply_mark-update_rows,
}

-- A job of a batch, as the table has it: running, sound, and the only row of its id.
pub record IsReady (rows : List Job) (j : Job) : Type 0 where
  pub state : j.state ≡ running
  pub sound : IsSound j
  pub snapshot : Snapshot rows j

-- No row with the id is running.
abbrev pub IsSettled : List Job → ℕ → Type 0
IsSettled rows id = All (λ (r : Job). r.id ≡ id → r.state ≢ running) rows

module _ (from_std : ℕ → Option ℕ) (r : JobRunner) (round : Round) where
  abbrev mark_of : Job → Mark
  mark_of j = decide r.cfg from_std (round.clock j) (outcome r.handlers j) j

  dispatch-cases :
      (j : Job) (rows : List Job)
      → (dispatch from_std r round j rows ≡ rows)
        ⊎ (dispatch from_std r round j rows
            ≡ update_rows j.id (marked (round.clock j) (mark_of j)) rows)
  unfolding dispatch
  dispatch-cases j rows = apply_mark-cases round.fails (round.clock j) (mark_of j) j rows

  pub dispatch-IsSound :
      (j : Job) (rows : List Job)
      → IsReady rows j
      → All IsSound rows
      → All IsSound (dispatch from_std r round j rows)
  dispatch-IsSound j rows ready h = elim (dispatch-cases j rows) [
    | inl same ↦ rw same h
    | inr changed ↦ rw changed (
        All-update_rows (λ (q : Job). (q.id ≡ j.id → q ≡ j) × IsSound q) IsSound j.id
          (marked (round.clock j) (mark_of j)) rows
          (λ q p same. rw (p.0 same) (
            marked-IsSound r from_std (round.clock j) (outcome r.handlers j) j ready.state
              ready.sound))
          (λ q p other. p.1)
          (All-zip (λ (q : Job). q.id ≡ j.id → q ≡ j) IsSound rows ready.snapshot h))
  ]

  pub dispatch-IsReady :
      (j k : Job) (rows : List Job)
      → j.id ≢ k.id
      → IsReady rows k
      → IsReady (dispatch from_std r round j rows) k
  dispatch-IsReady j k rows other ready = elim (dispatch-cases j rows) [
    | inl same ↦ rw same ready
    | inr changed ↦ rw changed (record {
      state = ready.state;
      sound = ready.sound;
      snapshot =
          Snapshot-update_rows j.id (marked (round.clock j) (mark_of j)) rows k
            (marked-id (round.clock j) (mark_of j)) other ready.snapshot;
    })
  ]

  pub dispatch-Distinct :
      (j : Job) (rows : List Job) → Distinct rows → Distinct (dispatch from_std r round j rows)
  dispatch-Distinct j rows h = elim (dispatch-cases j rows) [
    | inl same ↦ rw same h
    | inr changed ↦ rw changed (
        Distinct-update_rows j.id (marked (round.clock j) (mark_of j)) rows
          (marked-id (round.clock j) (mark_of j)) h)
  ]

  pub dispatch_keeps_IsSettled :
      (j : Job) (id : ℕ) (rows : List Job)
      → IsSettled rows id
      → IsSettled (dispatch from_std r round j rows) id
  dispatch_keeps_IsSettled j id rows h = elim (dispatch-cases j rows) [
    | inl same ↦ rw same h
    | inr changed ↦ rw changed (
        All-update_rows (λ q. q.id ≡ id → q.state ≢ running) (λ q. q.id ≡ id → q.state ≢ running)
          j.id (marked (round.clock j) (mark_of j)) rows
          (λ q p same e. marked-ne-running r from_std (round.clock j) (mark_of j) q)
          (λ q p other. p) h)
  ]

  pub dispatch-IsSettled :
      (j : Job) (rows : List Job)
      → ((q : Query) → round.fails q ≡ false)
      → IsReady rows j
      → IsSettled (dispatch from_std r round j rows) j.id
  unfolding dispatch
  dispatch-IsSettled j rows works ready =
      let room =
        All-mono (λ (q : Job). q.id ≡ j.id → q ≡ j)
          (λ q. q.id ≡ j.id → leb_ℤ i32_max q.attempts ≡ false) rows
          (λ q s same. rw (s same) (IsSound-lt-max j (ground (arith, ready.state)) ready.sound))
          ready.snapshot in
      rw
        (apply_mark-update_rows round.fails (round.clock j) (mark_of j) j rows works
          (overflows-false j.id rows room))
        (All-update_rows (λ q. Unit {0}) (λ q. q.id ≡ j.id → q.state ≢ running) j.id
          (marked (round.clock j) (mark_of j)) rows
          (λ q _ same e. marked-ne-running r from_std (round.clock j) (mark_of j) q)
          (λ q _ other same. absurd (other same)) (All-trivial (λ q. Unit {0}) rows (λ q. tt)))
