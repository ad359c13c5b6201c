-- ===== src/Outbox/Repository.antt =====
-- src/outbox/persistence/outbox_repository_pg.rs: the table `outbox_events` and its SQL. `fails` says
-- which queries fail in the database; a query changes a transaction's view of the table.
pub mod Marking
use egras.Prelude.{
  ℕ, String, Bool, true, false, ◌&&◌, ◌||◌, not, Option, none, some, List, [], ◌∷◌, ◌++◌, map,
  filter, find, take, sort_by, contains, ltb, Result, ok, err, ◌==◌, ℕ_eq, if◌then◌else◌,
}
use egras.Jobs.Model.{pos}
use egras.Outbox.Model.{OutboxEvent, AppendRequest}

pub data Query : Type 0 where
  append_query claim_query mark_query : Query
  find_query : ℕ → Query

pub data Fault : Type 0 where
  database : Fault

-- `INSERT INTO outbox_events`, with the defaults of the columns.
pub new_event : ℕ → ℕ → AppendRequest → OutboxEvent
new_event id now req = record {
  id = id;
  aggregate_type = req.aggregate_type;
  aggregate_id = req.aggregate_id;
  event_type = req.event_type;
  payload = req.payload;
  created_at = now;
  relayed_at = none;
  relay_attempts = pos 0;
  last_error = none;
}

-- `relayed_at IS NULL`
abbrev pub is_null : Option ℕ → Bool
is_null none = true
is_null (some _) = false

abbrev pub is_unrelayed : OutboxEvent → Bool
is_unrelayed e = is_null e.relayed_at

-- `ORDER BY created_at ASC, id ASC`
abbrev before : OutboxEvent → OutboxEvent → Bool
before a b = ltb a.created_at b.created_at || a.created_at == b.created_at && not (ltb b.id a.id)

-- What the claim selects, where `locked` are the rows that other transactions hold.
pub selected : (ℕ → Bool) → ℕ → List OutboxEvent → List OutboxEvent
selected locked limit rows =
    take limit (sort_by before (filter (λ e. is_unrelayed e && not (locked e.id)) rows))

abbrev pub ids : List OutboxEvent → List ℕ
ids events = map (λ e. e.id) events

-- `SET relayed_at = now() WHERE id = ANY($1)`
pub mark_rows : ℕ → List ℕ → List OutboxEvent → List OutboxEvent
mark_rows now chosen [] = []
mark_rows now chosen (e ∷ rows) =
    (if contains chosen e.id then record e { relayed_at = some now } else e)
    ∷ mark_rows now chosen rows

module _ (fails : Query → Bool) where
  pub append_in_tx : ℕ → ℕ → AppendRequest → List OutboxEvent → Result Fault (ℕ × List OutboxEvent)
  append_in_tx id now req rows =
      if fails append_query || contains (ids rows) id
      then err database
      else ok (id, rows ++ new_event id now req ∷ [])

  unfoldable pub claim_unrelayed_in_tx :
      (ℕ → Bool) → ℕ → List OutboxEvent → Result Fault (List OutboxEvent)
  claim_unrelayed_in_tx locked limit rows =
      if fails claim_query then err database else ok (selected locked limit rows)

  pub mark_relayed_in_tx : ℕ → List ℕ → List OutboxEvent → Result Fault (List OutboxEvent)
  mark_relayed_in_tx now [] rows = ok rows
  mark_relayed_in_tx now (id ∷ chosen) rows =
      if fails mark_query then err database else ok (mark_rows now (id ∷ chosen) rows)

  pub find_event : ℕ → List OutboxEvent → Result Fault (Option OutboxEvent)
  find_event id rows =
      if fails (find_query id) then err database else ok (find (λ e. e.id == id) rows)
