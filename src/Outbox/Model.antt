-- ===== src/Outbox/Model.antt =====
-- src/outbox/model.rs. Instants are numbers of nanoseconds.
use egras.Prelude.{ℕ, String, Option, none, some}
use egras.Json.{Value}
use egras.Jobs.Model.{ℤ}

pub record OutboxEvent : Type 0 where
  pub id : ℕ
  pub aggregate_type : Option String
  pub aggregate_id : Option ℕ
  pub event_type : String
  pub payload : Value
  pub created_at : ℕ
  pub relayed_at : Option ℕ
  pub relay_attempts : ℤ
  pub last_error : Option String

pub record AppendRequest : Type 0 where
  pub aggregate_type : Option String
  pub aggregate_id : Option ℕ
  pub event_type : String
  pub payload : Value

-- `AppendRequest::new`
pub new_request : String → Value → AppendRequest
new_request event_type payload = record {
  aggregate_type = none;
  aggregate_id = none;
  event_type = event_type;
  payload = payload;
}

pub with_aggregate : AppendRequest → String → ℕ → AppendRequest
with_aggregate req aggregate_type id = record req {
  aggregate_type = some aggregate_type;
  aggregate_id = some id;
}
