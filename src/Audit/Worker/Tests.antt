-- ===== src/Audit/Worker/Tests.antt =====
-- An insert that fails twice, and then goes through.
use egras.Prelude.{ℕ, Bool, true, none, some, [], ◌∷◌, leb, ◌≡◌, refl, arith, inl}
use egras.Json
use egras.Audit.Model.{AuditEvent, security_auth, success}
use egras.Audit.Worker.{AuditWorker, write_with_retry}
use egras.Audit.Worker.Retries.{write_with_retry_lem}

abbrev event : AuditEvent
event = record {
  id = 1;
  occurred_at = 4;
  category = security_auth;
  event_type = "logout";
  actor_user_id = some 7;
  actor_organisation_id = some 1;
  target_type = none;
  target_id = none;
  target_organisation_id = none;
  request_id = none;
  ip_address = none;
  user_agent = none;
  outcome = success;
  reason_code = none;
  payload = Json.null;
}

abbrev worker : AuditWorker
worker = record { max_retries = 3; backoff_initial_ms = 100 }

abbrev third : AuditEvent → ℕ → Bool
third e i = leb 2 i

write_with_retry_lem_example :
    write_with_retry worker third 4 event
    ≡ some (record { written = true; sleeps = 100 ∷ 400 ∷ [] })
write_with_retry_lem_example =
    write_with_retry_lem worker third event 2 (omega arith) (omega arith) (omega arith)
      (λ i lt. ground (arith, lt)) (inl refl)
