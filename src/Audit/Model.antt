-- ===== src/Audit/Model.antt =====
-- src/audit/model.rs: the audit event, and the constructors of the events of flags and tenants;
-- those of the security services are in Audit/Security. `Stamp` is what `base` takes from the
-- clock and the id generator (`Utc::now`, `Uuid::now_v7`).
use egras.Prelude.{ℕ, String, Bool, Option, none, some, ◌==◌, if◌then◌else◌, String_eq}
use egras.Json
use egras.Json.{Value}

pub data AuditCategory : Type 0 where
  security_state_change security_auth security_permission_denial : AuditCategory
  data_access tenants_state_change : AuditCategory

pub category_as_str : AuditCategory → String
category_as_str security_state_change = "security.state_change"
category_as_str security_auth = "security.auth"
category_as_str security_permission_denial = "security.permission_denial"
category_as_str data_access = "data.access"
category_as_str tenants_state_change = "tenants.state_change"

pub category_try_from_str : String → Option AuditCategory
category_try_from_str s =
    if s == "security.state_change"
    then some security_state_change
    else if s == "security.auth"
    then some security_auth
    else if s == "security.permission_denial"
    then some security_permission_denial
    else if s == "data.access"
    then some data_access
    else if s == "tenants.state_change"
    then some tenants_state_change
    else none

pub data Outcome : Type 0 where
  success failure denied : Outcome

pub outcome_as_str : Outcome → String
outcome_as_str success = "success"
outcome_as_str failure = "failure"
outcome_as_str denied = "denied"

pub outcome_try_from_str : String → Option Outcome
outcome_try_from_str s =
    if s == "success"
    then some success
    else if s == "failure"
    then some failure
    else if s == "denied"
    then some denied
    else none

pub record Stamp : Type 0 where
  pub id : ℕ
  pub occurred_at : ℕ

pub record AuditEvent : Type 0 where
  pub id : ℕ
  pub occurred_at : ℕ
  pub category : AuditCategory
  pub event_type : String
  pub actor_user_id : Option ℕ
  pub actor_organisation_id : Option ℕ
  pub target_type : Option String
  pub target_id : Option ℕ
  pub target_organisation_id : Option ℕ
  pub request_id : Option String
  pub ip_address : Option String
  pub user_agent : Option String
  pub outcome : Outcome
  pub reason_code : Option String
  pub payload : Value

pub record Actor : Type 0 where
  pub user_id : Option ℕ
  pub organisation_id : Option ℕ
  pub request_id : Option String
  pub ip_address : Option String
  pub user_agent : Option String

pub system : Actor
system = record {
  user_id = none;
  organisation_id = none;
  request_id = none;
  ip_address = none;
  user_agent = none;
}

pub with_actor : AuditEvent → Actor → AuditEvent
with_actor e actor = record e {
  actor_user_id = actor.user_id;
  actor_organisation_id = actor.organisation_id;
  request_id = actor.request_id;
  ip_address = actor.ip_address;
  user_agent = actor.user_agent;
}

abbrev pub base : Stamp → AuditCategory → String → Outcome → AuditEvent
base stamp category event_type outcome = record {
  id = stamp.id;
  occurred_at = stamp.occurred_at;
  category = category;
  event_type = event_type;
  actor_user_id = none;
  actor_organisation_id = none;
  target_type = none;
  target_id = none;
  target_organisation_id = none;
  request_id = none;
  ip_address = none;
  user_agent = none;
  outcome = outcome;
  reason_code = none;
  payload = Json.object Json.end;
}

pub feature_set : Stamp → ℕ → ℕ → ℕ → String → Option Value → Value → Bool → AuditEvent
feature_set stamp actor actor_org org_id slug old_value new_value self_service =
    let e = base stamp tenants_state_change "feature.set" success in
    record e {
      actor_user_id = some actor;
      actor_organisation_id = some actor_org;
      target_type = some "feature";
      target_organisation_id = some org_id;
      payload = Json.object (
          Json.entry "slug" (Json.string slug) (
            Json.entry "old_value" (Json.of_option old_value) (
              Json.entry "new_value" new_value
                (Json.entry "self_service" (Json.bool self_service) Json.end))));
    }

pub feature_cleared : Stamp → ℕ → ℕ → ℕ → String → Option Value → Bool → AuditEvent
feature_cleared stamp actor actor_org org_id slug old_value self_service =
    let e = base stamp tenants_state_change "feature.cleared" success in
    record e {
      actor_user_id = some actor;
      actor_organisation_id = some actor_org;
      target_type = some "feature";
      target_organisation_id = some org_id;
      payload = Json.object (
          Json.entry "slug" (Json.string slug) (
            Json.entry "old_value" (Json.of_option old_value)
              (Json.entry "self_service" (Json.bool self_service) Json.end)));
    }

abbrev pub tenants_event : Stamp → String → ℕ → ℕ → String → ℕ → ℕ → Value → AuditEvent
tenants_event stamp event_type actor actor_org target_type target_id org_id payload =
    let e = base stamp tenants_state_change event_type success in
    record e {
      actor_user_id = some actor;
      actor_organisation_id = some actor_org;
      target_type = some target_type;
      target_id = some target_id;
      target_organisation_id = some org_id;
      payload = payload;
    }

pub organisation_member_added : Stamp → ℕ → ℕ → ℕ → ℕ → String → AuditEvent
organisation_member_added stamp actor actor_org org_id user_id role_code =
    tenants_event stamp "organisation.member_added" actor actor_org "user" user_id org_id
      (Json.object (Json.entry "role_code" (Json.string role_code) Json.end))

pub organisation_member_removed : Stamp → ℕ → ℕ → ℕ → ℕ → AuditEvent
organisation_member_removed stamp actor actor_org org_id user_id =
    tenants_event stamp "organisation.member_removed" actor actor_org "user" user_id org_id
      (Json.object Json.end)

pub organisation_role_assigned : Stamp → ℕ → ℕ → ℕ → ℕ → String → AuditEvent
organisation_role_assigned stamp actor actor_org org_id user_id role_code =
    tenants_event stamp "organisation.role_assigned" actor actor_org "user" user_id org_id
      (Json.object (Json.entry "role_code" (Json.string role_code) Json.end))

pub organisation_created : Stamp → ℕ → ℕ → ℕ → String → AuditEvent
organisation_created stamp actor actor_org org_id name =
    tenants_event stamp "organisation.created" actor actor_org "organisation" org_id org_id
      (Json.object (Json.entry "name" (Json.string name) Json.end))

pub channel_created : Stamp → ℕ → ℕ → ℕ → ℕ → String → AuditEvent
channel_created stamp actor actor_org channel_id org_id name =
    tenants_event stamp "channel.created" actor actor_org "inbound_channel" channel_id org_id
      (Json.object (Json.entry "name" (Json.string name) Json.end))

pub channel_updated : Stamp → ℕ → ℕ → ℕ → ℕ → String → AuditEvent
channel_updated stamp actor actor_org channel_id org_id name =
    tenants_event stamp "channel.updated" actor actor_org "inbound_channel" channel_id org_id
      (Json.object (Json.entry "name" (Json.string name) Json.end))

pub channel_deleted : Stamp → ℕ → ℕ → ℕ → ℕ → AuditEvent
channel_deleted stamp actor actor_org channel_id org_id =
    tenants_event stamp "channel.deleted" actor actor_org "inbound_channel" channel_id org_id
      (Json.object Json.end)
