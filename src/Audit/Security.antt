-- ===== src/Audit/Security.antt =====
-- src/audit/model.rs: the constructors of the events of the security services. `uuid_json` is how an
-- id is serialized, by the uuid crate.
use Prim.Native.String.{◌++◌}
use egras.Prelude.{ℕ, String, Option, some}
use egras.Json
use egras.Json.{Value}
use egras.Audit.Model.{
  AuditEvent, Stamp, Outcome, success, failure, denied, security_state_change, security_auth,
  security_permission_denial, data_access, base,
}

abbrev text_entry : String → String → Value
text_entry key value = Json.object (Json.entry key (Json.string value) Json.end)

pub user_registered_success : Stamp → ℕ → ℕ → ℕ → ℕ → String → AuditEvent
user_registered_success stamp actor_user actor_org target_user target_org role_code =
    let e = base stamp security_state_change "user.registered" success in
    record e {
      actor_user_id = some actor_user;
      actor_organisation_id = some actor_org;
      target_type = some "user";
      target_id = some target_user;
      target_organisation_id = some target_org;
      payload = text_entry "role_code" role_code;
    }

pub login_success : Stamp → ℕ → ℕ → AuditEvent
login_success stamp user_id active_org =
    let e = base stamp security_auth "login.success" success in
    record e {
      actor_user_id = some user_id;
      actor_organisation_id = some active_org;
      target_type = some "user";
      target_id = some user_id;
    }

pub login_failed : Stamp → String → String → AuditEvent
login_failed stamp reason_code username_or_email =
    let e = base stamp security_auth "login.failed" failure in
    record e {
      reason_code = some reason_code;
      payload = text_entry "username_or_email" username_or_email;
    }

pub password_changed : Stamp → ℕ → AuditEvent
password_changed stamp user_id =
    let e = base stamp security_state_change "password.changed" success in
    record e { actor_user_id = some user_id; target_type = some "user"; target_id = some user_id }

pub password_reset_requested : Stamp → String → AuditEvent
password_reset_requested stamp email =
    let e = base stamp security_state_change "password.reset_requested" success in
    record e { payload = text_entry "email" email }

pub password_reset_confirmed : Stamp → Option ℕ → Outcome → Option String → AuditEvent
password_reset_confirmed stamp user_id outcome reason =
    let e = base stamp security_state_change "password.reset_confirmed" outcome in
    record e { actor_user_id = user_id; reason_code = reason }

pub permission_denied : Stamp → ℕ → ℕ → String → String → AuditEvent
permission_denied stamp user_id org permission path =
    let e = base stamp security_permission_denial "permission.denied" denied in
    record e {
      actor_user_id = some user_id;
      actor_organisation_id = some org;
      reason_code = some ("missing:" ++ permission);
      payload = text_entry "path" path;
    }

pub users_list : Stamp → ℕ → ℕ → AuditEvent
users_list stamp actor_user_id actor_org_id =
    let e = base stamp data_access "users.list" success in
    record e {
      actor_user_id = some actor_user_id;
      actor_organisation_id = some actor_org_id;
      target_type = some "user";
    }

-- The command line seeds the administrator: there is no actor.
pub admin_seeded : Stamp → ℕ → ℕ → String → AuditEvent
admin_seeded stamp user_id org_id role_code =
    let e = base stamp security_state_change "user.registered" success in
    record e {
      target_type = some "user";
      target_id = some user_id;
      target_organisation_id = some org_id;
      payload = Json.object (
          Json.entry "role_code" (Json.string role_code)
            (Json.entry "via" (Json.string "seed-admin") Json.end));
    }

pub service_account_created : Stamp → ℕ → ℕ → ℕ → ℕ → String → AuditEvent
service_account_created stamp actor actor_org sa_user_id org_id name =
    let e = base stamp security_state_change "service_account.created" success in
    record e {
      actor_user_id = some actor;
      actor_organisation_id = some actor_org;
      target_type = some "service_account";
      target_id = some sa_user_id;
      target_organisation_id = some org_id;
      payload = text_entry "name" name;
    }

pub service_account_deleted : Stamp → ℕ → ℕ → ℕ → ℕ → AuditEvent
service_account_deleted stamp actor actor_org sa_user_id org_id =
    let e = base stamp security_state_change "service_account.deleted" success in
    record e {
      actor_user_id = some actor;
      actor_organisation_id = some actor_org;
      target_type = some "service_account";
      target_id = some sa_user_id;
      target_organisation_id = some org_id;
    }

module _ (uuid_json : ℕ → Value) where
  pub logout : Stamp → ℕ → ℕ → ℕ → AuditEvent
  logout stamp user_id org jti =
      let e = base stamp security_auth "logout" success in
      record e {
        actor_user_id = some user_id;
        actor_organisation_id = some org;
        payload = Json.object (Json.entry "jti" (uuid_json jti) Json.end);
      }

  pub session_switched_org : Stamp → ℕ → ℕ → ℕ → AuditEvent
  session_switched_org stamp user_id from_org to_org =
      let e = base stamp security_auth "session.switched_org" success in
      record e {
        actor_user_id = some user_id;
        actor_organisation_id = some to_org;
        target_type = some "organisation";
        target_id = some to_org;
        target_organisation_id = some to_org;
        payload = Json.object (Json.entry "from_org" (uuid_json from_org) Json.end);
      }

  abbrev api_key_event : Stamp → String → ℕ → ℕ → ℕ → ℕ → Value → AuditEvent
  api_key_event stamp event_type actor actor_org sa_user_id org_id payload =
      let e = base stamp security_state_change event_type success in
      record e {
        actor_user_id = some actor;
        actor_organisation_id = some actor_org;
        target_type = some "api_key";
        target_id = some sa_user_id;
        target_organisation_id = some org_id;
        payload = payload;
      }

  pub api_key_created : Stamp → ℕ → ℕ → ℕ → ℕ → ℕ → String → AuditEvent
  api_key_created stamp actor actor_org sa_user_id org_id key_id prefix =
      api_key_event stamp "api_key.created" actor actor_org sa_user_id org_id (
        Json.object (
          Json.entry "key_id" (uuid_json key_id)
            (Json.entry "prefix" (Json.string prefix) Json.end)))

  pub api_key_revoked : Stamp → ℕ → ℕ → ℕ → ℕ → ℕ → AuditEvent
  api_key_revoked stamp actor actor_org sa_user_id org_id key_id =
      api_key_event stamp "api_key.revoked" actor actor_org sa_user_id org_id
        (Json.object (Json.entry "key_id" (uuid_json key_id) Json.end))

  pub api_key_rotated : Stamp → ℕ → ℕ → ℕ → ℕ → ℕ → ℕ → AuditEvent
  api_key_rotated stamp actor actor_org sa_user_id org_id old_key_id new_key_id =
      api_key_event stamp "api_key.rotated" actor actor_org sa_user_id org_id (
        Json.object (
          Json.entry "old_key_id" (uuid_json old_key_id)
            (Json.entry "new_key_id" (uuid_json new_key_id) Json.end)))
