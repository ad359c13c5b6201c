-- ===== src/Security/Keys/Tests.antt =====
-- A key that is revoked while others are made.
use egras.Prelude.{ℕ, ◌*◌, some, none, List, [], ◌∷◌, ok, ◌≡◌, ◌≢◌, refl, bytes, arith}
use egras.Auth.Middleware.{VerifiedKey}
use egras.Security.ServiceAccounts.{find_account}
use egras.Security.ApiKeySecret.{generate}
use egras.Security.Model.{ApiKeyMaterial, Db}
use egras.Security.ApiKeys.{touch_last_used, revoke, insert_key, find_active_by_prefix, verify}
use egras.Security.PasswordHash.{hash_password, verify_password}
use egras.Security.Tests.{app, argon2, no_faults, call_at, stored_key, world}
use egras.Security.State.{nanos, Call}
use egras.Security.Keys.{
  Draw, CreateApiKeyInput, RevokeApiKeyInput, check_account, draw_key, create_loop, create_key_db,
  create_api_key, revoke_key_db, revoke_api_key,
}
use egras.Security.Keys.Retiring.{KeyRequest, creating, revoking, touching, serve_key, serve_keys}
use egras.Security.Keys.Forever.{retired_forever}

abbrev pub draws : ℕ → Draw
draws n = record {
  id = 41;
  prefix_bytes = bytes "0a1b2c3d";
  secret_bytes = bytes "new secret";
  salt = 5 ∷ [];
}

abbrev pub asked : CreateApiKeyInput
asked = record {
  organisation_id = 1;
  sa_user_id = 8;
  name = "second";
  scopes = some ("features.manage" ∷ []);
  actor_user_id = 7;
  actor_org_id = 1;
}

abbrev revoked : RevokeApiKeyInput
revoked = record {
  organisation_id = 1;
  sa_user_id = 8;
  key_id = 40;
  actor_user_id = 7;
  actor_org_id = 1;
}

abbrev retired : Call × KeyRequest
retired = (call_at 1000 1, revoking revoked)

abbrev later : List (Call × KeyRequest)
later = (call_at 1001 2, creating draws asked) ∷ (call_at 1002 3, touching 40) ∷ []

abbrev accepted : VerifiedKey
accepted = record {
  key_id = 41;
  sa_user_id = 8;
  organisation_id = 1;
  scopes = some ("features.manage" ∷ []);
}

new_key :
    verify no_faults argon2
      (bytes "0a1b2c3d")
      (bytes "new secret")
      (serve_keys app later (serve_key app retired world)).db
    ≡ ok (some accepted)
unfolding serve_key serve_keys revoke_api_key revoke_key_db check_account find_account revoke
    create_api_key create_key_db create_loop draw_key hash_password insert_key touch_last_used
    verify find_active_by_prefix verify_password generate
new_key = refl

-- The new key, as its creation answers it.
abbrev pub material : ApiKeyMaterial
material = record {
  key = record {
    id = 41;
    service_account_user_id = 8;
    prefix = bytes "0a1b2c3d";
    name = "second";
    scopes = some ("features.manage" ∷ []);
    created_at = 1001 * nanos;
    created_by = 7;
    last_used_at = none;
    revoked_at = none;
  };
  plaintext = bytes "egras_live_0a1b2c3d_new secret";
}

abbrev pub with_key : Db
with_key = record world.db {
  api_keys = stored_key ∷ record { key = material.key; secret_hash = 36 ∷ bytes "new secret" } ∷ [];
}

pub created :
    ((create_api_key app (call_at 1001 2) draws asked world).0 ≡ ok material)
    × ((create_api_key app (call_at 1001 2) draws asked world).1.db ≡ with_key)
unfolding check_account find_account create_api_key create_key_db create_loop draw_key hash_password
    insert_key generate
created = (refl, refl)

was_revoked : (revoke_api_key app (call_at 1000 1) revoked world).0 ≡ ok tt
unfolding revoke_api_key revoke_key_db check_account find_account revoke
was_revoked = refl

retired_forever_example : accepted.key_id ≢ 40
retired_forever_example =
    retired_forever app 40 retired world later (call_at 1003 4) (bytes "0a1b2c3d")
      (bytes "new secret") accepted (tt, tt) tt (refl, was_revoked) ((λ n e. omega arith), (tt, tt))
      new_key
