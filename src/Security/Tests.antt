-- ===== src/Security/Tests.antt =====
-- A small system: one organisation with a user who resets the password, a service account and its
-- key, and crates that satisfy what is asked of theirs.
use egras.Prelude.{
  ℕ, Bool, true, false, ◌*◌, none, some, [], ◌∷◌, ◌==◌, String_eq, bytes_eq, if◌then◌else◌, bytes,
  ◌≡◌, refl, arith, beq_refl,
}
use egras.Json
use egras.Auth.Tests.{codec}
use egras.Tenants.Repository.{UserKind}
use egras.Security.Model.{
  User, UserMembership, ServiceAccount, StoredKey, PasswordResetToken, Query,
}
use egras.Security.PasswordHash.{Argon2, Verified, IsArgon2}
use egras.Security.State.{nanos, AppState, Call, World}

-- A hash is the password behind a dollar sign.
abbrev pub argon2 : Argon2
argon2 = record {
  hash = λ m t p salt password. some (36 ∷ password);
  is_hash = λ h. true;
  verify = λ password h. if h == (36 ∷ password) then Verified.matched else Verified.wrong_password;
}

pub argon2-IsArgon2 : IsArgon2 argon2
argon2-IsArgon2 = record {
  reads = λ m t p salt password h e. refl;
  matches = λ m t p salt password h e.
      let same : h ≡ 36 ∷ password = ground arith in rw same (rw (beq_refl (36 ∷ password)) refl);
}

abbrev pub app : AppState
app = record {
  text = record { email_is = λ a b. a == b; same_email = λ a b. a == b; ilike = λ a b. a == b };
  argon2 = argon2;
  sha256_hex = λ bs. bs;
  hex_encode = λ bs. bs;
  base64_encode = λ bs. bs;
  text_of = λ bs. "";
  uuid_text = λ id. "id";
  hex_decode = λ bs. some bs;
  uuid_json = λ id. Json.number 0;
  codec = codec;
  jwt_config = record { secret = "key"; issuer = "egras"; ttl_secs = 60 };
  password_reset_ttl_secs = 600;
}

abbrev pub no_faults : Query → Bool
no_faults q = false

-- A call in a second, with a fresh id.
abbrev pub call_at : ℕ → ℕ → Call
call_at seconds id = record {
  fails = no_faults;
  now = seconds * nanos;
  stamp = record { id = id; occurred_at = seconds };
  id = id;
  random = 1 ∷ id ∷ [];
}

abbrev pub ada : User
ada = record {
  id = 7;
  username = "ada";
  email = "ada@example.org";
  password_hash = 36 ∷ bytes "first password";
  kind = UserKind.human;
  created_at = 1;
  updated_at = 1;
}

-- What the user is told of the organisation.
abbrev pub membership : UserMembership
membership = record { org_id = 1; org_name = "acme"; role_codes = "org_owner" ∷ []; joined_at = 1 }

abbrev pub robot : User
robot = record {
  id = 8;
  username = "sa_8";
  email = "sa_8@service-account.invalid";
  password_hash = 33 ∷ [];
  kind = UserKind.service_account;
  created_at = 2;
  updated_at = 2;
}

abbrev pub reset_token : PasswordResetToken
reset_token = record {
  id = 30;
  token_hash = 1 ∷ 2 ∷ 3 ∷ [];
  user_id = 7;
  expires_at = 2000 * nanos;
  used_at = none;
  created_at = 1;
}

abbrev pub account : ServiceAccount
account = record {
  user_id = 8;
  organisation_id = 1;
  name = "robot";
  description = none;
  created_at = 2;
  created_by = 7;
  last_used_at = none;
}

abbrev pub stored_key : StoredKey
stored_key = record {
  key = record {
    id = 40;
    service_account_user_id = 8;
    prefix = bytes "00112233";
    name = "first";
    scopes = none;
    created_at = 3;
    created_by = 7;
    last_used_at = none;
    revoked_at = none;
  };
  secret_hash = 36 ∷ bytes "secret";
}

abbrev pub world : World
world = record {
  db = record {
    users = ada ∷ robot ∷ [];
    reset_tokens = reset_token ∷ [];
    revoked_tokens = [];
    service_accounts = account ∷ [];
    api_keys = stored_key ∷ [];
    organisations =
        record {
          id = 1;
          name = "acme";
          business = "tools";
          is_operator = false;
          created_at = 0;
          updated_at = 0;
        }
        ∷ [];
    roles = record { id = 5; code = "org_owner" } ∷ [];
    memberships =
        record { user_id = 7; organisation_id = 1; role_id = 5; created_at = 1 }
        ∷ record { user_id = 8; organisation_id = 1; role_id = 5; created_at = 2 }
        ∷ [];
  };
  audit = [];
}
