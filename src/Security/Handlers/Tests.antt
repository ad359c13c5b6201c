-- ===== src/Security/Handlers/Tests.antt =====
-- A revocation asked for over HTTP, and a cursor.
use egras.Prelude.{ℕ, ◌+◌, ◌-◌, true, Option, none, some, List, [], ◌∷◌, ok, ◌≡◌, refl, ap, arith}
use egras.Auth.Permissions.{Extensions, user}
use egras.Auth.Extractors.{AuthedCaller, authed_caller}
use egras.Auth.Tests.{claims}
use egras.Security.ApiKeys.Abroad.{SameAbroad}
use egras.Security.Tests.{app, call_at, world}
use egras.Security.Handlers.Home.{revoking_key, change, keys_abroad_stay}
use egras.Security.Handlers.Cursors.{
  SaText, IsSaText, encode_sa_cursor, decode_sa_cursor, decode_sa_cursor-encode,
}

abbrev manager : AuthedCaller
manager = record {
  claims = claims;
  permissions = record { codes = "service_accounts.manage" ∷ [] };
}

abbrev parts : Extensions
parts = record {
  claims = some manager.claims;
  permissions = some manager.permissions;
  caller = some (user 7 1 9);
}

is_manager : authed_caller parts ≡ ok manager
unfolding authed_caller
is_manager = refl

keys_abroad_stay_example :
    SameAbroad 1 world.db (change app (call_at 1000 1) parts (revoking_key 8 40) world).db
keys_abroad_stay_example =
    keys_abroad_stay app (call_at 1000 1) parts manager (revoking_key 8 40) world is_manager
      (tt, tt)

-- One digit stands for an instant, and one for an id.
read : List ℕ → Option ℕ
read (n ∷ []) = some n
read _ = none

abbrev digits : SaText
digits = record {
  base64_encode = λ bs. bs;
  base64_decode = λ bs. some bs;
  is_utf8 = λ bs. true;
  to_rfc3339 = λ at. (at + 200) ∷ [];
  parse_from_rfc3339 = λ bs. elim (read bs) [ none ↦ none | some n ↦ some (n - 200) ];
  uuid_to_text = λ id. id ∷ [];
  parse_str = read;
}

digits-IsSaText : IsSaText digits
unfolding read
digits-IsSaText = record {
  decode-encode64 = λ bs. refl;
  utf8 = λ at id. refl;
  parse-rfc3339 = λ at. ap some (omega arith);
  parse-uuid = λ id. refl;
  no_bar = λ at. (λ e. omega arith, tt);
}

decode_sa_cursor-encode_example :
    decode_sa_cursor digits (encode_sa_cursor digits (4, 9)) ≡ ok (4, 9)
decode_sa_cursor-encode_example = decode_sa_cursor-encode digits digits-IsSaText (4, 9)
