-- ===== src/Auth/Middleware/Tests.antt =====
-- Requests with a key, with a token and with neither, over the flags of the test catalogue.
use egras.Prelude.{
  ℕ, String, true, false, none, some, List, [], ◌∷◌, ◌++◌, ok, err, ◌≡◌, ◌↔◌, ◌⊎◌, refl, ◌∙◌, arith,
  bytes, inl, inr, String_eq,
}
use egras.Error
use egras.Error.{http_status}
use egras.Json
use egras.Security.ApiKeySecret.{ParsedKey, is_ascii_hexdigit}
use egras.Security.ApiKeySecret.RoundTrip.{IsKey, render}
use egras.Auth.Permissions.{user, api_key, from_codes, has, intersect}
use egras.Auth.Permissions.Sets.{has-from_codes, has-intersect}
use egras.Auth.Extractors.{features_manage, accepts, code, require_perm, require_human_caller}
use egras.Auth.Extractors.Accepts.{accepts-code}
use egras.Auth.Tests.{codec, decode, claims}
use egras.Features.Evaluate.{evaluate, with_ttl}
use egras.Features.Evaluate.Staleness.{start}
use egras.Features.Evaluate.Tests.{
  catalogue, headers, headers_row, headers_known, headers_type, no_faults, headers_read,
}
use egras.Features.Service.Tests.{fits, catalogue-IsWellTyped}
use egras.Auth.Middleware.{
  AuthDeps, Request, Forwarded, VerifiedKey, denied, x_api_key, slug, x_api_key_token, bearer_token,
  call, key_claims,
}
use egras.Auth.Middleware.Spec.{HoldsText, in_x_api_key, in_authorization, ByKey, ByJwt}
use egras.Auth.Middleware.Complete.{call_iff}
use egras.Auth.Middleware.Confined.{denial_status, key_confined}
use egras.Auth.Middleware.Allowlist.{IsWorking, call_refusal_401}

abbrev verified_key : VerifiedKey
verified_key = record {
  key_id = 3;
  sa_user_id = 7;
  organisation_id = 1;
  scopes = some ("features.manage" ∷ []);
}

abbrev granted : List String
granted = "features.manage" ∷ "channels.manage" ∷ []

abbrev deps : AuthDeps
deps = record {
  secret = "key";
  issuer = "egras";
  codec = codec;
  now = 1000;
  to_str = λ v. some v;
  load = λ user org. ok granted;
  is_revoked = λ jti. ok false;
  verify = λ prefix secret. ok (some verified_key);
  evaluate = λ org slug. (evaluate no_faults 5 org slug catalogue (with_ttl 60)).0;
}

abbrev the_key : ParsedKey
the_key = record { env = bytes "live"; prefix = bytes "00c0ffee"; secret = bytes "s_3" }

abbrev with_key : Request
with_key = record { x_api_key = some (render the_key); authorization = none }

abbrev token : List ℕ
token = 7 ∷ 1 ∷ 1000 ∷ 1060 ∷ 9 ∷ []

abbrev with_jwt : Request
with_jwt = record { x_api_key = none; authorization = some (bytes "Bearer " ++ token) }

abbrev with_nothing : Request
with_nothing = record { x_api_key = none; authorization = none }

abbrev by_key : Forwarded
by_key = record {
  extensions = record {
    claims = some (key_claims deps verified_key);
    permissions = some (intersect (from_codes granted) ("features.manage" ∷ []));
    caller = some (api_key 3 7 1);
  };
  touched = some (3, 7);
}

abbrev by_jwt : Forwarded
by_jwt = record {
  extensions = record {
    claims = some claims;
    permissions = some (from_codes granted);
    caller = some (user 7 1 9);
  };
  touched = none;
}

the_key-IsKey : IsKey the_key
unfolding is_ascii_hexdigit
the_key-IsKey = record { env = ground arith; length = refl; digits = refl; secret = λ e. cc }

listed : HoldsText (slug x_api_key) (Json.items (Json.of_strings ("x-api-key" ∷ [])))
unfolding slug
listed = inl refl

abbrev by_key-ByKey : ByKey deps with_key by_key
by_key-ByKey = record {
  source = x_api_key;
  key = the_key;
  well_formed = the_key-IsKey;
  presented = in_x_api_key (render the_key) refl refl;
  verified = verified_key;
  proved = refl;
  headers = Json.of_strings ("x-api-key" ∷ []);
  flag = headers_read 1;
  listed = listed;
  codes = granted;
  loaded = refl;
  result = refl;
}

by_jwt-ByJwt : ByJwt deps with_jwt by_jwt
unfolding decode
by_jwt-ByJwt = record {
  token = token;
  presented = in_authorization (bytes "Bearer " ++ token) (inl refl) refl refl;
  no_key = λ key k same. ground arith;
  claims = claims;
  decoded = refl;
  access = refl;
  live = refl;
  codes = granted;
  loaded = refl;
  result = refl;
}

call_iff_example :
    (call deps with_key ≡ ok by_key) ↔ (ByJwt deps with_key by_key ⊎ ByKey deps with_key by_key)
call_iff_example = call_iff deps with_key by_key

key_passes : require_perm features_manage by_key.extensions ≡ ok tt
unfolding require_perm code
key_passes =
    let held : has (intersect (from_codes granted) ("features.manage" ∷ [])) "features.manage"
        ≡ true =
      has-intersect (from_codes granted) ("features.manage" ∷ []) "features.manage"
      ∙ ground (arith, has-from_codes granted "features.manage") in
    ground (
      arith,
      accepts-code (intersect (from_codes granted) ("features.manage" ∷ [])) features_manage held,
    )

key_reaches : call deps with_key ≡ ok by_key
key_reaches = (call_iff deps with_key by_key).1 (inr by_key-ByKey)

key_confined_example :
    (codes : List String) × (deps.load 7 1 ≡ ok codes)
    × (accepts features_manage (from_codes codes) ≡ true)
    × (require_human_caller by_key.extensions ≡ err Error.AppError.requires_user_credentials)
key_confined_example =
    key_confined deps with_key by_key 3 7 1 features_manage key_reaches refl key_passes

jwt_reaches : call deps with_jwt ≡ ok by_jwt
jwt_reaches = (call_iff deps with_jwt by_jwt).1 (inl by_jwt-ByJwt)

nothing_refused : call deps with_nothing ≡ err (denied "missing_credentials")
unfolding call x_api_key_token bearer_token
nothing_refused = refl

deps-IsWorking : IsWorking deps
deps-IsWorking = record {
  verify = λ prefix secret. (some verified_key, refl);
  load = λ user org. (granted, refl);
  is_revoked = λ jti. (false, refl);
  evaluate = λ org. (headers, headers_read org);
}

call_refusal_401_example : denial_status (denied "missing_credentials") ≡ 401
call_refusal_401_example =
    call_refusal_401 fits (λ _. catalogue) (λ _. no_faults) 60 5 (with_ttl 60) deps deps-IsWorking
      with_nothing (denied "missing_credentials")
      (λ _. (catalogue-IsWellTyped, (headers_row, headers_known, headers_type))) start (λ org. refl)
      nothing_refused
