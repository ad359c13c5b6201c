-- ===== src/Auth/Middleware/Strategies/Tests.antt =====
-- A request with a key that has just been made, and one with a token that has been logged out.
use egras.Prelude.{
  arith, ℕ, String, ◌/◌, none, some, List, [], ◌∷◌, ok, ◌≡◌, ◌↔◌, refl, inl, ◌++◌, Result, bytes,
  String_eq,
}
use egras.Json
use egras.Json.{Value}
use egras.Features.Evaluate.{EvaluateError}
use egras.Auth.Jwt.{Claims}
use egras.Auth.Tests.{decode}
use egras.Auth.Permissions.{api_key}
use egras.Security.ApiKeySecret.{is_ascii_hexdigit, strip_prefix}
use egras.Security.Login.Tests.{logout_goes_through}
use egras.Security.State.{nanos}
use egras.Security.Tests.{app, argon2-IsArgon2, call_at, no_faults, world}
use egras.Security.Keys.{create_api_key}
use egras.Security.Keys.Tests.{draws, asked, material, created}
use egras.Auth.Middleware.{
  AuthDeps, Request, Forwarded, VerifiedKey, slug, call, key_claims, x_api_key_token, bearer_token,
}
use egras.Auth.Middleware.Spec.{key_permissions}
use egras.Auth.Middleware.Strategies.{Catalogue, pg_load, pg_deps}
use egras.Auth.Middleware.Complete.{parse_of_no_key}
use egras.Auth.Middleware.Logout.{logged_out, layer, Answers, logged_out_iff}
use egras.Auth.Middleware.Issued.{created_key_enters}

abbrev rights : Catalogue
rights = record {
  permissions = record { id = 60; code = "features.manage" } ∷ [];
  role_permissions = record { role_id = 5; permission_id = 60 } ∷ [];
}

abbrev headers : Json.Items
headers = Json.of_strings ("x-api-key" ∷ [])

abbrev allowed : ℕ → String → Result EvaluateError Value
allowed org slug = ok (Json.array headers)

abbrev with_the_key : Request
with_the_key = record { x_api_key = some material.plaintext; authorization = none }

abbrev layer_after : AuthDeps
layer_after =
    pg_deps app rights some allowed (call_at 1002 3)
      (create_api_key app (call_at 1001 2) draws asked world).1.db

abbrev verified : VerifiedKey
verified = record {
  key_id = 41;
  sa_user_id = 8;
  organisation_id = 1;
  scopes = some ("features.manage" ∷ []);
}

loaded :
    pg_load rights no_faults (create_api_key app (call_at 1001 2) draws asked world).1.db 8 1
    ≡ ok ("features.manage" ∷ [])
unfolding pg_load
loaded = rw created.1 refl

created_key_enters_example :
    call layer_after with_the_key
    ≡ ok (record {
      extensions = record {
        claims = some (key_claims layer_after verified);
        permissions =
            some (key_permissions ("features.manage" ∷ []) (some ("features.manage" ∷ [])));
        caller = some (api_key 41 8 1);
      };
      touched = some (41, 8);
    })
unfolding is_ascii_hexdigit slug
created_key_enters_example =
    created_key_enters app rights some allowed (call_at 1001 2) (call_at 1002 3) draws asked world
      material with_the_key material.plaintext headers ("features.manage" ∷ []) argon2-IsArgon2
      (λ n. record { eight = refl; digits = refl; nonempty = cc }) (tt, tt) created.0 refl refl refl
      (inl refl) refl loaded

abbrev signed : Claims
signed = record { sub = 7; org = 1; iat = 1000; exp = 1060; jti = 9; iss = "egras"; typ = "access" }

abbrev token : List ℕ
token = 7 ∷ 1 ∷ 1000 ∷ 1060 ∷ 9 ∷ []

abbrev with_the_token : Request
with_the_token = record { x_api_key = none; authorization = some (bytes "Bearer " ++ token) }

loaded_later :
    pg_load rights no_faults
      (logged_out app rights some allowed (call_at 1010 2) (call_at 1060 3) signed token world).1.db
      7
      1
    ≡ ok ("features.manage" ∷ [])
unfolding pg_load
loaded_later = rw logout_goes_through.1 refl

answers :
    Answers app rights some allowed
      (call_at 1010 2)
      (call_at 1060 3)
      signed
      token
      world
      ("features.manage" ∷ [])
unfolding decode
answers = record { decoded = refl; access = refl; works = refl; loaded = loaded_later }

abbrev layer_later : AuthDeps
layer_later = layer app rights some allowed (call_at 1010 2) (call_at 1060 3) signed token world

logged_out_iff_example :
    ((f : Forwarded) × (call layer_later with_the_token ≡ ok f))
    ↔ ((call_at 1060 3).now / nanos ≡ 1060)
unfolding x_api_key_token bearer_token pg_deps strip_prefix
logged_out_iff_example =
    logged_out_iff app rights some allowed (call_at 1010 2) (call_at 1060 3) signed token world
      ("features.manage" ∷ []) with_the_token refl logout_goes_through.0 answers refl refl
      (parse_of_no_key layer_later with_the_token token (λ key k same. ground arith))
