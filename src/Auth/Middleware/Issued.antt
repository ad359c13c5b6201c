-- ===== src/Auth/Middleware/Issued.antt =====
-- A key that the service has just made lets its holder in.
use egras.Prelude.{
  ℕ, String, Option, false, some, List, Result, ok, map_err, ◌≡◌, refl, inr, ap, ◌∙◌, Keyed,
}
use egras.Json
use egras.Json.{Value, items}
use egras.Features.Evaluate.{EvaluateError}
use egras.Security.ApiKeySecret.RoundTrip.{parse_iff}
use egras.Security.PasswordHash.{IsArgon2}
use egras.Security.Model.{ApiKeyMaterial, Query}
use egras.Security.State.{AppState, Call, World}
use egras.Security.Keys.{Draw, CreateApiKeyInput, create_api_key}
use egras.Security.ServiceAccounts.{account_id}
use egras.Security.Keys.Minted.{WellDrawn, created_key_verifies}
use egras.Auth.Permissions.{api_key}
use egras.Auth.Middleware.{Request, VerifiedKey, fault, slug, x_api_key, key_claims, call}
use egras.Auth.Middleware.Spec.{HoldsText, key_permissions, in_x_api_key}
use egras.Auth.Middleware.Complete.{call_iff}
use egras.Auth.Middleware.Strategies.{Catalogue, pg_load, pg_deps}

module _ (s : AppState) (t : Catalogue) (to_str : List ℕ → Option (List ℕ))
    (evaluate : ℕ → String → Result EvaluateError Value) where
  -- From the creation of a key on, a request whose `X-API-Key` is the plaintext reaches the inner
  -- service: as the new key of the service account, in its organisation, with the permissions
  -- that the account is granted there, within the scopes that were asked for. The organisation
  -- allows that header, the hash and the encodings are as their crates document, and the later call
  -- meets no fault.
  pub created_key_enters :
      (c d : Call) (draws : ℕ → Draw) (input : CreateApiKeyInput) (w : World) (m : ApiKeyMaterial)
      (req : Request) (v : List ℕ) (headers : Json.Items) (codes : List String)
      → IsArgon2 s.argon2
      → ((n : ℕ) → WellDrawn s (draws n))
      → Keyed account_id w.db.service_accounts
      → (create_api_key s c draws input w).0 ≡ ok m
      → req.x_api_key ≡ some v
      → to_str v ≡ some m.plaintext
      → evaluate input.organisation_id "auth.api_key_headers" ≡ ok (Json.array headers)
      → HoldsText (slug x_api_key) (items headers)
      → d.fails Query.find_active_query ≡ false
      → pg_load t d.fails
          (create_api_key s c draws input w).1.db
          input.sa_user_id
          input.organisation_id
        ≡ ok codes
      → let deps = pg_deps s t to_str evaluate d (create_api_key s c draws input w).1.db in
        let verified : VerifiedKey = record {
          key_id = m.key.id;
          sa_user_id = input.sa_user_id;
          organisation_id = input.organisation_id;
          scopes = input.scopes;
        } in
        call deps req
        ≡ ok (record {
          extensions = record {
            claims = some (key_claims deps verified);
            permissions = some (key_permissions codes input.scopes);
            caller = some (api_key m.key.id input.sa_user_id input.organisation_id);
          };
          touched = some (m.key.id, input.sa_user_id);
        })
  unfolding pg_deps
  created_key_enters c d draws input w m req v headers codes law drawn keyed made header text flag
        listed works loaded =
      let (p, parsed, accepted) =
        created_key_verifies s c d draws input w m law drawn keyed made works in
      let (well_formed, is_text) = (parse_iff m.plaintext p).0 parsed in
      let deps = pg_deps s t to_str evaluate d (create_api_key s c draws input w).1.db in
      (call_iff deps req _).1 (
        inr (record {
          source = x_api_key;
          key = p;
          well_formed = well_formed;
          presented = in_x_api_key v header (text ∙ ap some is_text);
          verified = _;
          proved = ap (map_err (λ _. fault)) accepted;
          headers = headers;
          flag = flag;
          listed = listed;
          codes = codes;
          loaded = ap (map_err (λ _. fault)) loaded;
          result = refl;
        }))
