-- ===== src/Security/Handlers.antt =====
-- src/security/interface.rs: the handlers of service accounts and keys. The extractors come in the
-- order of the parameters, then the service. Sessions holds the handlers of sessions and passwords.
pub mod Cursors
pub mod Sessions
pub mod Home
pub mod Tests
use egras.Prelude.{
  ℕ, String, Bool, true, false, ◌&&◌, not, Option, none, some, List, [], ◌∷◌, map, Result, ok, err,
  ◌>>=◌, ok_or, map_err, ◌==◌, ℕ_eq, if◌then◌else◌,
}
use egras.Error.{AppError, validation, conflict, internal}
use egras.Auth.Permissions.{Extensions, is_operator_over_tenants}
use egras.Auth.Extractors.{
  AuthedCaller, Permission, service_accounts_read, service_accounts_manage, authed_caller,
  require_human_caller, require_perm,
}
use egras.Security.Model.{ServiceAccount, ApiKey, ApiKeyMaterial, Db}
use egras.Security.ServiceAccounts.{find_account}
use egras.Security.State.{AppState, Call, World, or_error}
use egras.Security.Accounts.{
  CreateServiceAccountError, DeleteServiceAccountError, create_service_account,
  delete_service_account,
}
use egras.Security.Keys.{
  Draw, CreateApiKeyError, RotateApiKeyError, RevokeApiKeyError, ListApiKeysError, create_api_key,
  rotate_api_key, revoke_api_key, list_api_keys,
}

pub record CreateServiceAccountRequest : Type 0 where
  pub organisation_id : ℕ
  pub name : String
  pub description : Option String

pub record ServiceAccountResponse : Type 0 where
  pub user_id : ℕ
  pub organisation_id : ℕ
  pub name : String
  pub description : Option String
  pub created_at : ℕ
  pub last_used_at : Option ℕ

pub record CreateApiKeyRequest : Type 0 where
  pub name : String
  pub scopes : Option (List String)

pub record ApiKeyResponse : Type 0 where
  pub id : ℕ
  pub prefix : List ℕ
  pub name : String
  pub scopes : Option (List String)
  pub created_at : ℕ
  pub last_used_at : Option ℕ
  pub revoked_at : Option ℕ

pub record CreateApiKeyResponse : Type 0 where
  pub key : ApiKeyResponse
  pub plaintext : List ℕ

pub record RotateApiKeyRequest : Type 0 where
  pub name : Option String
  pub scopes : Option (List String)

abbrev pub account_response : ServiceAccount → ServiceAccountResponse
account_response a = record {
  user_id = a.user_id;
  organisation_id = a.organisation_id;
  name = a.name;
  description = a.description;
  created_at = a.created_at;
  last_used_at = a.last_used_at;
}

abbrev key_response : ApiKey → ApiKeyResponse
key_response k = record {
  id = k.id;
  prefix = k.prefix;
  name = k.name;
  scopes = k.scopes;
  created_at = k.created_at;
  last_used_at = k.last_used_at;
  revoked_at = k.revoked_at;
}

abbrev material_response : ApiKeyMaterial → CreateApiKeyResponse
material_response m = record { key = key_response m.key; plaintext = m.plaintext }

abbrev pub field_error : String → String → AppError
field_error field code = validation ((field, code ∷ []) ∷ [])

-- `_gate: RequireHumanCaller`, `caller: AuthedCaller`, `_perm: Perm<P>`
abbrev pub gated : Permission → Extensions → Result AppError AuthedCaller
gated p parts = do
  _ ← require_human_caller parts
  caller ← authed_caller parts
  _ ← require_perm p parts
  ok caller

-- A handler that is gated, and answers from what its service does.
abbrev pub behind {ℓ κ} :
    {A : Type ℓ} {B : Type κ}
    → Result AppError A
    → (A → World → Result AppError B × World)
    → World
    → Result AppError B × World
behind (err e) f w = (err e, w)
behind (ok a) f w = f a w

abbrev pub answered {ℓ κ μ} :
    {E : Type ℓ} {A : Type κ} {B : Type μ}
    → (E → AppError)
    → (A → B)
    → Result E A × World
    → Result AppError B × World
answered on_error on_ok (err e, w) = (err (on_error e), w)
answered on_error on_ok (ok a, w) = (ok (on_ok a), w)

create_account_response : CreateServiceAccountError → AppError
create_account_response CreateServiceAccountError.duplicate_name =
    conflict "service-account name already used in this organisation"
create_account_response CreateServiceAccountError.other = internal

delete_account_response : DeleteServiceAccountError → AppError
delete_account_response DeleteServiceAccountError.not_found = AppError.not_found "service_account"
delete_account_response DeleteServiceAccountError.other = internal

create_key_response : CreateApiKeyError → AppError
create_key_response CreateApiKeyError.not_found = AppError.not_found "service_account"
create_key_response CreateApiKeyError.empty_scopes = field_error "scopes" "empty_scopes"
create_key_response CreateApiKeyError.prefix_collision = internal
create_key_response CreateApiKeyError.other = internal

list_keys_response : ListApiKeysError → AppError
list_keys_response ListApiKeysError.not_found = AppError.not_found "service_account"
list_keys_response ListApiKeysError.other = internal

revoke_key_response : RevokeApiKeyError → AppError
revoke_key_response RevokeApiKeyError.not_found = AppError.not_found "api_key"
revoke_key_response RevokeApiKeyError.key_not_found = AppError.not_found "api_key"
revoke_key_response RevokeApiKeyError.other = internal

rotate_key_response : RotateApiKeyError → AppError
rotate_key_response RotateApiKeyError.not_found = AppError.not_found "api_key"
rotate_key_response RotateApiKeyError.key_not_found = AppError.not_found "api_key"
rotate_key_response RotateApiKeyError.empty_scopes = field_error "scopes" "empty_scopes"
rotate_key_response RotateApiKeyError.prefix_collision = internal
rotate_key_response RotateApiKeyError.other = internal

module _ (s : AppState) (c : Call) where
  pub post_create_service_account :
      Extensions
      → CreateServiceAccountRequest
      → World
      → Result AppError ServiceAccountResponse × World
  unfolding create_account_response
  post_create_service_account parts req = behind (gated service_accounts_manage parts) (λ caller w.
      if not (is_operator_over_tenants caller.permissions)
        && not (caller.claims.org == req.organisation_id)
      then (err (AppError.not_found "organisation"), w)
      else answered create_account_response account_response (
          create_service_account s c
            (record {
              organisation_id = req.organisation_id;
              name = req.name;
              description = req.description;
              actor_user_id = caller.claims.sub;
              actor_org_id = caller.claims.org;
            })
            w))

  pub get_service_account : Extensions → ℕ → Db → Result AppError ServiceAccountResponse
  get_service_account parts sa_id db = do
    caller ← gated service_accounts_read parts
    found ← or_error internal (find_account c.fails caller.claims.org sa_id db)
    sa ← ok_or found (AppError.not_found "service_account")
    ok (account_response sa)

  pub delete_service_account_handler : Extensions → ℕ → World → Result AppError (Unit {0}) × World
  unfolding delete_account_response
  delete_service_account_handler parts sa_id =
      behind (gated service_accounts_manage parts) (λ caller w.
        answered delete_account_response (λ u. u)
          (delete_service_account s c
            (record {
              organisation_id = caller.claims.org;
              sa_user_id = sa_id;
              actor_user_id = caller.claims.sub;
              actor_org_id = caller.claims.org;
            })
            w))

  pub post_create_api_key :
      (ℕ → Draw)
      → Extensions
      → ℕ
      → CreateApiKeyRequest
      → World
      → Result AppError CreateApiKeyResponse × World
  unfolding create_key_response
  post_create_api_key draws parts sa_id req =
      behind (gated service_accounts_manage parts) (λ caller w.
        answered create_key_response material_response (
          create_api_key s c draws
            (record {
              organisation_id = caller.claims.org;
              sa_user_id = sa_id;
              name = req.name;
              scopes = req.scopes;
              actor_user_id = caller.claims.sub;
              actor_org_id = caller.claims.org;
            })
            w))

  pub get_list_api_keys : Extensions → ℕ → Db → Result AppError (List ApiKeyResponse)
  unfolding list_keys_response
  get_list_api_keys parts sa_id db = do
    caller ← gated service_accounts_read parts
    keys ← map_err list_keys_response (list_api_keys s c caller.claims.org sa_id db)
    ok (map key_response keys)

  pub delete_api_key_handler : Extensions → ℕ → ℕ → World → Result AppError (Unit {0}) × World
  unfolding revoke_key_response
  delete_api_key_handler parts sa_id key_id =
      behind (gated service_accounts_manage parts) (λ caller w.
        answered revoke_key_response (λ u. u)
          (revoke_api_key s c
            (record {
              organisation_id = caller.claims.org;
              sa_user_id = sa_id;
              key_id = key_id;
              actor_user_id = caller.claims.sub;
              actor_org_id = caller.claims.org;
            })
            w))

  -- `req.scopes.map(Some)`: scopes that are absent are kept.
  pub post_rotate_api_key :
      (ℕ → Draw)
      → Extensions
      → ℕ
      → ℕ
      → RotateApiKeyRequest
      → World
      → Result AppError CreateApiKeyResponse × World
  unfolding rotate_key_response
  post_rotate_api_key draws parts sa_id key_id req =
      behind (gated service_accounts_manage parts) (λ caller w.
        answered rotate_key_response material_response (
          rotate_api_key s c draws
            (record {
              organisation_id = caller.claims.org;
              sa_user_id = sa_id;
              old_key_id = key_id;
              name = req.name;
              scopes = elim req.scopes [ none ↦ none | some codes ↦ some (some codes) ];
              actor_user_id = caller.claims.sub;
              actor_org_id = caller.claims.org;
            })
            w))
