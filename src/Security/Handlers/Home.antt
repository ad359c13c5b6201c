-- ===== src/Security/Handlers/Home.antt =====
-- What the handlers of service accounts and keys leave alone: the keys of other organisations.
use egras.Prelude.{
  ℕ, ◌&&◌, not, filter, Result, ok, err, ◌==◌, ℕ_eq, ◌≡◌, refl, inl, inr, sym, ap, ◌∙◌, subst,
  Bool-cases, Result-cases, Keyed, arith,
}
use egras.Error.{AppError}
use egras.Auth.Permissions.{Extensions, is_operator_over_tenants}
use egras.Auth.Extractors.{
  AuthedCaller, Permission, service_accounts_manage, authed_caller, require_human_caller,
  require_perm,
}
use egras.Security.ApiKeys.Abroad.{key_id, is_foreign, SameAbroad}
use egras.Security.State.{AppState, Call, World}
use egras.Security.Accounts.Cascades.{create_service_account-api_keys}
use egras.Security.Accounts.Abroad.{deleting_abroad}
use egras.Security.Keys.{Draw}
use egras.Security.Keys.Abroad.{creating_abroad, revoking_abroad, rotating_abroad}
use egras.Security.Handlers.{
  CreateServiceAccountRequest, CreateApiKeyRequest, RotateApiKeyRequest, gated, behind, answered,
  post_create_service_account, delete_service_account_handler, post_create_api_key,
  delete_api_key_handler, post_rotate_api_key,
}

-- A request that changes service accounts or keys.
pub data Change : Type 0 where
  creating_account : CreateServiceAccountRequest → Change
  deleting_account : ℕ → Change
  creating_key : (ℕ → Draw) → ℕ → CreateApiKeyRequest → Change
  revoking_key : ℕ → ℕ → Change
  rotating_key : (ℕ → Draw) → ℕ → ℕ → RotateApiKeyRequest → Change

gated-ok :
    (p : Permission) (parts : Extensions) (a : AuthedCaller)
    → gated p parts ≡ ok a
    → authed_caller parts ≡ ok a
gated-ok p parts a e = elim (Result-cases (require_human_caller parts)) [
  | inr (_, refused) ↦ absurd (ground arith)
  | inl (_, human) ↦ elim (Result-cases (authed_caller parts)) [
    | inr (_, none_there) ↦ absurd (ground arith)
    | inl (b, there) ↦ elim (Result-cases (require_perm p parts)) [
      | inr (_, denied) ↦ absurd (ground arith)
      | inl (_, granted) ↦ let same : b ≡ a = ground arith in there ∙ ap ok same
    ]
  ]
]

-- The world after a handler that is gated is that of its service, or the one before.
behind_lem {ℓ} :
    {B : Type ℓ} (P : World → Type 0) (parts : Extensions) (caller : AuthedCaller)
    (f : AuthedCaller → World → Result AppError B × World) (w : World)
    → authed_caller parts ≡ ok caller
    → P w
    → P (f caller w).1
    → P (behind (gated service_accounts_manage parts) f w).1
behind_lem P parts caller f w is_caller before after =
    elim (Result-cases (gated service_accounts_manage parts)) [
      | inr (_, refused) ↦ rw refused before
      | inl (a, let_in) ↦
          let same : caller ≡ a =
            let e = sym is_caller ∙ gated-ok service_accounts_manage parts a let_in in
            ground arith in
          rw let_in (subst (λ b. P (f b w).1) same after)
    ]

answered_world {ℓ κ μ} :
    {E : Type ℓ} {A : Type κ} {B : Type μ} (on_error : E → AppError) (on_ok : A → B)
    (r : Result E A × World)
    → (answered on_error on_ok r).1 ≡ r.1
answered_world on_error on_ok (err e, w) = refl
answered_world on_error on_ok (ok a, w) = refl

served_lem {ℓ κ μ} :
    {E : Type ℓ} {A : Type κ} {B : Type μ} (P : World → Type 0) (parts : Extensions)
    (caller : AuthedCaller) (on_error : E → AppError) (on_ok : A → B)
    (run : AuthedCaller → World → Result E A × World) (w : World)
    → authed_caller parts ≡ ok caller
    → P w
    → P (run caller w).1
    → P
        (behind
          (gated service_accounts_manage parts)
          (λ a v. answered on_error on_ok (run a v))
          w).1
served_lem P parts caller on_error on_ok run w is_caller before after =
    behind_lem P parts caller (λ a v. answered on_error on_ok (run a v)) w is_caller before
      (subst P (sym (answered_world on_error on_ok (run caller w))) after)

module _ (s : AppState) (c : Call) (parts : Extensions) where
  pub change : Change → World → World
  change (creating_account req) w = (post_create_service_account s c parts req w).1
  change (deleting_account sa) w = (delete_service_account_handler s c parts sa w).1
  change (creating_key draws sa req) w = (post_create_api_key s c draws parts sa req w).1
  change (revoking_key sa key) w = (delete_api_key_handler s c parts sa key w).1
  change (rotating_key draws sa key req) w = (post_rotate_api_key s c draws parts sa key req w).1

  -- Whatever a caller asks of the handlers that create and delete service accounts and make, revoke and
  -- rotate keys, with whichever ids in the path and the body: the keys of the service accounts of
  -- other organisations than that of the caller's claims stay, each with every field, in a table
  -- where no two keys have one id.
  pub keys_abroad_stay :
      (caller : AuthedCaller) (asked : Change) (w : World)
      → authed_caller parts ≡ ok caller
      → Keyed key_id w.db.api_keys
      → SameAbroad caller.claims.org w.db (change asked w).db
  unfolding change post_create_service_account delete_service_account_handler post_create_api_key
      delete_api_key_handler post_rotate_api_key
  keys_abroad_stay caller (creating_account req) w is_caller keyed =
      behind_lem (λ v. SameAbroad caller.claims.org w.db v.db) parts caller _ w is_caller refl
        (elim (Bool-cases (
          not (is_operator_over_tenants caller.permissions)
          && not (caller.claims.org == req.organisation_id))) [
            | inl elsewhere ↦ rw elsewhere refl
            | inr here ↦ rw here (
                subst (λ v. SameAbroad caller.claims.org w.db v.db) (sym (answered_world _ _ _))
                  (ap (filter (is_foreign caller.claims.org w.db.service_accounts))
                    (create_service_account-api_keys s c _ w)))
          ])
  keys_abroad_stay caller (deleting_account sa) w is_caller keyed =
      served_lem (λ v. SameAbroad caller.claims.org w.db v.db) parts caller _ _ _ w is_caller refl
        (deleting_abroad s c _ w)
  keys_abroad_stay caller (creating_key draws sa req) w is_caller keyed =
      served_lem (λ v. SameAbroad caller.claims.org w.db v.db) parts caller _ _ _ w is_caller refl
        (creating_abroad s c draws _ w)
  keys_abroad_stay caller (revoking_key sa key) w is_caller keyed =
      served_lem (λ v. SameAbroad caller.claims.org w.db v.db) parts caller _ _ _ w is_caller refl
        (revoking_abroad s c _ w)
  keys_abroad_stay caller (rotating_key draws sa key req) w is_caller keyed =
      served_lem (λ v. SameAbroad caller.claims.org w.db v.db) parts caller _ _ _ w is_caller refl
        (rotating_abroad s c draws _ w keyed)
