-- ===== src/Auth/Permissions/Sets.antt =====
-- Permission sets as sets of codes.
use egras.Prelude.{
  ℕ, String, true, ◌&&◌, some, ok, List, [], ◌∷◌, filter, contains, String_eq, ℕ_eq, ◌≡◌, ◌↔◌, ◌⊎◌,
  refl, arith, beq_iff,
}
use egras.Auth.Jwt.{Claims}
use egras.Auth.Permissions.{
  PermissionSet, Extensions, collect, from_codes, has, intersect, authorise_org,
  is_operator_over_tenants, is_operator_over_users, is_audit_read_all,
}

contains-collect :
    (codes : List String) (c : String) → contains (collect codes) c ≡ contains codes c
unfolding collect
contains-collect [] c = refl
contains-collect (d ∷ codes) c =
    ground (arith, beq_iff d c, contains-collect codes c, contains-collect codes d)

pub has-from_codes :
    (codes : List String) (c : String) → has (from_codes codes) c ≡ contains codes c
unfolding has from_codes
has-from_codes codes c = contains-collect codes c

contains-filter :
    (allowed codes : List String) (c : String)
    → contains (filter (λ d. contains allowed d) codes) c ≡ (contains codes c && contains allowed c)
contains-filter allowed [] c = refl
contains-filter allowed (d ∷ codes) c = ground (arith, beq_iff d c, contains-filter allowed codes c)

-- A restricted set has exactly the codes that it had and that are allowed.
pub has-intersect :
    (set : PermissionSet) (allowed : List String) (c : String)
    → has (intersect set allowed) c ≡ (has set c && contains allowed c)
unfolding has intersect
has-intersect set allowed c = contains-filter allowed set.codes c

-- A caller whose claims and permissions are in place may act on an organisation exactly when it is
-- the caller's own, or the caller is an operator over tenants or users or may read all audit events.
pub authorise_org_iff :
    (parts : Extensions) (claims : Claims) (set : PermissionSet) (organisation_id : ℕ)
    → parts.claims ≡ some claims
    → parts.permissions ≡ some set
    → (authorise_org parts organisation_id ≡ ok tt) ↔ (
        (claims.org ≡ organisation_id)
        ⊎ (has set "tenants.manage_all" ≡ true)
        ⊎ (has set "users.manage_all" ≡ true)
        ⊎ (has set "audit.read_all" ≡ true))
unfolding authorise_org is_operator_over_tenants is_operator_over_users is_audit_read_all
authorise_org_iff parts claims set organisation_id c p = (λ h. ground arith, λ h. ground arith)
