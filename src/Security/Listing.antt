-- ===== src/Security/Listing.antt =====
-- src/security/service/list_users.rs. The cursor is opaque text; `page` is the over-fetched page, cut.
pub mod Tests
pub mod Order
pub mod Walk
use egras.Prelude.{
  ℕ, zero, suc, String, Bool, true, false, Option, none, some, List, [], ◌∷◌, map, filter, page,
  Result, ok, err, ◌>>=◌, map_err, ◌==◌, ℕ_eq, if◌then◌else◌, ltb, min, ◌+◌, ◌-◌, ◌^◌,
}
use egras.Pagination.{Format, encode, decode}
use egras.Security.Model.{User, UserMembership, UserCursor, Db}
use egras.Security.Users.{UserRepoError, list_users as select_users, list_memberships_for_users}
use egras.Security.State.{AppState, Call}

pub record ListUsersInput : Type 0 where
  pub org_id : Option ℕ
  pub q : Option String
  pub after : Option (List ℕ)
  pub limit : ℕ

pub record UserWithMemberships : Type 0 where
  pub id : ℕ
  pub username : String
  pub email : String
  pub created_at : ℕ
  pub memberships : List UserMembership

pub record ListUsersOutput : Type 0 where
  pub items : List UserWithMemberships
  pub next_cursor : Option (List ℕ)

pub data ListUsersError : Type 0 where
  invalid_cursor : ListUsersError
  repo : UserRepoError → ListUsersError

abbrev pub cursor_of : User → UserCursor
cursor_of u = record { created_at = u.created_at; user_id = u.id }

-- `u32::saturating_add(1)`
abbrev pub one_more : ℕ → ℕ
one_more limit = min (2 ^ 32 - 1) (suc limit)

-- Who is no operator lists the own organisation, whatever is asked for.
abbrev pub effective_org_id : Bool → Option ℕ → Option ℕ → Option ℕ
effective_org_id true caller_org asked = asked
effective_org_id false caller_org asked = caller_org

-- `memberships.retain(…)`
abbrev visible : Bool → Option ℕ → List UserMembership → List UserMembership
visible true org ms = ms
visible false none ms = ms
visible false (some org) ms = filter (λ (m : UserMembership). m.org_id == org) ms

-- `by_user.remove(&u.id)`: a user is listed once.
abbrev with_memberships : Bool → Option ℕ → List (ℕ × UserMembership) → User → UserWithMemberships
with_memberships is_operator caller_org rows u = record {
  id = u.id;
  username = u.username;
  email = u.email;
  created_at = u.created_at;
  memberships = visible is_operator caller_org (map (λ r. r.1) (filter (λ r. r.0 == u.id) rows));
}

abbrev pub of_cursor :
    Format UserCursor → Option (List ℕ) → Result ListUsersError (Option UserCursor)
of_cursor f none = ok none
of_cursor f (some raw) = elim (decode f raw) [ none ↦ err invalid_cursor | some c ↦ ok (some c) ]

abbrev pub next_of : Format UserCursor → Option User → Option (List ℕ)
next_of f none = none
next_of f (some u) = some (encode f (cursor_of u))

module _ (s : AppState) (f : Format UserCursor) (c : Call) where
  -- With a limit of zero the source has no last row, and panics; its handler refuses that limit.
  pub list_users : Bool → Option ℕ → ListUsersInput → Db → Result ListUsersError ListUsersOutput
  list_users is_operator caller_org input db = do
    cursor ← of_cursor f input.after
    users ← map_err ListUsersError.repo (
        select_users s.text c.fails (effective_org_id is_operator caller_org input.org_id) input.q
          cursor (one_more input.limit) db)
    let (kept, next) = page input.limit users
    rows ←
        map_err ListUsersError.repo
          (list_memberships_for_users s.text c.fails (map (λ (u : User). u.id) kept) db)
    ok (record {
      items = map (with_memberships is_operator caller_org rows) kept;
      next_cursor = next_of f next;
    })
