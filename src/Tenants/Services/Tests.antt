-- ===== src/Tenants/Services/Tests.antt =====
-- An organisation with one owner and one other member.
use egras.Tenants.Repository.{create_with_initial_owner}
use egras.Prelude.{
  ◌++◌, Bool, true, false, not, ◌&&◌, some, [], ◌∷◌, any, find, length, ok, ◌≡◌, ◌↔◌, ◌⊎◌, refl,
  ◌==◌, ℕ_eq, String_eq,
}
use egras.Audit.Model.{Stamp}
use egras.Auth.Permissions.{PermissionSet, Extensions, user, has}
use egras.Auth.Extractors.{tenants_members_add, accepts, code}
use egras.Auth.Extractors.Accepts.{accepts-code}
use egras.Auth.Tests.{claims}
use egras.Tenants.Repository.{
  Db, Query, Role, human, Membership, is_member_row, is_owner_row, is_role_row, find_user,
  find_by_code, is_member, has_role, assign,
}
use egras.Tenants.Repository.Owners.{HasOwner, owns, create_owners}
use egras.Tenants.Services.{
  World, assign_role, AssignRoleInput, assign_db, check_actor, check_home, home_of, assign_checked,
  remove_user_from_organisation, RemoveUserFromOrganisationInput, AddUserToOrganisationInput,
}
use egras.Tenants.Services.Owners.{
  Meets, removing, assigning, apply_all, calls_keep_owner, remove_user-ok_iff,
}
use egras.Tenants.Services.Roles.{IsHome, assign_role_sound}
use egras.Tenants.Services.Handlers.Adding.{add_ignores_caller_org}
use egras.Tenants.Services.Handlers.{post_add_user_to_organisation}

abbrev owner_role : Role
owner_role = record { id = 1; code = "org_owner" }

abbrev member_role : Role
member_role = record { id = 2; code = "org_member" }

abbrev db : Db
db = record {
  organisations =
      record {
        id = 2;
        name = "acme";
        business = "retail";
        is_operator = false;
        created_at = 1;
        updated_at = 1;
      }
      ∷ [];
  roles = owner_role ∷ member_role ∷ [];
  memberships =
      record { user_id = 7; organisation_id = 2; role_id = 1; created_at = 1 }
      ∷ record { user_id = 8; organisation_id = 2; role_id = 2; created_at = 2 }
      ∷ [];
  users = record { id = 7; kind = human } ∷ record { id = 8; kind = human } ∷ [];
  service_accounts = [];
}

abbrev founded_db : Db
founded_db = record db {
  organisations =
      db.organisations
      ++ record {
        id = 3;
        name = "initech";
        business = "paper";
        is_operator = false;
        created_at = 5;
        updated_at = 5;
      }
        ∷ [];
  memberships =
      db.memberships
      ++ record { user_id = 8; organisation_id = 3; role_id = 1; created_at = 5 } ∷ [];
}

abbrev world : World
world = record { db = db; audit = [] }

abbrev works : Query → Bool
works q = false

abbrev stamp : Stamp
stamp = record { id = 1; occurred_at = 4 }

abbrev meets : Meets
meets = record { fails = works; now = 4; stamp = stamp }

abbrev promote : AssignRoleInput
promote = record { organisation_id = 2; target_user_id = 8; role_code = "org_owner" }

abbrev leave : RemoveUserFromOrganisationInput
leave = record { user_id = 7; org_id = 2 }

calls_keep_owner_example :
    HasOwner
      (apply_all (removing meets 7 2 leave ∷ assigning meets 7 2 false promote ∷ []) world).db
      2
calls_keep_owner_example =
    calls_keep_owner (removing meets 7 2 leave ∷ assigning meets 7 2 false promote ∷ []) world 2
      refl

remove_user-ok_iff_example :
    ((remove_user_from_organisation works 4 stamp 7 2 leave world).0 ≡ ok tt) ↔ (
      (any (is_member_row 7 2) db.memberships ≡ true)
      × ((any (λ (m : Membership). is_member_row 7 2 m && is_owner_row db.roles m) db.memberships
            ≡ false)
          ⊎ (any
                (λ (m : Membership).
                  m.organisation_id == 2 && is_owner_row db.roles m && not (m.user_id == 7))
                db.memberships
              ≡ true)))
remove_user-ok_iff_example = remove_user-ok_iff works 4 stamp 7 2 leave world refl

promoted : (assign_role works 4 stamp 7 2 false promote world).0 ≡ ok true
unfolding assign_role assign_db check_actor check_home home_of assign_checked find_user find_by_code
    is_member has_role assign
promoted = refl

assign_role_sound_example :
    ((false ≡ true) ⊎ (any (is_member_row 7 2) db.memberships ≡ true))
    × IsHome promote db
    × (any (is_member_row 8 2) db.memberships ≡ true)
    × (length (assign_role works 4 stamp 7 2 false promote world).1.audit ≡ 1)
    × (role : Role) × (find (λ (r : Role). r.code == "org_owner") db.roles ≡ some role)
    × (any (is_role_row 8 2 role.id) db.memberships ≡ false)
    × (any
          (is_role_row 8 2 role.id)
          (assign_role works 4 stamp 7 2 false promote world).1.db.memberships
        ≡ true)
assign_role_sound_example = assign_role_sound works 4 stamp 7 2 false promote world true promoted

abbrev set : PermissionSet
set = record { codes = "tenants.members.add" ∷ [] }

-- The claims are those of user 7 in organisation 1.
abbrev elsewhere : Extensions
elsewhere = record { claims = some claims; permissions = some set; caller = some (user 7 1 9) }

abbrev join : AddUserToOrganisationInput
join = record { user_id = 8; org_id = 2; role_code = "org_owner" }

may_add : accepts tenants_members_add set ≡ true
unfolding has code
may_add = accepts-code set tenants_members_add refl

add_ignores_caller_org_example :
    ((post_add_user_to_organisation works 4 stamp elsewhere join world).0 ≡ ok tt)
    × (any
          (is_role_row 8 2 1)
          (post_add_user_to_organisation works 4 stamp elsewhere join world).1.db.memberships
        ≡ true)
add_ignores_caller_org_example =
    add_ignores_caller_org works 4 stamp elsewhere claims set join world owner_role refl refl
      may_add refl refl refl refl refl

founded :
    create_with_initial_owner works 3 5 "initech" "paper" 8 "org_owner" db
    ≡ ok (
      record {
        id = 3;
        name = "initech";
        business = "paper";
        is_operator = false;
        created_at = 5;
        updated_at = 5;
      },
      founded_db,
    )
unfolding create_with_initial_owner find_by_code
founded = refl

create_owners_example :
    (any (owns founded_db.roles 2) founded_db.memberships ≡ true)
    × (any (is_member_row 8 3) founded_db.memberships ≡ true)
create_owners_example = create_owners works 3 5 8 2 "initech" "paper" _ db founded_db founded
