-- ===== src/Security/Users.antt =====
-- src/security/persistence/user_repository_pg.rs. `Text` is how Postgres compares texts: a bound text
-- with the CITEXT column `email`, two such columns (`UNIQUE`), and `ILIKE`. A transaction is one step.
use Prim.Native.String
use egras.Prelude.{
  ℕ, String, Bool, true, ◌&&◌, ◌||◌, not, Option, none, some, List, [], ◌∷◌, ◌++◌, map, filter,
  find, any, contains, take, min, filter_map, flat_map, sort_by, Result, ok, err, ◌>>=◌, ltb, leb,
  ◌==◌, ℕ_eq, String_eq, if◌then◌else◌,
}
use egras.Tenants.Repository.{Organisation, Role, Membership, human, is_member_row}
use egras.Security.Model.{
  User, UserMembership, UserCursor, Db, Query, find_user_query, update_hash_query,
  list_memberships_query, list_users_query, bulk_memberships_query, insert_user_query,
  role_by_code_query, insert_membership_query,
}

pub record Text : Type 0 where
  pub email_is : String → String → Bool
  pub same_email : String → String → Bool
  pub ilike : String → String → Bool

pub data UserRepoError : Type 0 where
  duplicate_username duplicate_email : String → UserRepoError
  db_error : UserRepoError

pub data CreateAndAddError : Type 0 where
  duplicate_username duplicate_email unknown_role_code : String → CreateAndAddError
  org_not_found db_error : CreateAndAddError

-- The rows of the user in the organisation, with a role that is there.
abbrev pub joined_rows : ℕ → ℕ → Db → List Membership
joined_rows user org db =
    filter
      (λ (m : Membership).
        is_member_row user org m && any (λ (r : Role). r.id == m.role_id) db.roles)
      db.memberships

-- `MIN(uor.created_at)`
unfoldable pub earliest : ℕ → List Membership → ℕ
earliest t [] = t
earliest t (m ∷ ms) = earliest (min t m.created_at) ms

-- `GROUP BY o.id, o.name`: a group has a row.
abbrev pub group_of : Organisation → List Role → List Membership → Option UserMembership
group_of o roles [] = none
group_of o roles (m ∷ ms) = some (record {
  org_id = o.id;
  org_name = o.name;
  role_codes =
      map (λ (r : Role). r.code)
        (filter (λ (r : Role). any (λ (n : Membership). n.role_id == r.id) (m ∷ ms)) roles);
  joined_at = earliest m.created_at ms;
})

abbrev pub joined_before : UserMembership → UserMembership → Bool
joined_before m n = leb m.joined_at n.joined_at

-- `ORDER BY joined_at ASC`
unfoldable pub memberships_of : ℕ → Db → List UserMembership
unfolding earliest
memberships_of user db = sort_by joined_before (
    filter_map (λ (o : Organisation). group_of o db.roles (joined_rows user o.id db))
      db.organisations)

abbrev bulk_before : ℕ × UserMembership → ℕ × UserMembership → Bool
bulk_before (u, m) (v, n) = ltb u v || u == v && leb m.joined_at n.joined_at

nub : List ℕ → List ℕ
nub [] = []
nub (x ∷ xs) = let rest = nub xs in if contains rest x then rest else x ∷ rest

-- `(created_at, id) > ($1, $2)`
abbrev pub after_cursor : Option UserCursor → User → Bool
after_cursor none u = true
after_cursor (some c) u =
    ltb c.created_at u.created_at || c.created_at == u.created_at && ltb c.user_id u.id

abbrev pub in_org : Option ℕ → Db → User → Bool
in_org none db u = true
in_org (some org) db u = any (is_member_row u.id org) db.memberships

abbrev pub user_before : User → User → Bool
user_before u v = ltb u.created_at v.created_at || u.created_at == v.created_at && leb u.id v.id

abbrev pub set_hash : ℕ → ℕ → List ℕ → User → User
set_hash now user_id new_hash u =
    if u.id == user_id then record u { password_hash = new_hash; updated_at = now } else u

module _ (t : Text) where
  abbrev pub matches : Option String → User → Bool
  matches none u = true
  matches (some q) u =
      let pattern = String.◌++◌ "%" (String.◌++◌ q "%") in
      t.ilike u.username pattern || t.ilike u.email pattern

  module _ (fails : Query → Bool) where
    -- `INSERT INTO users`, with its two `UNIQUE` columns and the primary key.
    insert_user : User → Db → Result UserRepoError Db
    insert_user u db =
        if fails insert_user_query || any (λ (v : User). v.id == u.id) db.users
        then err UserRepoError.db_error
        else if any (λ (v : User). v.username == u.username) db.users
        then err (UserRepoError.duplicate_username u.username)
        else if any (λ (v : User). t.same_email v.email u.email) db.users
        then err (UserRepoError.duplicate_email u.email)
        else ok (record db { users = db.users ++ u ∷ [] })

    abbrev new_user : ℕ → ℕ → String → String → List ℕ → User
    new_user id now username email password_hash = record {
      id = id;
      username = username;
      email = email;
      password_hash = password_hash;
      kind = human;
      created_at = now;
      updated_at = now;
    }

    pub create : ℕ → ℕ → String → String → List ℕ → Db → Result UserRepoError (User × Db)
    unfolding insert_user
    create id now username email password_hash db = do
      let u = new_user id now username email password_hash
      db' ← insert_user u db
      ok (u, db')

    -- `WHERE username = $1 OR email = $1 LIMIT 1`
    unfoldable pub find_by_username_or_email : String → Db → Result UserRepoError (Option User)
    find_by_username_or_email name db =
        if fails find_user_query
        then err UserRepoError.db_error
        else ok (find (λ (u : User). u.username == name || t.email_is u.email name) db.users)

    unfoldable pub find_by_id : ℕ → Db → Result UserRepoError (Option User)
    find_by_id id db =
        if fails find_user_query
        then err UserRepoError.db_error
        else ok (find (λ (u : User). u.id == id) db.users)

    unfoldable pub update_password_hash : ℕ → ℕ → List ℕ → Db → Result UserRepoError Db
    update_password_hash now user_id new_hash db =
        if fails update_hash_query
        then err UserRepoError.db_error
        else ok (record db { users = map (set_hash now user_id new_hash) db.users })

    unfoldable pub list_memberships : ℕ → Db → Result UserRepoError (List UserMembership)
    unfolding memberships_of
    list_memberships user db =
        if fails list_memberships_query
        then err UserRepoError.db_error
        else ok (memberships_of user db)

    -- One query for each of the eight cases of the arguments: each is this selection.
    unfoldable pub list_users :
        Option ℕ → Option String → Option UserCursor → ℕ → Db → Result UserRepoError (List User)
    list_users org_id q cursor limit db =
        if fails list_users_query
        then err UserRepoError.db_error
        else ok (
            take limit (
              sort_by user_before (
                filter (λ u. in_org org_id db u && matches q u && after_cursor cursor u) db.users)))

    unfoldable pub list_memberships_for_users :
        List ℕ → Db → Result UserRepoError (List (ℕ × UserMembership))
    unfolding memberships_of nub
    list_memberships_for_users [] db = ok []
    list_memberships_for_users (id ∷ ids) db =
        if fails bulk_memberships_query
        then err UserRepoError.db_error
        else ok (
            sort_by bulk_before
              (flat_map (λ u. map (λ m. (u, m)) (memberships_of u db)) (nub (id ∷ ids))))

    create_error : UserRepoError → CreateAndAddError
    create_error (UserRepoError.duplicate_username s) = CreateAndAddError.duplicate_username s
    create_error (UserRepoError.duplicate_email s) = CreateAndAddError.duplicate_email s
    create_error UserRepoError.db_error = CreateAndAddError.db_error

    -- Both rows in one transaction; the organisation is a foreign key of the second.
    pub create_and_add_to_org :
        ℕ → ℕ → String → String → List ℕ → ℕ → String → Db → Result CreateAndAddError (User × Db)
    unfolding insert_user create_error
    create_and_add_to_org id now username email password_hash org_id role_code db =
        let u = new_user id now username email password_hash in
        elim (insert_user u db) [
          | err e ↦ err (create_error e)
          | ok db' ↦
              if fails role_by_code_query
              then err CreateAndAddError.db_error
              else elim (find (λ (r : Role). r.code == role_code) db.roles) [
                | none ↦ err (CreateAndAddError.unknown_role_code role_code)
                | some r ↦
                    if fails insert_membership_query
                    then err CreateAndAddError.db_error
                    else if not (any (λ (o : Organisation). o.id == org_id) db.organisations)
                    then err CreateAndAddError.org_not_found
                    else ok (
                      u,
                      record db' {
                        memberships =
                            db.memberships
                            ++ record {
                              user_id = id;
                              organisation_id = org_id;
                              role_id = r.id;
                              created_at = now;
                            }
                              ∷ [];
                      },
                    )
              ]
        ]
