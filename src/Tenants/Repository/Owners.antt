-- ===== src/Tenants/Repository/Owners.antt =====
-- The owners of an organisation, through the writes of the repository.
use egras.Prelude.{
  some, ap, ℕ, String, Bool, true, false, ◌&&◌, ◌||◌, not, List, [], ◌∷◌, ◌++◌, any, count, filter,
  ok, ◌≡◌, refl, arith, Bool-cases, Option-cases, find, inl, inr, ◌==◌, ℕ_eq, String_eq,
}
use egras.Tenants.Repository.{Organisation, create_with_initial_owner}
use egras.Tenants.Repository.{
  Db, Query, Role, Membership, is_member_row, is_owner_row, insert_row, delete_rows,
  remove_member_checked, add_member, assign, find_by_code,
}

abbrev pub owns : List Role → ℕ → Membership → Bool
owns roles org m = m.organisation_id == org && is_owner_row roles m

-- Some membership of the organisation has the role `org_owner`.
abbrev pub HasOwner : Db → ℕ → Type 0
HasOwner db org = any (owns db.roles org) db.memberships ≡ true

-- Of the rows with `P`, one is left after those with `K` are deleted, if none of them has both, or if
-- a row with `P` alone is there.
any_delete :
    (P R K : Membership → Bool) (rows : List Membership)
    → ((m : Membership) → P m ≡ true → R m ≡ true)
    → any P rows ≡ true
    → any (λ m. K m && R m) rows ≡ false
    → any P (filter (λ m. not (K m)) rows) ≡ true
any_delete P R K [] sub h n = h
any_delete P R K (m ∷ rows) sub h n = elim (Bool-cases (P m)) [
  | inl hit ↦ ground (arith, hit, sub m hit)
  | inr miss ↦
      let rest = any_delete P R K rows sub (ground (arith, miss)) (ground (arith, n)) in
      ground (arith, rest)
]

any_delete_other :
    (P Q K : Membership → Bool) (rows : List Membership)
    → ((m : Membership) → Q m ≡ true → (P m ≡ true) × (K m ≡ false))
    → any Q rows ≡ true
    → any P (filter (λ m. not (K m)) rows) ≡ true
any_delete_other P Q K [] sub h = h
any_delete_other P Q K (m ∷ rows) sub h = elim (Bool-cases (Q m)) [
  | inl hit ↦ let (p, k) = sub m hit in ground (arith, p, k)
  | inr miss ↦
      let rest = any_delete_other P Q K rows sub (ground (arith, miss)) in ground (arith, rest)
]

pub any_of_count :
    (p : Membership → Bool) (rows : List Membership)
    → (count p rows == 0) ≡ false
    → any p rows ≡ true
any_of_count p [] h = ground (arith, h)
any_of_count p (m ∷ rows) h = elim (Bool-cases (p m)) [
  | inl hit ↦ ground (arith, hit)
  | inr miss ↦ let rest = any_of_count p rows (ground (arith, miss, h)) in ground (arith, rest)
]

pub any_of_count_zero :
    (p : Membership → Bool) (rows : List Membership)
    → (count p rows == 0) ≡ true
    → any p rows ≡ false
any_of_count_zero p [] h = refl
any_of_count_zero p (m ∷ rows) h = elim (Bool-cases (p m)) [
  | inl hit ↦ absurd (ground (arith, hit, h))
  | inr miss ↦ let rest = any_of_count_zero p rows (ground (arith, miss, h)) in ground (arith, rest)
]

pub any-append :
    (p : Membership → Bool) (xs ys : List Membership) → any p (xs ++ ys) ≡ (any p xs || any p ys)
any-append p [] ys = ground arith
any-append p (x ∷ xs) ys = ground (arith, any-append p xs ys)

pub any-insert_row :
    (p : Membership → Bool) (new : Membership) (rows : List Membership)
    → any p rows ≡ true
    → any p (insert_row new rows) ≡ true
unfolding insert_row
any-insert_row p new rows h = ground (arith, any-append p rows (new ∷ []))

module _ (fails : Query → Bool) where
  -- A removal leaves every organisation that has an owner with one.
  pub remove-HasOwner :
      (user org o : ℕ) (db db' : Db)
      → remove_member_checked fails user org db ≡ ok db'
      → HasOwner db o
      → HasOwner db' o
  unfolding remove_member_checked delete_rows
  remove-HasOwner user org o db db' done h =
      let after : db' ≡ record db { memberships = delete_rows user org db.memberships } =
        ground arith in
      let K = is_member_row user org in
      let others = λ (m : Membership).
        m.organisation_id == org && is_owner_row db.roles m && not (m.user_id == user) in
      rw after (elim (Bool-cases (any (λ m. K m && is_owner_row db.roles m) db.memberships)) [
        | inr no_owner ↦
            any_delete (owns db.roles o) (is_owner_row db.roles) K db.memberships
              (λ m p. ground arith) h no_owner
        | inl owner ↦ elim (Bool-cases (org == o)) [
          | inl same ↦
              any_delete_other (owns db.roles o) others K db.memberships
                (λ m q. (ground arith, ground arith))
                (any_of_count others db.memberships (ground arith))
          | inr other ↦
              any_delete_other (owns db.roles o) (owns db.roles o) K db.memberships
                (λ m q. (q, ground arith)) h
        ]
      ])

  pub add-HasOwner :
      (now user org o : ℕ) (code : String) (db db' : Db)
      → add_member fails now user org code db ≡ ok db'
      → HasOwner db o
      → HasOwner db' o
  unfolding add_member find_by_code
  add-HasOwner now user org o code db db' done h =
      elim (Option-cases (find (λ (r : Role). r.code == code) db.roles)) [
        | inl unknown ↦ absurd (ground arith)
        | inr (role, known) ↦
            let new : Membership = record {
              user_id = user;
              organisation_id = org;
              role_id = role.id;
              created_at = now;
            } in
            let after : db' ≡ record db { memberships = insert_row new db.memberships } =
              ground arith in
            rw after (any-insert_row (owns db.roles o) new db.memberships h)
      ]

  pub assign-HasOwner :
      (now user org role o : ℕ) (db db' : Db)
      → assign fails now user org role db ≡ ok db'
      → HasOwner db o
      → HasOwner db' o
  unfolding assign
  assign-HasOwner now user org role o db db' done h =
      let new : Membership = record {
        user_id = user;
        organisation_id = org;
        role_id = role;
        created_at = now;
      } in
      let after : db' ≡ record db { memberships = insert_row new db.memberships } = ground arith in
      rw after (any-insert_row (owns db.roles o) new db.memberships h)

found-is_owner :
    (roles : List Role) (role : Role)
    → find (λ (r : Role). r.code == "org_owner") roles ≡ some role
    → any (λ (r : Role). r.id == role.id && r.code == "org_owner") roles ≡ true
found-is_owner [] role h = absurd (ground arith)
found-is_owner (r ∷ roles) role h = elim (Bool-cases (r.code == "org_owner")) [
  | inl hit ↦
      let same : r ≡ role = ground (arith, hit) in ground (arith, hit, ap (λ (q : Role). q.id) same)
  | inr miss ↦ let rest = found-is_owner roles role (ground (arith, miss)) in ground (arith, rest)
]

-- After an organisation is created with an initial owner, the organisations that have an owner are
-- those that had one and the new one, and its creator is a member of it.
pub create_owners :
    (fails : Query → Bool) (id now creator o : ℕ) (name business : String) (org : Organisation)
    (db db' : Db)
    → create_with_initial_owner fails id now name business creator "org_owner" db ≡ ok (org, db')
    → (any (owns db'.roles o) db'.memberships
        ≡ (any (owns db.roles o) db.memberships || org.id == o))
      × (any (is_member_row creator org.id) db'.memberships ≡ true)
unfolding create_with_initial_owner find_by_code
create_owners fails id now creator o name business org db db' done =
    elim (Option-cases (find (λ (r : Role). r.code == "org_owner") db.roles)) [
      | inl unknown ↦ absurd (ground arith)
      | inr (role, known) ↦
          let new : Membership = record {
            user_id = creator;
            organisation_id = id;
            role_id = role.id;
            created_at = now;
          } in
          let rows : db'.memberships ≡ db.memberships ++ new ∷ [] = ground arith in
          let roles : db'.roles ≡ db.roles = ground arith in
          let same : org.id ≡ id = ground arith in
          let owner = found-is_owner db.roles role known in
          let members = any-append (is_member_row creator id) db.memberships (new ∷ []) in
          let owners = any-append (owns db.roles o) db.memberships (new ∷ []) in
          rw (rows, roles, same) (ground (arith, owners, owner), ground (arith, members))
    ]
