-- ===== src/Security/Listing/Walk.antt =====
-- Walking the pages of the users.
use egras.Prelude.{
  ℕ, zero, suc, ◌-◌, ◌^◌, ◌<◌, Bool, false, Option, none, some, List, [], ◌∷◌, ◌++◌, map, take,
  length, page, rest, page_step, Keyed, Result, ok, err, ℕ_eq, ◌≡◌, refl, inl, inr, sym, ap, ◌∙◌,
  Result-cases, arith,
}
use egras.Pagination.{Format, IsFormat, encode, decode-encode}
use egras.Security.Model.{User, UserCursor, UserMembership, Db, Query}
use egras.Security.Users.{user_before, list_users as select_users, list_memberships_for_users}
use egras.Security.State.{AppState, Call}
use egras.Security.Listing.{
  ListUsersInput, UserWithMemberships, ListUsersOutput, ListUsersError, cursor_of, one_more,
  effective_org_id, of_cursor, next_of, with_memberships, list_users,
}
use egras.Security.Listing.Order.{
  user_after, user_order, listing-IsStrict, cursor_at, rest-selected, user_id, listing,
}

abbrev pub item_id : UserWithMemberships → ℕ
item_id i = i.id

ids_with_memberships :
    (is_operator : Bool) (caller_org : Option ℕ) (rows : List (ℕ × UserMembership))
    (users : List User)
    → map item_id (map (with_memberships is_operator caller_org rows) users) ≡ map user_id users
ids_with_memberships is_operator caller_org rows [] = refl
ids_with_memberships is_operator caller_org rows (u ∷ users) =
    ap (◌∷◌ u.id) (ids_with_memberships is_operator caller_org rows users)

bulk_total :
    (s : AppState) (fails : Query → Bool) (ids : List ℕ) (db : Db)
    → fails Query.bulk_memberships_query ≡ false
    → (rows : List (ℕ × UserMembership)) × (list_memberships_for_users s.text fails ids db
        ≡ ok rows)
unfolding list_memberships_for_users
bulk_total s fails [] db works = ([], refl)
bulk_total s fails (id ∷ ids) db works =
    elim (Result-cases (list_memberships_for_users s.text fails (id ∷ ids) db)) [
      | inl found ↦ found
      | inr (e, failed) ↦ absurd (ground arith)
    ]

one_more-suc : (limit : ℕ) → limit < 2 ^ 32 - 1 → one_more limit ≡ suc limit
one_more-suc limit h = ground arith

module _ (s : AppState) (f : Format UserCursor) (c : Call) (is_operator : Bool)
    (caller_org : Option ℕ) (asked : ListUsersInput) (db : Db) where
  abbrev org_of : Option ℕ
  org_of = effective_org_id is_operator caller_org asked.org_id

  abbrev pub users_listed : List User
  users_listed = listing s org_of asked.q db

  -- The request for the rows after a row.
  abbrev at : Option User → ListUsersInput
  at cursor = record asked { after = next_of f cursor }

  abbrev expected : Option User → List User × Option User
  expected cursor =
      page asked.limit
        (take (suc asked.limit) (rest user_before user_after user_order cursor users_listed))

  cursor_read :
      (cursor : Option User)
      → IsFormat f
      → of_cursor f (next_of f cursor) ≡ ok (cursor_at s org_of asked.q db cursor)
  cursor_read none law = refl
  cursor_read (some u) law = rw (decode-encode f law (cursor_of u), of_cursor) refl

  select_rest :
      (cursor : Option User)
      → c.fails Query.list_users_query ≡ false
      → asked.limit < 2 ^ 32 - 1
      → select_users s.text c.fails org_of asked.q
          (cursor_at s org_of asked.q db cursor)
          (one_more asked.limit)
          db
        ≡ ok (take (suc asked.limit) (rest user_before user_after user_order cursor users_listed))
  unfolding select_users
  select_rest cursor works small =
      rw (select_users, works, one_more-suc asked.limit small)
        (ap (λ r. ok (take (suc asked.limit) r)) (rest-selected s org_of asked.q db cursor))

  service_page :
      (cursor : Option User)
      → IsFormat f
      → c.fails Query.list_users_query ≡ false
      → c.fails Query.bulk_memberships_query ≡ false
      → asked.limit < 2 ^ 32 - 1
      → (out : ListUsersOutput) × (list_users s f c is_operator caller_org (at cursor) db ≡ ok out)
        × (map item_id out.items ≡ map user_id (expected cursor).0)
        × (out.next_cursor ≡ next_of f (expected cursor).1)
  unfolding list_users
  service_page cursor law lists bulk small =
      let (rows, total) = bulk_total s c.fails (map user_id (expected cursor).0) db bulk in
      (
        record {
          items = map (with_memberships is_operator caller_org rows) (expected cursor).0;
          next_cursor = next_of f (expected cursor).1;
        },
        rw (list_users, cursor_read cursor law, select_rest cursor lists small, total) refl,
        ids_with_memberships is_operator caller_org rows (expected cursor).0,
        refl,
      )

  -- The ids that a client collects, who follows the cursors from a row on.
  abbrev pub all_ids : ℕ → Option (List ℕ) → Result ListUsersError (List ℕ)
  all_ids zero after = ok []
  all_ids (suc fuel) after =
      elim (list_users s f c is_operator caller_org (record asked { after = after }) db) [
        | err e ↦ err e
        | ok out ↦ elim out.next_cursor [
          | none ↦ ok (map item_id out.items)
          | some next ↦ elim (all_ids fuel (some next)) [
            | err e ↦ err e
            | ok ids ↦ ok (map item_id out.items ++ ids)
          ]
        ]
      ]

  map-append : (xs ys : List User) → map user_id (xs ++ ys) ≡ map user_id xs ++ map user_id ys
  map-append [] ys = refl
  map-append (x ∷ xs) ys = ap (◌∷◌ (user_id x)) (map-append xs ys)

  last_step :
      (fuel : ℕ) (cursor : Option User) (out : ListUsersOutput) (ids : List ℕ)
      → list_users s f c is_operator caller_org (at cursor) db ≡ ok out
      → out.next_cursor ≡ none
      → map item_id out.items ≡ ids
      → all_ids (suc fuel) (next_of f cursor) ≡ ok ids
  last_step fuel cursor out ids made ends same = rw (all_ids, made, ends, same) refl

  one_step :
      (fuel : ℕ) (cursor : Option User) (next : List ℕ) (out : ListUsersOutput) (ids : List ℕ)
      → list_users s f c is_operator caller_org (at cursor) db ≡ ok out
      → out.next_cursor ≡ some next
      → all_ids fuel (some next) ≡ ok ids
      → all_ids (suc fuel) (next_of f cursor) ≡ ok (map item_id out.items ++ ids)
  one_step fuel cursor next out ids made goes later = rw (all_ids, made, goes, later) refl

  walk_from :
      (fuel : ℕ) (cursor : Option User)
      → IsFormat f
      → c.fails Query.list_users_query ≡ false
      → c.fails Query.bulk_memberships_query ≡ false
      → Keyed user_id db.users
      → 0 < asked.limit
      → asked.limit < 2 ^ 32 - 1
      → length (rest user_before user_after user_order cursor users_listed) < fuel
      → all_ids fuel (next_of f cursor)
        ≡ ok (map user_id (rest user_before user_after user_order cursor users_listed))
  walk_from zero cursor law lists bulk keyed pos small enough = absurd (omega arith)
  walk_from (suc fuel) cursor law lists bulk keyed pos small enough =
      let (out, made, same, next) = service_page cursor law lists bulk small in
      elim (page_step user_before user_after user_order asked.limit cursor users_listed
        (listing-IsStrict s org_of asked.q db keyed) pos) [
          | inl whole ↦
              last_step fuel cursor out
                (map user_id (rest user_before user_after user_order cursor users_listed)) made
                (next ∙ ap (λ (p : List User × Option User). next_of f p.1) whole)
                (same ∙ ap (λ (p : List User × Option User). map user_id p.0) whole)
          | inr (x, cut, whole, fewer) ↦
              let later = walk_from fuel (some x) law lists bulk keyed pos small (omega arith) in
              one_step fuel cursor (encode f (cursor_of x)) out
                (map user_id (rest user_before user_after user_order (some x) users_listed)) made
                (next ∙ ap (λ (p : List User × Option User). next_of f p.1) cut) later
              ∙ ap ok (
                  ap
                    (λ ids.
                      ids
                      ++ map user_id (rest user_before user_after user_order (some x) users_listed))
                    (same ∙ ap (λ (p : List User × Option User). map user_id p.0) cut)
                  ∙ sym (
                      map-append
                        (take asked.limit
                          (rest user_before user_after user_order cursor users_listed))
                        (rest user_before user_after user_order (some x) users_listed))
                  ∙ ap (map user_id) whole)
        ]

  -- A client who lists the users by pages of a size between one and the largest `u32`, and follows
  -- the cursors to the end, gets the id of every user of the listing just once and in its order,
  -- which is that of the creation times and then of the ids: if ids are unique, the cursors' format
  -- reads back what it writes and the two queries succeed. A page more than there are users is
  -- enough.
  pub users_walk :
      (fuel : ℕ)
      → IsFormat f
      → c.fails Query.list_users_query ≡ false
      → c.fails Query.bulk_memberships_query ≡ false
      → Keyed user_id db.users
      → 0 < asked.limit
      → asked.limit < 2 ^ 32 - 1
      → length users_listed < fuel
      → all_ids fuel none ≡ ok (map user_id users_listed)
  users_walk fuel law lists bulk keyed pos small enough =
      walk_from fuel none law lists bulk keyed pos small enough
