-- ===== src/Security/Listing/Order.antt =====
-- The order of the listing of users, and the rows that a query selects.
use egras.Prelude.{
  ℕ, String, Bool, true, false, ◌&&◌, not, Option, none, some, List, [], ◌∷◌, filter, sort_by, rest,
  Order, IsSorted, IsStrict, sort_by-IsSorted, filter-sort_by, Keyed, Keyed-filter, Keyed-sort_by,
  All-mono, All-zip, ℕ_eq, ◌≡◌, ◌≢◌, refl, inl, inr, sym, ap, ◌∙◌, Bool-cases, arith,
}
use egras.Security.Model.{User, UserCursor, Db}
use egras.Security.Users.{in_org, matches, after_cursor, user_before}
use egras.Security.State.{AppState}
use egras.Security.Listing.{cursor_of}

abbrev pub user_after : User → User → Bool
user_after x u = after_cursor (some (cursor_of x)) u

abbrev pub user_id : User → ℕ
user_id u = u.id

user_total : (x y : User) → user_before x y ≡ false → user_before y x ≡ true
user_total x y h = ground arith

user_trans :
    (x y z : User) → user_before x y ≡ true → user_before y z ≡ true → user_before x z ≡ true
user_trans x y z h k = ground arith

user_strict : (x y : User) → user_after x y ≡ not (user_before y x)
user_strict x y = ground arith

pub user_order : Order user_before user_after
user_order = record { total = user_total; trans = user_trans; strict = user_strict }

user_antisym :
    (x y : User) → user_before x y ≡ true → user_id y ≢ user_id x → user_before y x ≡ false
user_antisym x y h n = elim (Bool-cases (user_before y x)) [
  | inr e ↦ e
  | inl e ↦ absurd (n (ground arith))
]

IsStrict-of :
    (xs : List User)
    → IsSorted user_before user_after user_order xs
    → Keyed user_id xs
    → IsStrict user_before user_after user_order xs
IsStrict-of [] h k = tt
IsStrict-of (x ∷ xs) (m, h) (n, k) = (
  All-mono (λ y. (user_before x y ≡ true) × (user_id y ≢ user_id x)) (λ y. user_before y x ≡ false)
      xs (λ y p. user_antisym x y p.0 p.1)
      (All-zip (λ y. user_before x y ≡ true) (λ y. user_id y ≢ user_id x) xs m n),
  IsStrict-of xs h k,
)

filter_and :
    (p q : User → Bool) (xs : List User) → filter q (filter p xs) ≡ filter (λ u. p u && q u) xs
filter_and p q [] = refl
filter_and p q (x ∷ xs) = ground (arith, filter_and p q xs)

filter-true : (p : User → Bool) (xs : List User) → filter (λ u. p u && true) xs ≡ filter p xs
filter-true p [] = refl
filter-true p (x ∷ xs) = ground (arith, filter-true p xs)

module _ (s : AppState) (org : Option ℕ) (q : Option String) (db : Db) where
  abbrev listed : User → Bool
  listed u = in_org org db u && matches s.text q u

  -- All the users of the listing, in order.
  abbrev pub listing : List User
  listing = sort_by user_before (filter listed db.users)

  pub listing-IsStrict : Keyed user_id db.users → IsStrict user_before user_after user_order listing
  listing-IsStrict k =
      IsStrict-of listing
        (sort_by-IsSorted user_before user_after user_order (filter listed db.users))
        (Keyed-sort_by user_id user_before (filter listed db.users)
          (Keyed-filter user_id listed db.users k))

  abbrev pub cursor_at : Option User → Option UserCursor
  cursor_at none = none
  cursor_at (some u) = some (cursor_of u)

  abbrev selected : Option UserCursor → User → Bool
  selected cursor u = listed u && after_cursor cursor u

  -- The rows that the query selects are the rest of the listing.
  pub rest-selected :
      (cursor : Option User)
      → sort_by user_before (filter (selected (cursor_at cursor)) db.users)
        ≡ rest user_before user_after user_order cursor listing
  rest-selected none = ap (sort_by user_before) (filter-true listed db.users)
  rest-selected (some x) =
      ap (sort_by user_before) (sym (filter_and listed (user_after x) db.users))
      ∙ sym
          (filter-sort_by user_before user_after user_order (user_after x) (filter listed db.users))
