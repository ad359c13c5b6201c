-- ===== src/Security/Listing/Tests.antt =====
-- Two users, by pages of one.
use egras.Prelude.{ℕ, Bool, sort_by, Option, some, none, List, [], ◌∷◌, ok, map, ◌≡◌, refl, arith}
use egras.Pagination.{Format, IsFormat}
use egras.Security.Model.{UserCursor}
use egras.Security.Tests.{app, call_at, world}
use egras.Security.Listing.{ListUsersInput}
use egras.Security.Listing.Order.{user_id}
use egras.Security.Listing.Walk.{all_ids, users_listed, users_walk}

read : List ℕ → Option UserCursor
read (created_at ∷ id ∷ []) = some (record { created_at = created_at; user_id = id })
read _ = none

abbrev plain : Format UserCursor
plain = record {
  to_vec = λ c. c.created_at ∷ c.user_id ∷ [];
  from_slice = read;
  base64_encode = λ bs. bs;
  base64_decode = λ bs. some bs;
}

plain-IsFormat : IsFormat plain
unfolding read
plain-IsFormat = record { from_slice-to_vec = λ c. refl; decode-encode64 = λ bs. refl }

abbrev by_ones : ListUsersInput
by_ones = record { org_id = some 1; q = none; after = none; limit = 1 }

users_walk_example :
    all_ids app plain (call_at 1000 1) Bool.false (some 1) by_ones world.db 3 none
    ≡ ok
        (map user_id (users_listed app plain (call_at 1000 1) Bool.false (some 1) by_ones world.db))
unfolding sort_by
users_walk_example =
    users_walk app plain (call_at 1000 1) Bool.false (some 1) by_ones world.db 3 plain-IsFormat refl
      refl ((λ e. omega arith, tt), (tt, tt)) (omega arith) (omega arith) (omega arith)
