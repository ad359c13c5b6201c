-- ===== src/Security/Tokens/Tests.antt =====
-- Four requests for a reset in a row, and two at the same time.
use egras.Prelude.{List, [], ◌∷◌, ok, ◌≡◌, count, refl, ℕ_eq, arith}
use egras.Security.Model.{Db}
use egras.Security.Tests.{no_faults, world}
use egras.Security.Tokens.{
  is_pending, pending_of, count_pending_for_user, make_room, new_token, insert_row, insert,
  drop_oldest,
}
use egras.Security.Tokens.Cap.{
  Call, inserting, consuming, IsCapped, apply, apply_all, calls_keep_cap,
}

abbrev calls : List Call
calls =
    inserting no_faults 10 31 7 (4 ∷ []) 5000
    ∷ inserting no_faults 11 32 7 (5 ∷ []) 5000
    ∷ consuming no_faults 12 30
    ∷ inserting no_faults 13 33 7 (6 ∷ []) 5000
    ∷ inserting no_faults 14 34 7 (7 ∷ []) 5000
    ∷ []

calls_keep_cap_example : IsCapped 20 (apply_all calls world.db).reset_tokens
unfolding is_pending
calls_keep_cap_example =
    calls_keep_cap calls 5 20 world.db
      (omega arith, (omega arith, (omega arith, (omega arith, (omega arith, omega arith)))))
      (record { keyed = (tt, tt); capped = λ user. ground arith })

-- Two tokens are pending when two calls begin.
abbrev two_pending : Db
two_pending =
    apply_all
      (inserting no_faults 10 31 7 (4 ∷ []) 5000 ∷ inserting no_faults 11 32 7 (5 ∷ []) 5000 ∷ [])
      (record world.db { reset_tokens = [] })

abbrev both_inserted : Db
both_inserted =
    (insert_row no_faults 13 (new_token no_faults 13 34 7 (7 ∷ []) 5000)
      (insert_row no_faults 12 (new_token no_faults 12 33 7 (6 ∷ []) 5000) two_pending).1).1

-- Each counts two and makes no room, and then each inserts its own.
overlapping_inserts :
    (count_pending_for_user no_faults 12 7 two_pending ≡ ok 2)
    × (count_pending_for_user no_faults 13 7 two_pending ≡ ok 2)
    × (make_room no_faults 13 7 2 two_pending ≡ ok two_pending)
    × (count (pending_of 14 7) both_inserted.reset_tokens ≡ 4)
unfolding apply_all apply insert count_pending_for_user insert_row drop_oldest is_pending
overlapping_inserts = (refl, refl, refl, refl)
