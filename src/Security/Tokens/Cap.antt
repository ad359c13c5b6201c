-- ===== src/Security/Tokens/Cap.antt =====
-- The cap of three pending tokens for each user, over calls of the repository that
-- come one after the other.
use egras.Prelude.{
  ℕ, ◌+◌, ◌≤◌, Bool, true, false, ◌||◌, not, none, List, [], ◌∷◌, map, any, contains, count, Result,
  ok, err, leb, ◌==◌, ℕ_eq, bytes_eq, if◌then◌else◌, ◌≡◌, inl, inr, Bool-cases, All-mono,
  All-trivial, arith, Keyed, Lacking, Keyed-filter, Keyed-append, Keyed-map, Keyed-selection,
  selection-IsRow, IsRow, count_chosen, count_split, count_le, count_every, count-filter, count-map,
  count-append, length-selection, min,
}
use egras.Security.Model.{PasswordResetToken, Db, Query, Failure, user_exists}
use egras.Security.Tokens.{
  max_pending_tokens_per_user, is_pending, pending_of, older, token_id, oldest, drop_oldest,
  mark_used, count_pending_for_user, insert_row, insert, consume,
}

-- A call, its instant, and which of its queries fail.
pub data Call : Type 0 where
  inserting : (Query → Bool) → ℕ → ℕ → ℕ → List ℕ → ℕ → Call
  consuming : (Query → Bool) → ℕ → ℕ → Call

abbrev pub time : Call → ℕ
time (inserting _ now _ _ _ _) = now
time (consuming _ now _) = now

abbrev kept : Db → Result Failure Db → Db
kept db (ok db') = db'
kept db (err _) = db

unfoldable pub apply : Call → Db → Db
apply (inserting fails now id user token_hash expires_at) db =
    (insert fails now id user token_hash expires_at db).1
apply (consuming fails now id) db = kept db (consume fails now id db)

unfoldable pub apply_all : List Call → Db → Db
apply_all [] db = db
apply_all (c ∷ calls) db = apply_all calls (apply c db)

-- The instants of the calls lie between the two and do not go back.
abbrev pub Between : ℕ → List Call → ℕ → Type 0
Between from [] until = from ≤ until
Between from (c ∷ calls) until = (from ≤ time c) × Between (time c) calls until

pub record IsCapped (now : ℕ) (rows : List PasswordResetToken) : Type 0 where
  pub keyed : Keyed token_id rows
  pub capped : (user : ℕ) → count (pending_of now user) rows ≤ max_pending_tokens_per_user

pending_earlier :
    (now later user : ℕ) (t : PasswordResetToken)
    → now ≤ later
    → pending_of later user t ≡ true
    → pending_of now user t ≡ true
unfolding is_pending
pending_earlier now later user t h p = ground arith

IsCapped-later :
    (now later : ℕ) (rows : List PasswordResetToken)
    → now ≤ later
    → IsCapped now rows
    → IsCapped later rows
IsCapped-later now later rows h v = record {
  keyed = v.keyed;
  capped = λ user.
      let fewer =
        count_le (pending_of later user) (pending_of now user) rows
          (All-trivial _ rows (λ t p. pending_earlier now later user t h p)) in
      let bound = v.capped user in omega (arith, fewer, bound);
}

-- The oldest pending token is one, and it goes.
count-drop_oldest :
    (now user : ℕ) (rows : List PasswordResetToken)
    → Keyed token_id rows
    → count (pending_of now user) (drop_oldest now user rows)
        + min 1 (count (pending_of now user) rows)
      ≡ count (pending_of now user) rows
unfolding drop_oldest
count-drop_oldest now user rows h =
    let p = pending_of now user in
    let chosen = oldest now user rows in
    let of_table = selection-IsRow token_id older p 1 rows h in
    let gone = count_chosen token_id p rows chosen (Keyed-selection token_id older p 1 rows h) (
      All-mono (λ c. IsRow token_id rows c × (p c ≡ true)) (IsRow token_id rows) chosen (λ c r. r.0)
        of_table) in
    let every = count_every p chosen (
      All-mono (λ c. IsRow token_id rows c × (p c ≡ true)) (λ c. p c ≡ true) chosen (λ c r. r.1)
        of_table) in
    omega (
      arith,
      gone,
      every,
      length-selection older p 1 rows,
      count-filter p (λ t. not (contains (map token_id chosen) t.id)) rows,
      count_split (λ t. contains (map token_id chosen) t.id) p rows,
    )

count-drop_oldest-le :
    (now user other : ℕ) (rows : List PasswordResetToken)
    → count (pending_of now other) (drop_oldest now user rows) ≤ count (pending_of now other) rows
unfolding drop_oldest
count-drop_oldest-le now user other rows =
    let p = pending_of now other in
    let chosen = oldest now user rows in
    omega (
      arith,
      count-filter p (λ t. not (contains (map token_id chosen) t.id)) rows,
      count_split (λ t. contains (map token_id chosen) t.id) p rows,
    )

pub drop_oldest-Keyed :
    (now user : ℕ) (rows : List PasswordResetToken)
    → Keyed token_id rows
    → Keyed token_id (drop_oldest now user rows)
unfolding drop_oldest
drop_oldest-Keyed now user rows h =
    Keyed-filter token_id (λ t. not (contains (map token_id (oldest now user rows)) t.id)) rows h

pub Lacking-of_any :
    (t : PasswordResetToken) (rows : List PasswordResetToken)
    → any (λ (s : PasswordResetToken). s.id == t.id || s.token_hash == t.token_hash) rows ≡ false
    → Lacking token_id t.id rows
Lacking-of_any t [] h = tt
Lacking-of_any t (s ∷ rows) h = (ground arith, Lacking-of_any t rows (ground arith))

module _ (fails : Query → Bool) (now : ℕ) where
  used_was_pending :
      (user id : ℕ) (t : PasswordResetToken)
      → pending_of now user (mark_used now id t) ≡ true
      → pending_of now user t ≡ true
  unfolding is_pending
  used_was_pending user id t h = ground arith

  -- There is room for one more of the user, and the keys are checked.
  insert_row-IsCapped :
      (t : PasswordResetToken) (db : Db)
      → Keyed token_id db.reset_tokens
      → ((user : ℕ)
          → count (pending_of now user) db.reset_tokens + (if t.user_id == user then 1 else 0)
            ≤ max_pending_tokens_per_user)
      → IsCapped now (insert_row fails now t db).1.reset_tokens
  unfolding insert_row
  insert_row-IsCapped t db h room =
      elim (Bool-cases (
        fails Query.insert_token_query
        || not (user_exists t.user_id db)
        || any (λ (s : PasswordResetToken). s.id == t.id || s.token_hash == t.token_hash)
            db.reset_tokens)) [
              | inl refused ↦
                  rw refused
                    (record { keyed = h; capped = λ user. let r = room user in ground arith })
              | inr taken ↦ rw taken (record {
                keyed =
                    Keyed-append token_id t db.reset_tokens
                      (Lacking-of_any t db.reset_tokens (ground arith)) h;
                capped = λ user.
                    let r = room user in
                    let sum = count-append (pending_of now user) db.reset_tokens (t ∷ []) in
                    ground (arith, sum);
              })
            ]

  insert-IsCapped :
      (id user_id : ℕ) (token_hash : List ℕ) (expires_at : ℕ) (db : Db)
      → IsCapped now db.reset_tokens
      → IsCapped now (insert fails now id user_id token_hash expires_at db).1.reset_tokens
  unfolding insert count_pending_for_user
  insert-IsCapped id user_id token_hash expires_at db v =
      let rows = db.reset_tokens in
      let t : PasswordResetToken = record {
        id = id;
        token_hash = token_hash;
        user_id = user_id;
        expires_at = expires_at;
        used_at = none;
        created_at = now;
      } in
      elim (Bool-cases (fails Query.count_pending_query)) [
        | inl failed ↦ rw (failed, insert, count_pending_for_user) v
        | inr counted ↦
            rw (counted, insert, count_pending_for_user)
              (elim (Bool-cases
                (leb max_pending_tokens_per_user (count (pending_of now user_id) rows))) [
                  | inr below ↦ rw below (
                      insert_row-IsCapped t db v.keyed (λ user.
                        elim (Bool-cases (user_id == user)) [
                          | inl same ↦
                              let e : user_id ≡ user = ground arith in rw (← e) (ground arith)
                          | inr other ↦ let c = v.capped user in ground arith
                        ]))
                  | inl full ↦ rw full (elim (Bool-cases (fails Query.delete_oldest_query)) [
                    | inl failed ↦ rw (failed, insert, count_pending_for_user) v
                    | inr dropped ↦ rw dropped (
                        insert_row-IsCapped t
                          (record db { reset_tokens = drop_oldest now user_id rows })
                          (drop_oldest-Keyed now user_id rows v.keyed)
                          (λ user. elim (Bool-cases (user_id == user)) [
                            | inl same ↦
                                let e : user_id ≡ user = ground arith in
                                let c = v.capped user_id in
                                let one = count-drop_oldest now user_id rows v.keyed in
                                rw (← e) (ground (arith, one, c))
                            | inr other ↦
                                let c = v.capped user in
                                let fewer = count-drop_oldest-le now user_id user rows in
                                ground (arith, fewer, c)
                          ]))
                  ])
                ])
      ]

  consume-IsCapped :
      (id : ℕ) (db : Db)
      → IsCapped now db.reset_tokens
      → IsCapped now (kept db (consume fails now id db)).reset_tokens
  unfolding consume
  consume-IsCapped id db v = elim (Bool-cases (fails Query.consume_token_query)) [
    | inl failed ↦ rw (failed, consume) v
    | inr marked ↦
        rw (marked, consume)
          (record {
            keyed =
                Keyed-map token_id (mark_used now id) db.reset_tokens (λ t. ground arith) v.keyed;
            capped = λ user.
                let c = v.capped user in
                let moved = count-map (pending_of now user) (mark_used now id) db.reset_tokens in
                let fewer =
                  count_le (λ t. pending_of now user (mark_used now id t)) (pending_of now user)
                    db.reset_tokens
                    (All-trivial _ db.reset_tokens (λ t. used_was_pending user id t)) in
                omega (arith, c, moved, fewer);
          })
  ]

apply-IsCapped :
    (c : Call) (db : Db)
    → IsCapped (time c) db.reset_tokens
    → IsCapped (time c) (apply c db).reset_tokens
unfolding apply
apply-IsCapped (inserting fails now id user token_hash expires_at) db v =
    insert-IsCapped fails now id user token_hash expires_at db v
apply-IsCapped (consuming fails now id) db v = consume-IsCapped fails now id db v

-- Whatever tokens are inserted and consumed by calls that come one after the other, none beginning
-- before the one before it has ended (the count, the removal and the insertion of a call commit
-- apart), for whichever users and with whatever faults of the database, and however few tokens have
-- expired: no user has more than three tokens that can reset the password, from a table that is so
-- and has distinct ids, while the clock does not go back.
pub calls_keep_cap :
    (calls : List Call) (from until : ℕ) (db : Db)
    → Between from calls until
    → IsCapped from db.reset_tokens
    → IsCapped until (apply_all calls db).reset_tokens
unfolding apply_all
calls_keep_cap [] from until db h v = IsCapped-later from until db.reset_tokens h v
calls_keep_cap (c ∷ calls) from until db (first, h) v =
    calls_keep_cap calls (time c) until (apply c db) h
      (apply-IsCapped c db (IsCapped-later from (time c) db.reset_tokens first v))
