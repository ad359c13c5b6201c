-- ===== src/Security/Tokens/Spent.antt =====
-- A token that has reset a password stays used, whatever is written later.
use egras.Prelude.{
  ℕ, ◌<◌, Bool, true, false, ◌&&◌, ◌||◌, not, none, some, List, [], ◌∷◌, map, filter, find, any,
  contains, count, sort_by, leb, ◌==◌, ℕ_eq, bytes_eq, ◌≡◌, ◌≤◌, refl, ap, inl, inr, Bool-cases,
  All, All-mono, All-append, All-take, All-sort_by, All-filter, arith, Keyed, Keyed-append,
  Keyed-map, Keyed-selection, selection-IsRow, IsRow, count_chosen, count_split, count_none,
  count-filter, count-append, beq_iff,
}
use egras.Security.Model.{PasswordResetToken, Db, Query, user_exists}
use egras.Security.Tokens.{
  max_pending_tokens_per_user, is_pending, pending_of, older, token_id, oldest, drop_oldest,
  mark_used, count_pending_for_user, insert_row, insert,
}
use egras.Security.Tokens.Cap.{Lacking-of_any, drop_oldest-Keyed}

abbrev pub is_used : PasswordResetToken → Bool
is_used t = elim t.used_at [ none ↦ false | some _ ↦ true ]

abbrev pub has_hash : List ℕ → PasswordResetToken → Bool
has_hash h t = t.token_hash == h

abbrev pub IsUsed : List ℕ → PasswordResetToken → Type 0
IsUsed h t = has_hash h t ≡ true → is_used t ≡ true

-- The hash stands in the table, and only in rows that are used.
pub record Spent (h : List ℕ) (rows : List PasswordResetToken) : Type 0 where
  pub keyed : Keyed token_id rows
  pub used : All (IsUsed h) rows
  pub present : 0 < count (has_hash h) rows

fresh_hash :
    (h : List ℕ) (t : PasswordResetToken) (rows : List PasswordResetToken)
    → any (λ (s : PasswordResetToken). s.id == t.id || s.token_hash == t.token_hash) rows ≡ false
    → 0 < count (has_hash h) rows
    → has_hash h t ≡ false
fresh_hash h t [] e p = absurd (omega arith)
fresh_hash h t (s ∷ rows) e p = ground (
  arith,
  beq_iff t.token_hash h,
  beq_iff s.token_hash h,
  beq_iff s.token_hash t.token_hash,
  fresh_hash h t rows,
)

module _ (h : List ℕ) where
  pending_other :
      (now user : ℕ) (t : PasswordResetToken)
      → IsUsed h t
      → pending_of now user t ≡ true
      → has_hash h t ≡ false
  unfolding is_pending
  pending_other now user t used p = ground arith

  -- The row that gives way is pending, so it is not one of these.
  drop_oldest-Spent :
      (now user : ℕ) (rows : List PasswordResetToken)
      → Spent h rows
      → Spent h (drop_oldest now user rows)
  unfolding drop_oldest
  drop_oldest-Spent now user rows v =
      let p = pending_of now user in
      let q = has_hash h in
      let chosen = oldest now user rows in
      let gone = λ (t : PasswordResetToken). contains (map token_id chosen) t.id in
      let of_table = selection-IsRow token_id older p 1 rows v.keyed in
      let rows_chosen =
        All-mono (λ c. IsRow token_id rows c × (p c ≡ true)) (IsRow token_id rows) chosen
          (λ c r. r.0) of_table in
      let others =
        All-take (λ t. has_hash h t ≡ false) 1 (sort_by older (filter p rows))
          (All-sort_by older (λ t. has_hash h t ≡ false) (filter p rows)
            (All-filter (IsUsed h) (λ t. has_hash h t ≡ false) p rows
              (λ t used pending. pending_other now user t used pending) v.used)) in
      let none_gone =
        count_chosen token_id q rows chosen (Keyed-selection token_id older p 1 rows v.keyed)
          rows_chosen in
      let there = v.present in
      record {
        keyed = drop_oldest-Keyed now user rows v.keyed;
        used = All-filter (IsUsed h) (IsUsed h) (λ t. not (gone t)) rows (λ t u _. u) v.used;
        present = omega (
          arith,
          there,
          none_gone,
          count_none q chosen others,
          count_split gone q rows,
          count-filter q (λ t. not (gone t)) rows,
        );
      }

  module _ (fails : Query → Bool) (now : ℕ) where
    insert_row-Spent :
        (t : PasswordResetToken) (db : Db)
        → Spent h db.reset_tokens
        → Spent h (insert_row fails now t db).1.reset_tokens
    unfolding insert_row
    insert_row-Spent t db v =
        elim (Bool-cases (
          fails Query.insert_token_query
          || not (user_exists t.user_id db)
          || any (λ (s : PasswordResetToken). s.id == t.id || s.token_hash == t.token_hash)
              db.reset_tokens)) [
                | inl refused ↦ rw refused v
                | inr taken ↦
                    let other = fresh_hash h t db.reset_tokens (ground arith) v.present in
                    let there = v.present in
                    rw taken (record {
                      keyed =
                          Keyed-append token_id t db.reset_tokens
                            (Lacking-of_any t db.reset_tokens (ground arith)) v.keyed;
                      used =
                          All-append (IsUsed h) db.reset_tokens (t ∷ []) v.used
                            (λ same. absurd (ground arith), tt);
                      present =
                          omega (arith, there, count-append (has_hash h) db.reset_tokens (t ∷ []));
                    })
              ]

    pub insert-Spent :
        (id user_id : ℕ) (token_hash : List ℕ) (expires_at : ℕ) (db : Db)
        → Spent h db.reset_tokens
        → Spent h (insert fails now id user_id token_hash expires_at db).1.reset_tokens
    unfolding insert count_pending_for_user
    insert-Spent id user_id token_hash expires_at db v =
        let rows = db.reset_tokens in
        let t : PasswordResetToken = record {
          id = id;
          token_hash = token_hash;
          user_id = user_id;
          expires_at = expires_at;
          used_at = none;
          created_at = now;
        } in
        elim (Bool-cases (fails Query.count_pending_query)) [
          | inl failed ↦ rw (failed, insert, count_pending_for_user) v
          | inr counted ↦
              rw (counted, insert, count_pending_for_user)
                (elim (Bool-cases
                  (leb max_pending_tokens_per_user (count (pending_of now user_id) rows))) [
                    | inr below ↦ rw below (insert_row-Spent t db v)
                    | inl full ↦ rw full (elim (Bool-cases (fails Query.delete_oldest_query)) [
                      | inl failed ↦ rw failed v
                      | inr dropped ↦ rw dropped (
                          insert_row-Spent t
                            (record db { reset_tokens = drop_oldest now user_id rows })
                            (drop_oldest-Spent now user_id rows v))
                    ])
                  ])
        ]

  All-mark_used :
      (now id : ℕ) (rows : List PasswordResetToken)
      → All (IsUsed h) rows
      → All (IsUsed h) (map (mark_used now id) rows)
  All-mark_used now id [] u = tt
  All-mark_used now id (t ∷ rows) (used, u) = (
    λ same. elim (Bool-cases (t.id == id)) [
      | inl here ↦ rw here refl
      | inr there ↦ rw there (used (ground arith))
    ],
    All-mark_used now id rows u,
  )

  count-mark_used :
      (now id : ℕ) (rows : List PasswordResetToken)
      → count (has_hash h) (map (mark_used now id) rows) ≡ count (has_hash h) rows
  count-mark_used now id [] = refl
  count-mark_used now id (t ∷ rows) = ground (arith, count-mark_used now id rows)

  pub mark_used-Spent :
      (now id : ℕ) (rows : List PasswordResetToken)
      → Spent h rows
      → Spent h (map (mark_used now id) rows)
  mark_used-Spent now id rows v =
      let there = v.present in
      record {
        keyed = Keyed-map token_id (mark_used now id) rows (λ t. ground arith) v.keyed;
        used = All-mark_used now id rows v.used;
        present = omega (arith, there, count-mark_used now id rows);
      }

  abbrev valid : ℕ → PasswordResetToken → Bool
  valid now t = t.token_hash == h && is_pending now t

  found_counts :
      (now : ℕ) (rows : List PasswordResetToken) (t : PasswordResetToken)
      → find (valid now) rows ≡ some t
      → 0 < count (has_hash h) rows
  found_counts now [] t e = absurd (ground arith)
  found_counts now (r ∷ rows) t e = ground (arith, found_counts now rows t)

  IsUsed-here : (now id : ℕ) (r : PasswordResetToken) → r.id ≡ id → IsUsed h (mark_used now id r)
  IsUsed-here now id r e same = ground arith

  no_hash-IsUsed :
      (now id : ℕ) (rows : List PasswordResetToken)
      → count (has_hash h) rows ≡ 0
      → All (IsUsed h) (map (mark_used now id) rows)
  no_hash-IsUsed now id [] e = tt
  no_hash-IsUsed now id (r ∷ rows) e =
      (λ same. absurd (ground arith), no_hash-IsUsed now id rows (ground arith))

  -- Only one row has the hash, and it is the one that is marked.
  marked-IsUsed :
      (now : ℕ) (rows : List PasswordResetToken) (t : PasswordResetToken)
      → count (has_hash h) rows ≤ 1
      → find (valid now) rows ≡ some t
      → All (IsUsed h) (map (mark_used now t.id) rows)
  marked-IsUsed now [] t one e = tt
  marked-IsUsed now (r ∷ rows) t one e = elim (Bool-cases (valid now r)) [
    | inl here ↦
        let is_t : r ≡ t = ground arith in
        (IsUsed-here now t.id r (ap token_id is_t), no_hash-IsUsed now t.id rows (ground arith))
    | inr there ↦ elim (Bool-cases (has_hash h r)) [
      | inl same ↦ absurd (ground (arith, found_counts now rows t))
      | inr other ↦
          (λ same. absurd (ground arith), marked-IsUsed now rows t (ground arith) (ground arith))
    ]
  ]

  pub marked-Spent :
      (now : ℕ) (rows : List PasswordResetToken) (t : PasswordResetToken)
      → Keyed token_id rows
      → count (has_hash h) rows ≤ 1
      → find (valid now) rows ≡ some t
      → Spent h (map (mark_used now t.id) rows)
  marked-Spent now rows t k one e =
      let there = found_counts now rows t e in
      record {
        keyed = Keyed-map token_id (mark_used now t.id) rows (λ r. ground arith) k;
        used = marked-IsUsed now rows t one e;
        present = omega (arith, there, count-mark_used now t.id rows);
      }

  pub find_valid-Spent :
      (now : ℕ) (rows : List PasswordResetToken)
      → All (IsUsed h) rows
      → find (valid now) rows ≡ none
  unfolding is_pending
  find_valid-Spent now [] u = refl
  find_valid-Spent now (t ∷ rows) (used, u) = ground (arith, find_valid-Spent now rows u)
