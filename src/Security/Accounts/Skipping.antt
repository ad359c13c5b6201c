-- ===== src/Security/Accounts/Skipping.antt =====
-- The pages of the service accounts.
use egras.Prelude.{
  ℕ, suc, ◌+◌, Bool, true, ◌&&◌, Option, some, List, [], ◌∷◌, ◌++◌, length, any, take, filter,
  sort_by, All, All-mono, All-filter, All-take, All-sort_by, All-trivial, Keyed, Lacking,
  Keyed-selection, ok, ltb, ◌==◌, ℕ_eq, ◌≡◌, ◌≢◌, refl, inl, inr, sym, ap, ◌∙◌, subst, Bool-cases,
  arith,
}
use egras.Security.Model.{ServiceAccount, Db, Query}
use egras.Security.ServiceAccounts.{account_id, list, after_account, account_before}
use egras.Security.State.{Call}
use egras.Security.Accounts.{ListServiceAccountsOutput, clamp, pop, page_of, list_service_accounts}

abbrev pub key_of : ServiceAccount → ℕ × ℕ
key_of a = (a.created_at, a.user_id)

-- Whether a row of the table is the account of an organisation with a key.
abbrev pub has_key : ℕ → ℕ × ℕ → ServiceAccount → Bool
has_key org (created_at, id) a =
    a.organisation_id == org && a.created_at == created_at && a.user_id == id

pop_split :
    (a : ServiceAccount) (bs : List ServiceAccount) → (pop a bs).0 ++ (pop a bs).1 ∷ [] ≡ a ∷ bs
pop_split a [] = refl
pop_split a (b ∷ bs) = ap (◌∷◌ a) (pop_split b bs)

-- A page with a cursor: the rows but the last, whose key the cursor is.
page_of-cursor :
    (limit : ℕ) (rows : List ServiceAccount) (cursor : ℕ × ℕ)
    → (page_of limit rows).next_cursor ≡ some cursor
    → (extra : ServiceAccount) × ((page_of limit rows).items ++ extra ∷ [] ≡ rows)
      × (cursor ≡ key_of extra)
page_of-cursor limit [] cursor e = absurd (ground arith)
page_of-cursor limit (a ∷ rows) cursor e = elim (Bool-cases (ltb limit (suc (length rows)))) [
  | inr fits ↦ absurd (ground arith)
  | inl full ↦ ((pop a rows).1, rw full (pop_split a rows), ground arith)
]

All-last :
    (P : ServiceAccount → Type 0) (xs : List ServiceAccount) (x : ServiceAccount)
    → All P (xs ++ x ∷ [])
    → P x
All-last P [] x (p, h) = p
All-last P (y ∷ xs) x (p, h) = All-last P xs x h

Lacking-last :
    (xs : List ServiceAccount) (x : ServiceAccount)
    → Keyed account_id (xs ++ x ∷ [])
    → Lacking account_id (account_id x) xs
Lacking-last [] x h = tt
Lacking-last (y ∷ xs) x (m, h) =
    (λ e. All-last (λ q. account_id q ≢ account_id y) xs x m (sym e), Lacking-last xs x h)

-- Each row that passes a guard is one that a test for itself finds.
any_self :
    (q : ServiceAccount → ServiceAccount → Bool) (guard : ServiceAccount → Bool)
    → ((a : ServiceAccount) → guard a ≡ true → q a a ≡ true)
    → (rows : List ServiceAccount) → All (λ a. guard a ≡ true → any (q a) rows ≡ true) rows
any_self q guard self [] = tt
any_self q guard self (r ∷ rows) = (
  λ e. rw (self r e) refl,
  All-mono (λ a. guard a ≡ true → any (q a) rows ≡ true)
      (λ a. guard a ≡ true → any (q a) (r ∷ rows) ≡ true) rows
      (λ a f e. let found = f e in ground (arith, found)) (any_self q guard self rows),
)

All-pop :
    (P : ServiceAccount → Type 0) (a : ServiceAccount) (bs : List ServiceAccount)
    → All P (a ∷ bs)
    → All P (pop a bs).0
All-pop P a [] h = tt
All-pop P a (b ∷ bs) (p, h) = (p, All-pop P b bs h)

All-page_of :
    (P : ServiceAccount → Type 0) (limit : ℕ) (rows : List ServiceAccount)
    → All P rows
    → All P (page_of limit rows).items
All-page_of P limit [] h = tt
All-page_of P limit (a ∷ rows) h = elim (Bool-cases (ltb limit (suc (length rows)))) [
  | inr fits ↦ rw fits h
  | inl full ↦ rw full (All-pop P a rows h)
]

not_after_itself :
    (cursor : ℕ × ℕ) (a : ServiceAccount) → after_account (some cursor) a ≡ true → key_of a ≢ cursor
not_after_itself cursor a e same =
    let first : a.created_at ≡ cursor.0 = ap (λ (k : ℕ × ℕ). k.0) same in
    let second : a.user_id ≡ cursor.1 = ap (λ (k : ℕ × ℕ). k.1) same in ground arith

module _ (c : Call) (org limit : ℕ) (db : Db) where
  abbrev in_page : Option (ℕ × ℕ) → ServiceAccount → Bool
  in_page after a = a.organisation_id == org && after_account after a

  abbrev selection : Option (ℕ × ℕ) → List ServiceAccount
  selection after =
      take (clamp limit + 1) (sort_by account_before (filter (in_page after) db.service_accounts))

  made_of :
      (after : Option (ℕ × ℕ)) (out : ListServiceAccountsOutput)
      → list_service_accounts c org limit after db ≡ ok out
      → out ≡ page_of (clamp limit) (selection after)
  unfolding list_service_accounts list
  made_of after out e = elim (Bool-cases (c.fails Query.list_accounts_query)) [
    | inl failed ↦ absurd (ground arith)
    | inr works ↦ ground arith
  ]

  selection-All :
      (P : ServiceAccount → Type 0) (after : Option (ℕ × ℕ))
      → All (λ a. in_page after a ≡ true → P a) db.service_accounts
      → All P (selection after)
  selection-All P after h =
      All-take P (clamp limit + 1)
        (sort_by account_before (filter (in_page after) db.service_accounts))
        (All-sort_by account_before P (filter (in_page after) db.service_accounts) (
          All-filter (λ a. in_page after a ≡ true → P a) P (in_page after) db.service_accounts
            (λ a q e. q e) h))

  -- A page of the service accounts that has a cursor leaves out a row of the organisation: the row
  -- whose key the cursor is stands in the table, is not on that page, and is not on the page after
  -- the cursor either, if no two rows have one id.
  pub page_skips :
      (after : Option (ℕ × ℕ)) (cursor : ℕ × ℕ) (out next : ListServiceAccountsOutput)
      → Keyed account_id db.service_accounts
      → list_service_accounts c org limit after db ≡ ok out
      → out.next_cursor ≡ some cursor
      → list_service_accounts c org limit (some cursor) db ≡ ok next
      → (any (has_key org cursor) db.service_accounts ≡ true)
        × All (λ a. account_id a ≢ cursor.1) out.items
        × All (λ a. key_of a ≢ cursor) next.items
  page_skips after cursor out next keyed e ends e' =
      let made = made_of after out e in
      let (extra, whole, is_key) =
        page_of-cursor (clamp limit) (selection after) cursor
          (ap (λ (o : ListServiceAccountsOutput). o.next_cursor) (sym made) ∙ ends) in
      let stored =
        selection-All (λ a. any (has_key org (key_of a)) db.service_accounts ≡ true) after
          (any_self (λ a. has_key org (key_of a)) (in_page after) (λ a e. ground arith)
            db.service_accounts) in
      (
        rw is_key (
            All-last (λ a. any (has_key org (key_of a)) db.service_accounts ≡ true)
              (page_of (clamp limit) (selection after)).items extra
              (subst (All (λ a. any (has_key org (key_of a)) db.service_accounts ≡ true))
                (sym whole) stored)),
        rw (is_key, made)
            (Lacking-last (page_of (clamp limit) (selection after)).items extra (
              subst (Keyed account_id) (sym whole) (
                Keyed-selection account_id account_before (in_page after) (clamp limit + 1)
                  db.service_accounts keyed))),
        rw (made_of (some cursor) next e') (
            All-page_of (λ a. key_of a ≢ cursor) (clamp limit) (selection (some cursor))
              (selection-All (λ a. key_of a ≢ cursor) (some cursor)
                (All-trivial (λ a. in_page (some cursor) a ≡ true → key_of a ≢ cursor)
                  db.service_accounts (λ a q. not_after_itself cursor a (ground arith))))),
      )
