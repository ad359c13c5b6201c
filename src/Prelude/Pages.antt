-- ===== src/Prelude/Pages.antt =====
-- Listings by pages: the rows after a cursor in order, one more than the page holds, and the last
-- row of a full page as the next cursor.
use Prim.Native.Nat.{ℕ, zero, suc, ◌≤◌, ◌<◌}
use mathlib.Core.Path.{◌≡◌, refl, sym, ap, ◌∙◌, subst}
use mathlib.Core.Logic.{◌⊎◌, inl, inr}
use mathlib.Core.Bool.{Bool, true, false, not}
use mathlib.Core.Option.{Option, none, some}
use mathlib.Core.List.{List, [], ◌∷◌, ◌++◌}
use native.Mathlib.Omega.{arith}
use egras.Prelude.Tests.{ltb, if◌then◌else◌, Bool-cases}
use egras.Prelude.Lists.{All, All-filter, All-take, All-trivial, length, take, filter}
use egras.Prelude.Sorting.{Order, before_refl}

module _ {ℓ} {A : Type ℓ} where
  abbrev pub drop : ℕ → List A → List A
  drop zero xs = xs
  drop (suc n) [] = []
  drop (suc n) (x ∷ xs) = drop n xs

  -- `slice::last`
  abbrev pub last : List A → Option A
  last [] = none
  last (x ∷ []) = some x
  last (x ∷ y ∷ xs) = last (y ∷ xs)

  -- `truncate(limit)`, with the last row that is left as the cursor.
  abbrev pub page : ℕ → List A → List A × Option A
  page limit rows =
      if ltb limit (length rows) then (take limit rows, last (take limit rows)) else (rows, none)

module _ {ℓ} {A : Type ℓ} where
  take_short : (n : ℕ) (xs : List A) → length (take (suc n) xs) ≤ n → take (suc n) xs ≡ xs
  take_short n [] h = refl
  take_short zero (x ∷ xs) h = absurd (omega arith)
  take_short (suc n) (x ∷ xs) h = ap (◌∷◌ x) (take_short n xs (omega arith))

  take-take : (n : ℕ) (xs : List A) → take n (take (suc n) xs) ≡ take n xs
  take-take zero xs = refl
  take-take (suc n) [] = refl
  take-take (suc n) (x ∷ xs) = ap (◌∷◌ x) (take-take n xs)

  take-append-drop : (n : ℕ) (xs : List A) → take n xs ++ drop n xs ≡ xs
  take-append-drop zero xs = refl
  take-append-drop (suc n) [] = refl
  take-append-drop (suc n) (x ∷ xs) = ap (◌∷◌ x) (take-append-drop n xs)

  length-drop-le : (n : ℕ) (xs : List A) → length (drop n xs) ≤ length xs
  length-drop-le zero xs = omega arith
  length-drop-le (suc n) [] = omega arith
  length-drop-le (suc n) (x ∷ xs) = omega (arith, length-drop-le n xs)

  length-drop-lt : (n : ℕ) (xs : List A) → 0 < n → 0 < length xs → length (drop n xs) < length xs
  length-drop-lt zero xs h k = absurd (omega arith)
  length-drop-lt (suc n) [] h k = absurd (omega arith)
  length-drop-lt (suc n) (x ∷ xs) h k = omega (arith, length-drop-le n xs)

  some_rows : (n : ℕ) (xs : List A) → ltb n (length (take (suc n) xs)) ≡ true → 0 < length xs
  some_rows n [] h = absurd (ground arith)
  some_rows n (x ∷ xs) h = omega arith

  -- A page of a positive size has a last row, if there is a row at all.
  last-take : (n : ℕ) (xs : List A) → 0 < n → 0 < length xs → (x : A) × (last (take n xs) ≡ some x)
  last-take zero xs h k = absurd (omega arith)
  last-take (suc n) [] h k = absurd (omega arith)
  last-take (suc zero) (x ∷ xs) h k = (x, refl)
  last-take (suc (suc n)) (x ∷ []) h k = (x, refl)
  last-take (suc (suc n)) (x ∷ y ∷ ys) h k = last-take (suc n) (y ∷ ys) (omega arith) (omega arith)

module _ {ℓ} {A : Type ℓ} (before after : A → A → Bool) (o : Order before after) where
  -- Each row is strictly before those that follow it.
  abbrev pub IsStrict : List A → Type 0
  IsStrict [] = Unit
  IsStrict (x ∷ xs) = All (λ y. before y x ≡ false) xs × IsStrict xs

  filter-after : (x : A) (xs : List A) → All (λ y. before y x ≡ false) xs → filter (after x) xs ≡ xs
  filter-after x [] h = refl
  filter-after x (y ∷ ys) (e, h) = let s = o.strict x y in ground (arith, s, filter-after x ys h)

  last-All : (P : A → Type 0) (x : A) (xs : List A) → All P xs → last xs ≡ some x → P x
  last-All P x [] h e = absurd (ground arith)
  last-All P x (y ∷ []) (p, h) e = let same : y ≡ x = ground arith in subst P same p
  last-All P x (y ∷ z ∷ zs) (p, h) e = last-All P x (z ∷ zs) h e

  not_after : (x y : A) → before y x ≡ true → after x y ≡ false
  not_after x y e = o.strict x y ∙ ap not e

  skip_first :
      (x y : A) (ys zs : List A)
      → after x y ≡ false
      → filter (after x) ys ≡ zs
      → filter (after x) (y ∷ ys) ≡ zs
  skip_first x y ys zs off e = rw off e

  -- The rows after the last row of a page are those that the page leaves.
  pub after_page :
      (n : ℕ) (x : A) (xs : List A)
      → IsStrict xs
      → last (take n xs) ≡ some x
      → filter (after x) xs ≡ drop n xs
  after_page zero x xs h e = absurd (ground arith)
  after_page (suc n) x [] h e = absurd (ground arith)
  after_page (suc zero) x (y ∷ ys) (m, h) e =
      let same : y ≡ x = ground arith in
      skip_first x y ys ys
        (not_after x y (ap (λ z. before z x) same ∙ before_refl before after o x))
        (subst (λ z. filter (after z) ys ≡ ys) same (filter-after y ys m))
  after_page (suc (suc n)) x (y ∷ []) (m, h) e =
      let same : y ≡ x = ground arith in
      skip_first x y [] []
        (not_after x y (ap (λ z. before z x) same ∙ before_refl before after o x)) refl
  after_page (suc (suc n)) x (y ∷ z ∷ zs) (m, h) e =
      let later : before x y ≡ false =
        last-All (λ w. before w y ≡ false) x (take (suc n) (z ∷ zs))
          (All-take (λ w. before w y ≡ false) (suc n) (z ∷ zs) m) e in
      skip_first x y (z ∷ zs) (drop n zs) (not_after x y (o.total x y later))
        (after_page (suc n) x (z ∷ zs) h e)

  after_trans : (c x y : A) → after c x ≡ true → after x y ≡ true → after c y ≡ true
  after_trans c x y e h =
      let a = o.strict c x in
      let b = o.strict x y in
      let d = o.strict c y in
      elim (Bool-cases (before y c)) [
        | inr free ↦ d ∙ ap not free
        | inl bad ↦
            let xy : before x y ≡ true = o.total y x (ground (arith, b)) in
            let xc = o.trans x y c xy bad in ground (arith, a, xc)
      ]

  filter-filter :
      (c x : A) (xs : List A)
      → after c x ≡ true
      → filter (after x) (filter (after c) xs) ≡ filter (after x) xs
  filter-filter c x [] e = refl
  filter-filter c x (y ∷ ys) e = elim (Bool-cases (after x y)) [
    | inl later ↦
        let in_both = after_trans c x y e later in ground (arith, filter-filter c x ys e, in_both)
    | inr sooner ↦ ground (arith, filter-filter c x ys e)
  ]

  filter-IsStrict : (q : A → Bool) (xs : List A) → IsStrict xs → IsStrict (filter q xs)
  filter-IsStrict q [] h = tt
  filter-IsStrict q (x ∷ xs) (m, h) = elim (Bool-cases (q x)) [
    | inl kept ↦ rw kept (
      All-filter (λ y. before y x ≡ false) (λ y. before y x ≡ false) q xs (λ y e _. e) m,
      filter-IsStrict q xs h,
    )
    | inr left ↦ rw left (filter-IsStrict q xs h)
  ]

  -- The rows that a cursor leaves.
  abbrev pub rest : Option A → List A → List A
  rest none xs = xs
  rest (some x) xs = filter (after x) xs

  rest_after :
      (cursor : Option A) (x : A) (n : ℕ) (xs : List A)
      → IsStrict xs
      → last (take n (rest cursor xs)) ≡ some x
      → filter (after x) xs ≡ drop n (rest cursor xs)
  rest_after none x n xs h e = after_page n x xs h e
  rest_after (some c) x n xs h e =
      let rows = filter (after c) xs in
      let later : after c x ≡ true =
        last-All (λ y. after c y ≡ true) x (take n rows)
          (All-take (λ y. after c y ≡ true) n rows
            (All-filter (λ y. Unit {0}) (λ y. after c y ≡ true) (after c) xs (λ y _ q. q)
              (All-trivial (λ y. Unit {0}) xs (λ y. tt))))
          e in
      sym (filter-filter c x xs later) ∙ after_page n x rows (filter-IsStrict (after c) xs h) e

  -- A page of the rows after a cursor: the last one, with all of them; or one whose cursor leaves
  -- just the others, which are fewer.
  pub page_step :
      (limit : ℕ) (cursor : Option A) (xs : List A)
      → IsStrict xs
      → 0 < limit
      → (page limit (take (suc limit) (rest cursor xs)) ≡ (rest cursor xs, none))
        ⊎ ((x : A) × (page limit (take (suc limit) (rest cursor xs))
              ≡ (take limit (rest cursor xs), some x))
            × (take limit (rest cursor xs) ++ rest (some x) xs ≡ rest cursor xs)
            × (length (rest (some x) xs) < length (rest cursor xs)))
  page_step limit cursor xs h pos =
      let rows = rest cursor xs in
      elim (Bool-cases (ltb limit (length (take (suc limit) rows)))) [
        | inr fits ↦ let whole = take_short limit rows (ground arith) in inl (rw (fits, whole) refl)
        | inl full ↦
            let (x, is_last) = last-take limit rows pos (some_rows limit rows full) in
            let left = rest_after cursor x limit xs h is_last in
            inr (
              x,
              rw full (rw (take-take limit rows, is_last) refl),
              ap (λ r. take limit rows ++ r) left ∙ take-append-drop limit rows,
              rw left (length-drop-lt limit rows pos (some_rows limit rows full)),
            )
      ]
