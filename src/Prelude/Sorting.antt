-- ===== src/Prelude/Sorting.antt =====
-- Sorting by an order.
use mathlib.Core.Path.{◌≡◌, refl, sym, ap, ◌∙◌}
use mathlib.Core.Logic.{inl, inr}
use mathlib.Core.Bool.{Bool, true, false, not}
use mathlib.Core.List.{List, [], ◌∷◌}
use native.Mathlib.Omega.{arith}
use egras.Prelude.Tests.{if◌then◌else◌, Bool-cases}
use egras.Prelude.Lists.{All, All-mono, All-filter, filter}
use egras.Prelude.Counting.{insert_by, sort_by, All-insert_by}

-- An order on rows, of which no two are equal: `before` is `≤`, and `after x y` is `x < y`.
pub record Order {ℓ} {A : Type ℓ} (before after : A → A → Bool) : Type ℓ where
  pub total : (x y : A) → before x y ≡ false → before y x ≡ true
  pub trans : (x y z : A) → before x y ≡ true → before y z ≡ true → before x z ≡ true
  pub strict : (x y : A) → after x y ≡ not (before y x)

module _ {ℓ} {A : Type ℓ} (before after : A → A → Bool) (o : Order before after) where
  pub before_refl : (x : A) → before x x ≡ true
  before_refl x = elim (Bool-cases (before x x)) [ inl e ↦ e | inr e ↦ o.total x x e ]

  abbrev pub IsSorted : List A → Type 0
  IsSorted [] = Unit
  IsSorted (x ∷ xs) = All (λ y. before x y ≡ true) xs × IsSorted xs

  insert_by-IsSorted : (x : A) (xs : List A) → IsSorted xs → IsSorted (insert_by before x xs)
  unfolding insert_by
  insert_by-IsSorted x [] h = (tt, tt)
  insert_by-IsSorted x (y ∷ ys) (m, h) = elim (Bool-cases (before x y)) [
    | inl first ↦ rw first (
      (
        first,
        All-mono (λ z. before y z ≡ true) (λ z. before x z ≡ true) ys (λ z q. o.trans x y z first q)
            m,
      ),
      (m, h),
    )
    | inr later ↦ rw later (
      All-insert_by before (λ z. before y z ≡ true) x ys (o.total x y later) m,
      insert_by-IsSorted x ys h,
    )
  ]

  pub sort_by-IsSorted : (xs : List A) → IsSorted (sort_by before xs)
  unfolding sort_by
  sort_by-IsSorted [] = tt
  sort_by-IsSorted (x ∷ xs) = insert_by-IsSorted x (sort_by before xs) (sort_by-IsSorted xs)

  insert_by-first :
      (x : A) (xs : List A) → All (λ y. before x y ≡ true) xs → insert_by before x xs ≡ x ∷ xs
  unfolding insert_by
  insert_by-first x [] h = refl
  insert_by-first x (y ∷ ys) (e, h) = rw e refl

  filter-insert_by :
      (q : A → Bool) (x : A) (xs : List A)
      → IsSorted xs
      → filter q (insert_by before x xs)
        ≡ (if q x then insert_by before x (filter q xs) else filter q xs)
  unfolding insert_by
  filter-insert_by q x [] h = elim (Bool-cases (q x)) [
    | inl kept ↦ rw kept refl
    | inr left ↦ rw left refl
  ]
  filter-insert_by q x (y ∷ ys) (m, h) = elim (Bool-cases (before x y)) [
    | inl first ↦
        let below =
          All-filter (λ z. before x z ≡ true) (λ z. before x z ≡ true) q (y ∷ ys) (λ z e _. e)
            (
              first,
              All-mono (λ z. before y z ≡ true) (λ z. before x z ≡ true) ys
                  (λ z e. o.trans x y z first e) m,
            ) in
        rw first (elim (Bool-cases (q x)) [
          | inl kept ↦ rw kept (sym (insert_by-first x (filter q (y ∷ ys)) below))
          | inr left ↦ rw left refl
        ])
    | inr later ↦ ground (arith, filter-insert_by q x ys h)
  ]

  -- Sorting and selecting commute.
  pub filter-sort_by :
      (q : A → Bool) (xs : List A) → filter q (sort_by before xs) ≡ sort_by before (filter q xs)
  unfolding sort_by
  filter-sort_by q [] = refl
  filter-sort_by q (x ∷ xs) =
      filter-insert_by q x (sort_by before xs) (sort_by-IsSorted xs) ∙ (elim (Bool-cases (q x)) [
        | inl kept ↦ rw (kept, sort_by) (ap (insert_by before x) (filter-sort_by q xs))
        | inr left ↦ rw left (filter-sort_by q xs)
      ])
