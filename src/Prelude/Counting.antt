-- ===== src/Prelude/Counting.antt =====
-- How many items of a list pass a test, and sorting by insertion, which keeps these numbers.
use Prim.Native.Nat.{ℕ, ◌+◌, ◌≤◌}
use mathlib.Core.Path.{◌≡◌, refl}
use mathlib.Core.Logic.{inl, inr}
use mathlib.Core.Bool.{Bool, true, false, ◌&&◌, not}
use mathlib.Core.List.{List, [], ◌∷◌, ◌++◌, map}
use native.Mathlib.Omega.{arith}
use egras.Prelude.Tests.{if◌then◌else◌, Bool-cases}
use egras.Prelude.Lists.{All, length, filter}

module _ {ℓ} {A : Type ℓ} where
  abbrev pub count : (A → Bool) → List A → ℕ
  count p [] = 0
  count p (x ∷ xs) = if p x then 1 + count p xs else count p xs

  pub count-append : (p : A → Bool) (xs ys : List A) → count p (xs ++ ys) ≡ count p xs + count p ys
  count-append p [] ys = omega arith
  count-append p (x ∷ xs) ys = ground (arith, count-append p xs ys)

  -- Those that pass two tests, and those that pass the second alone.
  pub count_split :
      (m p : A → Bool) (xs : List A)
      → count p xs ≡ count (λ x. m x && p x) xs + count (λ x. not (m x) && p x) xs
  count_split m p [] = omega arith
  count_split m p (x ∷ xs) = ground (arith, count_split m p xs)

  -- Tests that agree on every item count the same.
  pub count_cong :
      (p q : A → Bool) (xs : List A) → All (λ x. p x ≡ q x) xs → count p xs ≡ count q xs
  count_cong p q [] h = refl
  count_cong p q (x ∷ xs) (e, h) = ground (arith, count_cong p q xs h)

  pub count_none : (p : A → Bool) (xs : List A) → All (λ x. p x ≡ false) xs → count p xs ≡ 0
  count_none p [] h = refl
  count_none p (x ∷ xs) (e, h) = ground (arith, count_none p xs h)

  pub count_every : (p : A → Bool) (xs : List A) → All (λ x. p x ≡ true) xs → count p xs ≡ length xs
  count_every p [] h = refl
  count_every p (x ∷ xs) (e, h) = ground (arith, count_every p xs h)

  pub count_le :
      (p q : A → Bool) (xs : List A)
      → All (λ x. p x ≡ true → q x ≡ true) xs
      → count p xs ≤ count q xs
  count_le p q [] h = omega arith
  count_le p q (x ∷ xs) (e, h) = ground (arith, count_le p q xs h)

  -- Of the rows that are kept, and of those that are left out.
  pub count-filter :
      (p m : A → Bool) (xs : List A) → count p (filter m xs) ≡ count (λ x. m x && p x) xs
  count-filter p m [] = refl
  count-filter p m (x ∷ xs) = ground (arith, count-filter p m xs)

  pub count-map :
      (p : A → Bool) (f : A → A) (xs : List A) → count p (map f xs) ≡ count (λ x. p (f x)) xs
  count-map p f [] = refl
  count-map p f (x ∷ xs) = ground (arith, count-map p f xs)

  module _ (before : A → A → Bool) where
    unfoldable pub insert_by : A → List A → List A
    insert_by x [] = x ∷ []
    insert_by x (y ∷ ys) = if before x y then x ∷ y ∷ ys else y ∷ insert_by x ys

    unfoldable pub sort_by : List A → List A
    unfolding insert_by
    sort_by [] = []
    sort_by (x ∷ xs) = insert_by x (sort_by xs)

module _ {ℓ κ} {A : Type ℓ} (before : A → A → Bool) (P : A → Type κ) where
  pub All-insert_by : (x : A) (xs : List A) → P x → All P xs → All P (insert_by before x xs)
  unfolding insert_by
  All-insert_by x [] p h = (p, tt)
  All-insert_by x (y ∷ ys) p (q, h) = elim (Bool-cases (before x y)) [
    | inl first ↦ rw first (p, (q, h))
    | inr later ↦ rw later (q, All-insert_by x ys p h)
  ]

  pub All-sort_by : (xs : List A) → All P xs → All P (sort_by before xs)
  unfolding sort_by
  All-sort_by [] h = tt
  All-sort_by (x ∷ xs) (p, h) = All-insert_by x (sort_by before xs) p (All-sort_by xs h)
