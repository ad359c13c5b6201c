-- ===== src/Prelude/Keys.antt =====
-- Lists of rows with a primary key.
use Prim.Native.Nat.{ℕ, zero, suc}
use mathlib.Core.Path.{◌≡◌, refl, sym, ◌∙◌}
use mathlib.Core.Logic.{◌≢◌, inl, inr}
use mathlib.Core.Bool.{Bool, true, false, ◌&&◌, ◌||◌, not}
use mathlib.Core.List.{List, [], ◌∷◌, ◌++◌, map}
use native.Mathlib.Omega.{arith}
use egras.Prelude.Tests.{if◌then◌else◌, Bool-cases, ◌==◌, ℕ_eq}
use egras.Prelude.Lists.{
  All, All-mono, All-filter, All-trivial, All-take, All-zip, take, filter, contains,
}
use egras.Prelude.Counting.{
  count, count_split, count_cong, count_none, insert_by, sort_by, All-sort_by, All-insert_by,
}

module _ {ℓ} {A : Type ℓ} (id_of : A → ℕ) where
  abbrev pub Lacking : ℕ → List A → Type 0
  Lacking k rows = All (λ r. id_of r ≢ k) rows

  -- No two rows have one key.
  abbrev pub Keyed : List A → Type 0
  Keyed [] = Unit
  Keyed (r ∷ rows) = Lacking (id_of r) rows × Keyed rows

  -- Exactly one row has the item's key, and it is the item.
  abbrev pub IsRow : List A → A → Type ℓ
  IsRow rows c =
      (p : A → Bool) → count (λ x. id_of x == id_of c && p x) rows ≡ (if p c then 1 else 0)

  pub Keyed-filter : (p : A → Bool) (rows : List A) → Keyed rows → Keyed (filter p rows)
  Keyed-filter p [] h = tt
  Keyed-filter p (r ∷ rows) (n, h) = elim (Bool-cases (p r)) [
    | inl kept ↦ rw kept (
      All-filter (λ q. id_of q ≢ id_of r) (λ q. id_of q ≢ id_of r) p rows (λ q m _. m) n,
      Keyed-filter p rows h,
    )
    | inr dropped ↦ rw dropped (Keyed-filter p rows h)
  ]

  Keyed-take : (n : ℕ) (rows : List A) → Keyed rows → Keyed (take n rows)
  Keyed-take zero rows h = tt
  Keyed-take (suc n) [] h = tt
  Keyed-take (suc n) (r ∷ rows) (m, h) =
      (All-take (λ q. id_of q ≢ id_of r) n rows m, Keyed-take n rows h)

  Keyed-insert_by :
      (before : A → A → Bool) (x : A) (rows : List A)
      → Lacking (id_of x) rows
      → Keyed rows
      → Keyed (insert_by before x rows)
  unfolding insert_by
  Keyed-insert_by before x [] m h = (tt, tt)
  Keyed-insert_by before x (r ∷ rows) (m, ms) (n, h) = elim (Bool-cases (before x r)) [
    | inl first ↦ rw first ((m, ms), (n, h))
    | inr later ↦ rw later (
      All-insert_by before (λ q. id_of q ≢ id_of r) x rows (λ e. m (sym e)) n,
      Keyed-insert_by before x rows ms h,
    )
  ]

  pub Keyed-sort_by :
      (before : A → A → Bool) (rows : List A) → Keyed rows → Keyed (sort_by before rows)
  unfolding sort_by
  Keyed-sort_by before [] h = tt
  Keyed-sort_by before (r ∷ rows) (m, h) =
      Keyed-insert_by before r (sort_by before rows)
        (All-sort_by before (λ q. id_of q ≢ id_of r) rows m) (Keyed-sort_by before rows h)

  -- `WHERE p ORDER BY … LIMIT n` of rows with a primary key has one.
  pub Keyed-selection :
      (before : A → A → Bool) (p : A → Bool) (n : ℕ) (rows : List A)
      → Keyed rows
      → Keyed (take n (sort_by before (filter p rows)))
  Keyed-selection before p n rows h =
      Keyed-take n (sort_by before (filter p rows))
        (Keyed-sort_by before (filter p rows) (Keyed-filter p rows h))

  Keyed-IsRow : (rows : List A) → Keyed rows → All (IsRow rows) rows
  Keyed-IsRow [] h = tt
  Keyed-IsRow (r ∷ rows) (n, h) = (
    λ p.
        let others =
          count_none (λ x. id_of x == id_of r && p x) rows
            (All-mono (λ q. id_of q ≢ id_of r) (λ q. (id_of q == id_of r && p q) ≡ false) rows
              (λ q m. ground arith) n) in
        ground (arith, others),
    All-mono (λ (c : A). (id_of c ≢ id_of r) × IsRow rows c) (IsRow (r ∷ rows)) rows
        (λ c m p. let row = m.1 p in let other = m.0 in ground (arith, row, other))
        (All-zip (λ c. id_of c ≢ id_of r) (IsRow rows) rows n (Keyed-IsRow rows h)),
  )

  -- The rows that a selection takes are rows of the table.
  pub selection-IsRow :
      (before : A → A → Bool) (p : A → Bool) (n : ℕ) (rows : List A)
      → Keyed rows
      → All (λ (c : A). IsRow rows c × (p c ≡ true)) (take n (sort_by before (filter p rows)))
  selection-IsRow before p n rows h =
      All-take (λ (c : A). IsRow rows c × (p c ≡ true)) n (sort_by before (filter p rows))
        (All-sort_by before (λ (c : A). IsRow rows c × (p c ≡ true)) (filter p rows)
          (All-filter (IsRow rows) (λ (c : A). IsRow rows c × (p c ≡ true)) p rows
            (λ c row passes. (row, passes)) (Keyed-IsRow rows h)))

  pub contains-of_Lacking :
      (k : ℕ) (rows : List A) → Lacking k rows → contains (map id_of rows) k ≡ false
  contains-of_Lacking k [] h = refl
  contains-of_Lacking k (r ∷ rows) (m, h) = ground (arith, contains-of_Lacking k rows h)

  -- Among the rows, those whose key is that of a chosen row are just the chosen ones.
  pub count_chosen :
      (p : A → Bool) (rows chosen : List A)
      → Keyed chosen
      → All (IsRow rows) chosen
      → count (λ x. contains (map id_of chosen) (id_of x) && p x) rows ≡ count p chosen
  count_chosen p rows [] h r = count_none (λ x. false && p x) rows (All-trivial _ rows (λ x. refl))
  count_chosen p rows (c ∷ chosen) (m, h) (row, r) =
      let all_chosen =
        λ (x : A). (id_of c == id_of x || contains (map id_of chosen) (id_of x)) && p x in
      let is_c = λ (x : A). id_of x == id_of c in
      let split = count_split is_c all_chosen rows in
      let first =
        count_cong (λ x. is_c x && all_chosen x) (λ x. is_c x && p x) rows
          (All-trivial _ rows (λ x. ground arith)) in
      let others =
        count_cong (λ x. not (is_c x) && all_chosen x)
          (λ x. contains (map id_of chosen) (id_of x) && p x) rows
          (All-trivial _ rows (λ x. elim (Bool-cases (is_c x)) [
            | inl same ↦
                let e : id_of x ≡ id_of c = ground arith in
                rw e (ground (arith, contains-of_Lacking (id_of c) chosen m))
            | inr other ↦ ground arith
          ])) in
      let rest = count_chosen p rows chosen h r in
      let here = row p in ground (arith, split, first, others, rest, here)

-- A row is added with a key that no row has, and rows are changed without a change of keys.
module _ {ℓ} {A : Type ℓ} (id_of : A → ℕ) where
  Lacking-append :
      (k : ℕ) (x : A) (rows : List A)
      → Lacking id_of k rows
      → id_of x ≢ k
      → Lacking id_of k (rows ++ x ∷ [])
  Lacking-append k x [] h n = (n, tt)
  Lacking-append k x (r ∷ rows) (m, h) n = (m, Lacking-append k x rows h n)

  pub Keyed-append :
      (x : A) (rows : List A)
      → Lacking id_of (id_of x) rows
      → Keyed id_of rows
      → Keyed id_of (rows ++ x ∷ [])
  Keyed-append x [] m h = (tt, tt)
  Keyed-append x (r ∷ rows) (n, m) (k, h) =
      (Lacking-append (id_of r) x rows k (λ e. n (sym e)), Keyed-append x rows m h)

  Lacking-map :
      (k : ℕ) (f : A → A) (rows : List A)
      → ((x : A) → id_of (f x) ≡ id_of x)
      → Lacking id_of k rows
      → Lacking id_of k (map f rows)
  Lacking-map k f [] same h = tt
  Lacking-map k f (r ∷ rows) same (m, h) = (λ e. m (sym (same r) ∙ e), Lacking-map k f rows same h)

  pub Keyed-map :
      (f : A → A) (rows : List A)
      → ((x : A) → id_of (f x) ≡ id_of x)
      → Keyed id_of rows
      → Keyed id_of (map f rows)
  Keyed-map f [] same h = tt
  Keyed-map f (r ∷ rows) same (n, h) =
      (rw (same r) (Lacking-map (id_of r) f rows same n), Keyed-map f rows same h)
