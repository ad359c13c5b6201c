-- ===== src/Jobs/Repository/Order.antt =====
-- The subquery of `claim_due`: what holds of every row that passes the filter holds of the chosen.
use egras.Prelude.{
  ℕ, String, Bool, false, ◌&&◌, not, List, [], ◌∷◌, All, All-take, filter, contains, leb, ◌≡◌, ◌≢◌,
  ℕ_eq, arith, refl, Bool-cases, inl, inr,
}
use egras.Jobs.Model.{Job}
use egras.Jobs.Repository.{ids, is_due, insert_by_run_at, order_by_run_at, due}

module _ {ℓ} (P : Job → Type ℓ) where
  All-insert_by_run_at :
      (j : Job) (jobs : List Job) → P j → All P jobs → All P (insert_by_run_at j jobs)
  unfolding insert_by_run_at
  All-insert_by_run_at j [] p h = (p, tt)
  All-insert_by_run_at j (k ∷ jobs) p (q, h) = elim (Bool-cases (leb j.run_at k.run_at)) [
    | inl first ↦ rw first (p, (q, h))
    | inr later ↦ rw later (q, All-insert_by_run_at j jobs p h)
  ]

  pub All-order_by_run_at : (jobs : List Job) → All P jobs → All P (order_by_run_at jobs)
  unfolding order_by_run_at
  All-order_by_run_at [] h = tt
  All-order_by_run_at (j ∷ jobs) (p, h) =
      All-insert_by_run_at j (order_by_run_at jobs) p (All-order_by_run_at jobs h)

  -- What holds of the rows that are due holds of those that are chosen.
  pub All-due :
      (locked : ℕ → Bool) (kinds : List String) (now limit : ℕ) (rows : List Job)
      → All P (filter (λ j. is_due kinds now j && not (locked j.id)) rows)
      → All P (due locked kinds now limit rows)
  unfolding due
  All-due locked kinds now limit rows h =
      All-take P limit
        (order_by_run_at (filter (λ j. is_due kinds now j && not (locked j.id)) rows))
        (All-order_by_run_at (filter (λ j. is_due kinds now j && not (locked j.id)) rows) h)

-- No row of the list has the id.
abbrev pub Misses : ℕ → List Job → Type 0
Misses id rows = All (λ (r : Job). r.id ≢ id) rows

pub contains-ids_of_Misses :
    (id : ℕ) (rows : List Job) → Misses id rows → contains (ids rows) id ≡ false
contains-ids_of_Misses id [] h = refl
contains-ids_of_Misses id (r ∷ rows) (p, h) = ground (arith, contains-ids_of_Misses id rows h)
