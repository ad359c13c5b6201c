-- ===== src/Jobs/Repository/Snapshots.antt =====
-- The jobs of a batch are the rows of the table, and stay so until their own outcome is recorded.
use mathlib.Core.Bool.{and-eq-true_iff}
use egras.Prelude.{
  true, false, ◌&&◌, not, All-each, ℕ, Bool, List, [], ◌∷◌, All, All-mono, All-filter, filter,
  contains, ok, ◌≡◌, ◌≢◌, refl, sym, arith, Bool-cases, inl, inr, ◌==◌, ℕ_eq,
}
use egras.Jobs.Model.{Job}
use egras.Jobs.Repository.{claimed, claim_rows, update_rows, is_due, due, ids}
use egras.Jobs.Repository.Order.{Misses, All-due}
use egras.Jobs.Repository.Claiming.{ClaimCall, claim, chosen, after, claim-ok}

-- The primary key.
abbrev pub Distinct : List Job → Type 0
Distinct [] = Unit
Distinct (r ∷ rows) = Misses r.id rows × Distinct rows

-- Every row with the job's id is the job.
abbrev pub Snapshot : List Job → Job → Type 0
Snapshot rows j = All (λ (r : Job). r.id ≡ j.id → r ≡ j) rows

Misses-update_rows :
    (id k : ℕ) (f : Job → Job) (rows : List Job)
    → ((r : Job) → (f r).id ≡ r.id)
    → Misses k rows
    → Misses k (update_rows id f rows)
unfolding update_rows
Misses-update_rows id k f [] same h = tt
Misses-update_rows id k f (r ∷ rows) same (p, h) = (
  elim (Bool-cases (r.id == id)) [
    | inl hit ↦ rw hit (ground (arith, same r))
    | inr miss ↦ rw miss p
  ],
  Misses-update_rows id k f rows same h,
)

pub Distinct-update_rows :
    (id : ℕ) (f : Job → Job) (rows : List Job)
    → ((r : Job) → (f r).id ≡ r.id)
    → Distinct rows
    → Distinct (update_rows id f rows)
unfolding update_rows
Distinct-update_rows id f [] same h = tt
Distinct-update_rows id f (r ∷ rows) same (p, h) = (
  elim (Bool-cases (r.id == id)) [
    | inl hit ↦ rw (hit, same r) (Misses-update_rows id r.id f rows same p)
    | inr miss ↦ rw miss (Misses-update_rows id r.id f rows same p)
  ],
  Distinct-update_rows id f rows same h,
)

-- An update of other rows leaves a snapshot true.
pub Snapshot-update_rows :
    (id : ℕ) (f : Job → Job) (rows : List Job) (j : Job)
    → ((r : Job) → (f r).id ≡ r.id)
    → id ≢ j.id
    → Snapshot rows j
    → Snapshot (update_rows id f rows) j
unfolding update_rows
Snapshot-update_rows id f [] j same other h = tt
Snapshot-update_rows id f (r ∷ rows) j same other (p, h) = (
  elim (Bool-cases (r.id == id)) [
    | inl hit ↦ rw hit (λ e. absurd (ground (arith, same r)))
    | inr miss ↦ rw miss p
  ],
  Snapshot-update_rows id f rows j same other h,
)

Misses-filter :
    (p : Job → Bool) (k : ℕ) (rows : List Job) → Misses k rows → Misses k (filter p rows)
Misses-filter p k rows h = All-filter (λ r. r.id ≢ k) (λ r. r.id ≢ k) p rows (λ r q _. q) h

Distinct-filter : (p : Job → Bool) (rows : List Job) → Distinct rows → Distinct (filter p rows)
Distinct-filter p [] h = tt
Distinct-filter p (r ∷ rows) (q, h) = elim (Bool-cases (p r)) [
  | inl hit ↦ rw hit (Misses-filter p r.id rows q, Distinct-filter p rows h)
  | inr miss ↦ rw miss (Distinct-filter p rows h)
]

Misses-claim_rows :
    (c : ClaimCall) (ids : List ℕ) (k : ℕ) (rows : List Job)
    → Misses k rows
    → Misses k (claim_rows c.worker_id c.visibility c.now ids rows)
unfolding claim_rows claimed
Misses-claim_rows c ids k [] h = tt
Misses-claim_rows c ids k (r ∷ rows) (p, h) = (
  elim (Bool-cases (contains ids r.id)) [ inl hit ↦ rw hit p | inr miss ↦ rw miss p ],
  Misses-claim_rows c ids k rows h,
)

pub Distinct-claim_rows :
    (c : ClaimCall) (ids : List ℕ) (rows : List Job)
    → Distinct rows
    → Distinct (claim_rows c.worker_id c.visibility c.now ids rows)
unfolding claim_rows claimed
Distinct-claim_rows c ids [] h = tt
Distinct-claim_rows c ids (r ∷ rows) (p, h) = (
  elim (Bool-cases (contains ids r.id)) [
    | inl hit ↦ rw hit (Misses-claim_rows c ids r.id rows p)
    | inr miss ↦ rw miss (Misses-claim_rows c ids r.id rows p)
  ],
  Distinct-claim_rows c ids rows h,
)

Distinct-Snapshot : (rows : List Job) → Distinct rows → All (Snapshot rows) rows
Distinct-Snapshot [] h = tt
Distinct-Snapshot (r ∷ rows) (p, h) = (
  (
    λ e. refl,
    All-mono (λ (q : Job). q.id ≢ r.id) (λ q. q.id ≡ r.id → q ≡ r) rows (λ q n e. absurd (n e)) p,
  ),
  both rows p (Distinct-Snapshot rows h),
)
  where
    both : (js : List Job) → Misses r.id js → All (Snapshot rows) js → All (Snapshot (r ∷ rows)) js
    both [] m s = tt
    both (j ∷ js) (n, m) (s, t) = ((λ e. absurd (n (sym e)), s), both js m t)

-- A batch that a claim returns: no job twice, each the only row of its id, and the ids of the table
-- still distinct.
pub claim-Snapshot :
    (c : ClaimCall) (rows jobs rows' : List Job)
    → Distinct rows
    → claim c rows ≡ ok (jobs, rows')
    → Distinct jobs × All (Snapshot rows') jobs × Distinct rows'
claim-Snapshot c rows jobs rows' h e = elim (claim-ok c rows jobs rows' e) [
  | inl (no_jobs, same) ↦ rw (no_jobs, same) (tt, tt, h)
  | inr (some_jobs, changed) ↦
      let distinct = Distinct-claim_rows c (chosen c rows) rows h in
      rw (some_jobs, changed)
        (
          Distinct-filter (λ j. contains (chosen c rows) j.id) (after c rows) distinct,
          All-filter (Snapshot (after c rows)) (Snapshot (after c rows))
              (λ j. contains (chosen c rows) j.id) (after c rows) (λ j s _. s)
              (Distinct-Snapshot (after c rows) distinct),
          distinct,
        )
]

-- The rows that a claim chooses were due: of one of its kinds, and pending or with an expired lock.
pub chosen-is_due :
    (c : ClaimCall) (rows : List Job)
    → Distinct rows
    → All (λ (r : Job). contains (chosen c rows) r.id ≡ true → is_due c.kinds c.now r ≡ true) rows
chosen-is_due c rows h =
    All-mono (λ (r : Job). (Q : Job → Type 0) → All Q rows → Q r)
      (λ r. contains (chosen c rows) r.id ≡ true → is_due c.kinds c.now r ≡ true) rows
      (λ r each hit.
        let (d, same_id, due_d, snap) =
          found (due c.locked c.kinds c.now c.limit rows) r.id eligible hit in
        rw (each (λ q. q.id ≡ d.id → q ≡ d) snap (sym same_id)) due_d)
      (All-each rows)
  where
    eligible :
        All
          (λ (d : Job). (is_due c.kinds c.now d ≡ true) × Snapshot rows d)
          (due c.locked c.kinds c.now c.limit rows)
    eligible =
        All-due (λ d. (is_due c.kinds c.now d ≡ true) × Snapshot rows d) c.locked c.kinds c.now
          c.limit rows
          (All-filter (Snapshot rows) (λ d. (is_due c.kinds c.now d ≡ true) × Snapshot rows d)
            (λ j. is_due c.kinds c.now j && not (c.locked j.id)) rows
            (λ j s passes. (((and-eq-true_iff _ _).0 passes).0, s)) (Distinct-Snapshot rows h))

    found :
        (ds : List Job) (id : ℕ)
        → All (λ (d : Job). (is_due c.kinds c.now d ≡ true) × Snapshot rows d) ds
        → contains (ids ds) id ≡ true
        → (d : Job) × (d.id ≡ id) × (is_due c.kinds c.now d ≡ true) × Snapshot rows d
    found [] id a hit = cc
    found (d ∷ ds) id ((p, s), a) hit = elim (Bool-cases (d.id == id)) [
      | inl here ↦ (d, ground arith, p, s)
      | inr there ↦ found ds id a (ground arith)
    ]

-- What an update makes of the rows with its id, and what it leaves of the others.
pub All-update_rows {ℓ κ} :
    (P : Job → Type ℓ) (Q : Job → Type κ) (id : ℕ) (f : Job → Job) (rows : List Job)
    → ((r : Job) → P r → r.id ≡ id → Q (f r))
    → ((r : Job) → P r → r.id ≢ id → Q r)
    → All P rows
    → All Q (update_rows id f rows)
unfolding update_rows
All-update_rows P Q id f [] hit miss h = tt
All-update_rows P Q id f (r ∷ rows) hit miss (p, h) = (
  elim (Bool-cases (r.id == id)) [
    | inl same ↦ rw same (hit r p (ground arith))
    | inr other ↦ rw other (miss r p (λ e. ground arith))
  ],
  All-update_rows P Q id f rows hit miss h,
)

pub All-claim_rows {ℓ κ} :
    (P : Job → Type ℓ) (Q : Job → Type κ) (c : ClaimCall) (ids : List ℕ) (rows : List Job)
    → ((r : Job) → P r → contains ids r.id ≡ true → Q (claimed c.worker_id c.visibility c.now r))
    → ((r : Job) → P r → contains ids r.id ≡ false → Q r)
    → All P rows
    → All Q (claim_rows c.worker_id c.visibility c.now ids rows)
unfolding claim_rows
All-claim_rows P Q c ids [] hit miss h = tt
All-claim_rows P Q c ids (r ∷ rows) hit miss (p, h) = (
  elim (Bool-cases (contains ids r.id)) [
    | inl taken ↦ rw taken (hit r p taken)
    | inr left ↦ rw left (miss r p left)
  ],
  All-claim_rows P Q c ids rows hit miss h,
)
