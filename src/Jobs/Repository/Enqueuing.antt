-- ===== src/Jobs/Repository/Enqueuing.antt =====
-- What an enqueue adds to the table.
use egras.Prelude.{
  ℕ, String, Bool, ◌+◌, List, [], ◌∷◌, ◌++◌, count, count-append, ok, ◌≡◌, arith, if◌then◌else◌,
  contains, false, ◌||◌, ◌==◌, ℕ_eq, refl,
}
use egras.Json.{Value}
use egras.Jobs.Model.{Job, EnqueueRequest}
use egras.Jobs.Repository.{Query, enqueue_query, ids, new_job, enqueue}

-- The jobs whose kind and payload pass a test.
abbrev pub count_jobs : (String → Value → Bool) → List Job → ℕ
count_jobs p jobs = count (λ j. p j.kind j.payload) jobs

pub count_jobs-enqueue :
    (p : String → Value → Bool) (fails : Query → Bool) (id now i : ℕ) (req : EnqueueRequest)
    (rows rows' : List Job)
    → enqueue fails id now req rows ≡ ok (i, rows')
    → count_jobs p rows' ≡ count_jobs p rows + (if p req.kind req.payload then 1 else 0)
unfolding enqueue new_job
count_jobs-enqueue p fails id now i req rows rows' h =
    let added : rows' ≡ rows ++ new_job id now req ∷ [] = ground arith in
    rw added (ground (arith, count-append (λ j. p j.kind j.payload) rows (new_job id now req ∷ [])))

contains-append :
    (id k : ℕ) (rows : List Job) (j : Job)
    → j.id ≡ id
    → contains (ids (rows ++ j ∷ [])) k ≡ (contains (ids rows) k || id == k)
contains-append id k [] j e = ground (arith, e)
contains-append id k (r ∷ rows) j e = ground (arith, contains-append id k rows j e)

-- An enqueue under a fresh id succeeds when its query does, and takes that id.
pub enqueue_fresh :
    (fails : Query → Bool) (id now : ℕ) (req : EnqueueRequest) (rows : List Job)
    → fails enqueue_query ≡ false
    → contains (ids rows) id ≡ false
    → (rows' : List Job) × (enqueue fails id now req rows ≡ ok (id, rows'))
      × ((k : ℕ) → contains (ids rows') k ≡ (contains (ids rows) k || id == k))
unfolding enqueue new_job
enqueue_fresh fails id now req rows works fresh = (
  rows ++ new_job id now req ∷ [],
  ground (arith, works, fresh),
  λ k. contains-append id k rows (new_job id now req) refl,
)
