-- ===== src/Audit/Worker/Retries.antt =====
-- The attempts of the retry loop and its delays.
use native.Mathlib.Nat.{mul_assoc}
use egras.Prelude.{
  ℕ, zero, suc, Bool, true, false, ◌+◌, ◌*◌, ◌%◌, ◌^◌, ◌≤◌, ◌<◌, min, some, List, [], ◌∷◌, ◌≡◌, ◌⊎◌,
  arith, Bool-cases, inl, inr,
}
use egras.Audit.Model.{AuditEvent}
use egras.Audit.Worker.{AuditWorker, u64_max, retry, write_with_retry}

-- `n` delays from the attempt `a` on: four times as long each time, within 64 bits.
abbrev pub delays : ℕ → ℕ → ℕ → List ℕ
delays initial a zero = []
delays initial a (suc n) = min u64_max (initial * 4 ^ a) ∷ delays initial (suc a) n

next_delay :
    (initial a : ℕ)
    → min u64_max (min u64_max (initial * 4 ^ a) * 4) ≡ min u64_max (initial * 4 ^ suc a)
next_delay initial a =
    let power : 4 ^ suc a ≡ 4 ^ a * 4 = omega arith in
    rw power (omega (arith, mul_assoc initial (4 ^ a) 4))

retry_lem :
    (insert : ℕ → Bool) (max_retries initial n a k fuel : ℕ)
    → max_retries < 4_294_967_295
    → a + k ≡ n
    → n ≤ max_retries
    → k < fuel
    → ((i : ℕ) → i < n → insert i ≡ false)
    → (insert n ≡ true) ⊎ (n ≡ max_retries)
    → retry insert max_retries fuel a (min u64_max (initial * 4 ^ a))
      ≡ some (record { written = insert n; sleeps = delays initial a k })
unfolding retry
retry_lem insert max_retries initial n a k zero small at le enough fails ends =
    absurd (omega (arith, enough))
retry_lem insert max_retries initial n a zero (suc fuel) small at le enough fails ends =
    let here : a ≡ n = omega (arith, at) in
    elim (Bool-cases (insert n)) [
      | inl hit ↦ rw here (ground (arith, hit))
      | inr miss ↦ rw here (ground (arith, miss, ends))
    ]
retry_lem insert max_retries initial n a (suc k) (suc fuel) small at le enough fails ends =
    let here = fails a (omega (arith, at)) in
    let rest =
      retry_lem insert max_retries initial n (suc a) k fuel small (omega (arith, at)) le
        (omega (arith, enough)) fails ends in
    let delay = next_delay initial a in
    let next : (a + 1) % 4_294_967_296 ≡ suc a = omega (arith, small, at, le) in
    rw (next, delay) (ground (arith, here, rest, small, at, le))

-- With fuel for one attempt more than the retries allowed, the loop ends at the first insert that goes
-- through, or at the last retry: at the attempt `n` that all earlier ones failed before, it answers
-- whether `n` went through, after `n` delays, each four times as long as the one before it, within 64
-- bits; for a number of retries below the greatest `u32`.
pub write_with_retry_lem :
    (worker : AuditWorker) (insert : AuditEvent → ℕ → Bool) (event : AuditEvent) (n : ℕ)
    → worker.max_retries < 4_294_967_295
    → worker.backoff_initial_ms ≤ u64_max
    → n ≤ worker.max_retries
    → ((i : ℕ) → i < n → insert event i ≡ false)
    → (insert event n ≡ true) ⊎ (n ≡ worker.max_retries)
    → write_with_retry worker insert (suc worker.max_retries) event
      ≡ some (record { written = insert event n; sleeps = delays worker.backoff_initial_ms 0 n })
unfolding write_with_retry
write_with_retry_lem worker insert event n small range le fails ends =
    let initial : min u64_max (worker.backoff_initial_ms * 4 ^ 0) ≡ worker.backoff_initial_ms =
      omega (arith, range) in
    let run =
      retry_lem (insert event) worker.max_retries worker.backoff_initial_ms n 0 n
        (suc worker.max_retries) small (omega arith) le (omega (arith, le)) fails ends in
    ground (arith, run, initial)
