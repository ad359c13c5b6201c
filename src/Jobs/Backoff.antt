-- ===== src/Jobs/Backoff.antt =====
-- `compute_backoff` of src/jobs/runner.rs, on 64-bit words that saturate.
pub mod Tests
use native.Mathlib.Decide.{dec_le}
use native.Mathlib.Nat.{pow-le-pow_right, mul-le-mul_left}
use egras.Prelude.{ℕ, zero, suc, ◌-◌, ◌*◌, ◌/◌, ◌^◌, ◌≤◌, ◌<◌, min, ltb, if◌then◌else◌, ◌≡◌, arith}

abbrev pub u64_max : ℕ
u64_max = 18_446_744_073_709_551_615

abbrev pub nanos : ℕ
nanos = 1_000_000_000

-- `factor.saturating_pow(exp)` and `a.saturating_mul(b)` on `u64`.
saturating_pow : ℕ → ℕ → ℕ
saturating_pow factor exp = min u64_max (factor ^ exp)

saturating_mul : ℕ → ℕ → ℕ
saturating_mul a b = min u64_max (a * b)

-- `attempt.saturating_sub(1)` is `attempt - 1`; `Duration::as_secs` drops what is below a second.
pub compute_backoff : ℕ → ℕ → ℕ → ℕ → ℕ
unfolding saturating_pow saturating_mul
compute_backoff attempt initial factor max =
    let secs = saturating_mul (initial / nanos) (saturating_pow factor (attempt - 1)) in
    let d = secs * nanos in if ltb max d then max else d

-- The arithmetic of it, over the seconds `s` and the power `p`.
saturation_unseen :
    (s p max : ℕ)
    → max ≤ u64_max * nanos
    → (if ltb max (min u64_max (s * min u64_max p) * nanos)
        then max
        else min u64_max (s * min u64_max p) * nanos)
      ≡ min max (s * p * nanos)
saturation_unseen zero p max h = ground arith
saturation_unseen (suc s) p max h = elim (dec_le p u64_max) [
  | yes small ↦ let same : min u64_max p ≡ p = omega arith in rw same (ground arith)
  | no large ↦ let top : min u64_max p ≡ u64_max = omega arith in rw top (ground arith)
]

-- The delay before the retry is the whole seconds of `initial`, times `factor ^ (attempt - 1)`,
-- capped by `max`. What `initial` has below a second is dropped first, so that an `initial` of less
-- than one second gives no delay at all, for every attempt. With a cap that 64 bits of seconds can
-- hold, neither of the two saturations is ever seen.
pub compute_backoff-eq-min :
    (attempt initial factor max : ℕ)
    → max ≤ u64_max * nanos
    → compute_backoff attempt initial factor max
      ≡ min max (initial / nanos * factor ^ (attempt - 1) * nanos)
unfolding compute_backoff
compute_backoff-eq-min attempt initial factor max h =
    saturation_unseen (initial / nanos) (factor ^ (attempt - 1)) max h

-- A later retry never waits for less time, and no retry waits for more than the cap, with a factor
-- that is not zero and a cap that 64 bits of seconds can hold.
pub compute_backoff_mono :
    (attempt later initial factor max : ℕ)
    → max ≤ u64_max * nanos
    → 0 < factor
    → attempt ≤ later
    → (compute_backoff attempt initial factor max ≤ compute_backoff later initial factor max)
      × (compute_backoff later initial factor max ≤ max)
compute_backoff_mono attempt later initial factor max h f le =
    let powers : factor ^ (attempt - 1) ≤ factor ^ (later - 1) = pow-le-pow_right f (omega arith) in
    let exact : initial / nanos * factor ^ (attempt - 1) ≤ initial / nanos * factor ^ (later - 1) =
      mul-le-mul_left (initial / nanos) powers in
    omega (
      arith,
      compute_backoff-eq-min attempt initial factor max h,
      compute_backoff-eq-min later initial factor max h,
      exact,
    )
