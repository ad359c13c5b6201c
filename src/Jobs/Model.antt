-- ===== src/Jobs/Model.antt =====
-- src/jobs/model.rs. An instant and a `Duration` are numbers of nanoseconds; the database keeps
-- microseconds, which is not modelled. `i32` is an integer, with its wrap written out.
pub mod Names
use egras.Prelude.{
  ℕ, zero, suc, String, Bool, true, false, ◌+◌, ◌-◌, ◌%◌, Option, none, some, leb, ◌==◌, String_eq,
  ℕ_eq, if◌then◌else◌, ◌≡◌, refl,
}
use egras.Json.{Value}

-- `negsuc n` is -(n + 1).
pub data ℤ : Type 0 where
  pos negsuc : ℕ → ℤ

unfoldable pub leb_ℤ : ℤ → ℤ → Bool
leb_ℤ (pos a) (pos b) = leb a b
leb_ℤ (pos a) (negsuc b) = false
leb_ℤ (negsuc a) (pos b) = true
leb_ℤ (negsuc a) (negsuc b) = leb b a

abbrev pub i32_max : ℤ
i32_max = pos 2_147_483_647

-- `a + 1` on `i32`, as a release build computes it.
unfoldable pub add_one : ℤ → ℤ
add_one (pos n) = if n == 2_147_483_647 then negsuc 2_147_483_647 else pos (n + 1)
add_one (negsuc zero) = pos 0
add_one (negsuc (suc n)) = negsuc n

-- `a as u32`
pub as_u32 : ℤ → ℕ
as_u32 (pos n) = n % 4_294_967_296
as_u32 (negsuc n) = 4_294_967_295 - n % 4_294_967_296

pub data JobState : Type 0 where
  pending running done dead : JobState

pub as_str : JobState → String
as_str pending = "pending"
as_str running = "running"
as_str done = "done"
as_str dead = "dead"

pub from_str : String → Option JobState
from_str s =
    if s == "pending"
    then some pending
    else if s == "running"
    then some running
    else if s == "done"
    then some done
    else if s == "dead"
    then some dead
    else none

-- The column `state` holds one of the four names (`jobs_state_check`), so a row is a `Job`.
pub record Job : Type 0 where
  pub id : ℕ
  pub kind : String
  pub payload : Value
  pub state : JobState
  pub attempts : ℤ
  pub max_attempts : ℤ
  pub run_at : ℕ
  pub locked_until : Option ℕ
  pub locked_by : Option String
  pub last_error : Option String
  pub created_at : ℕ
  pub updated_at : ℕ

pub record EnqueueRequest : Type 0 where
  pub kind : String
  pub payload : Value
  pub max_attempts : ℤ
  pub run_at : ℕ

-- `EnqueueRequest::now`; `now` is the clock.
unfoldable pub request_now : ℕ → String → Value → EnqueueRequest
request_now now kind payload = record {
  kind = kind;
  payload = payload;
  max_attempts = pos 5;
  run_at = now;
}

unfoldable pub with_max_attempts : EnqueueRequest → ℤ → EnqueueRequest
with_max_attempts req n = record req { max_attempts = n }

pub with_run_at : EnqueueRequest → ℕ → EnqueueRequest
with_run_at req when = record req { run_at = when }
