-- ===== src/Jobs/Model/Names.antt =====
-- The names of job states, as they stand in the database.
use egras.Prelude.{String, ◌≡◌, ◌↔◌, refl, some, arith, beq_iff, String_eq}
use egras.Jobs.Model.{JobState, pending, running, done, dead, as_str, from_str}

from_str-as_str : (s : JobState) → from_str (as_str s) ≡ some s
unfolding from_str as_str
from_str-as_str pending = refl
from_str-as_str running = refl
from_str-as_str done = refl
from_str-as_str dead = refl

as_str-from_str : (s : String) (t : JobState) → from_str s ≡ some t → s ≡ as_str t
unfolding from_str as_str
as_str-from_str s t h =
    ground (arith, beq_iff s "pending", beq_iff s "running", beq_iff s "done", beq_iff s "dead")

-- A name is read as a job's state exactly when it is the name that the state is written under.
pub from_str_iff : (s : String) (t : JobState) → (from_str s ≡ some t) ↔ (s ≡ as_str t)
from_str_iff s t = (as_str-from_str s t, λ same. rw same (from_str-as_str t))
