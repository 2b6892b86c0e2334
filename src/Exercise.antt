-- ===== src/Exercise.antt =====
-- The manager of monitoring exercises: OperationalExerciseManager of
-- src/core/operational_exercises.py. A method holds the lock from its first read to its last write,
-- so each is one step; a time is a number of seconds. The audit log is left out.
pub mod Signals
mod Tests
use sicurre.Prelude.{
  ℕ, ◌+◌, Bool, true, false, not, ◌||◌, Option, none, some, List, [], ◌∷◌, ◌==◌, if◌then◌else◌, leb,
}
use sicurre.Prelude.Text.{Text}

-- EXERCISE_TYPES
pub data ExerciseType : Type 0 where
  api_unavailable high_latency elevated_5xx : ExerciseType

abbrev pub same_type : ExerciseType → ExerciseType → Bool
same_type api_unavailable api_unavailable = true
same_type high_latency high_latency = true
same_type elevated_5xx elevated_5xx = true
same_type _ _ = false

pub record OperationalExercise : Type 0 where
  pub id : ℕ
  pub exercise_type : ExerciseType
  pub initiated_by : Text
  pub started_at : ℕ
  pub expires_at : ℕ

-- The gauge and the counter of Prometheus are part of the state; the task is the id that it recovers.
pub record Manager : Type 0 where
  pub active : Option OperationalExercise
  pub signal : ExerciseType → Bool
  pub total : ExerciseType → ℕ
  pub recovery_task : Option ℕ

unfoldable pub idle : Manager
idle = record { active = none; signal = λ _. false; total = λ _. 0; recovery_task = none }

abbrev set_signal : ExerciseType → Bool → (ExerciseType → Bool) → ExerciseType → Bool
set_signal t b signal u = if same_type t u then b else signal u

abbrev counted : ExerciseType → (ExerciseType → ℕ) → ExerciseType → ℕ
counted t total u = if same_type t u then total u + 1 else total u

-- `_clear_locked` on the active exercise; its task is cancelled.
unfoldable pub clear : OperationalExercise → Manager → Manager
clear e m = record m {
  active = none;
  signal = set_signal e.exercise_type false m.signal;
  recovery_task = none;
}

unfoldable pub clear_if :
    (OperationalExercise → Bool) → Option OperationalExercise → Manager → Manager
unfolding clear
clear_if p none m = m
clear_if p (some e) m = if p e then clear e m else m

-- The active exercise, after an expired one is cleared.
unfoldable pub current : ℕ → Manager → Manager
unfolding clear_if
current now m = clear_if (λ e. leb e.expires_at now) m.active m

unfoldable pub recover : ℕ → Manager → Manager
unfolding clear_if
recover id m = clear_if (λ e. e.id == id) m.active m

unfoldable pub activate_exercise : OperationalExercise → Manager → Manager
activate_exercise e m = record m {
  active = some e;
  signal = set_signal e.exercise_type true m.signal;
  recovery_task = some e.id;
}

-- A ValueError for an unknown type, a RuntimeError if one is active.
pub data Started : Type 0 where
  unsupported already_active : Started
  started : OperationalExercise → Started

unfoldable pub start_exercise :
    OperationalExercise → Option OperationalExercise → Manager → Started × Manager
unfolding activate_exercise
start_exercise e (some _) m = (already_active, m)
start_exercise e none m =
    (started e, record (activate_exercise e m) { total = counted e.exercise_type m.total })

unfoldable pub start : ℕ → ℕ → Option ExerciseType → Text → ℕ → Manager → Started × Manager
unfolding start_exercise
start now id none initiated_by duration m = (unsupported, m)
start now id (some t) initiated_by duration m =
    start_exercise
      (record {
        id = id;
        exercise_type = t;
        initiated_by = initiated_by;
        started_at = now;
        expires_at = now + duration;
      })
      m.active m

unfoldable pub restore_exercise :
    OperationalExercise → Option OperationalExercise → Manager → Manager
unfolding activate_exercise
restore_exercise e (some _) m = m
restore_exercise e none m = activate_exercise e m

-- A row whose type is known; one that has expired is left.
unfoldable pub restore : ℕ → OperationalExercise → Manager → Manager
unfolding restore_exercise
restore now e m = if leb e.expires_at now then m else restore_exercise e m.active m

-- `_recover_after`, once the sleep is over
unfoldable pub fire : Option ℕ → Manager → Manager
unfolding recover
fire none m = m
fire (some id) m = recover id m

-- What can happen to the manager.
pub data Operation : Type 0 where
  look_up : ℕ → Operation
  begin : ℕ → ℕ → Option ExerciseType → Text → ℕ → Operation
  resume : ℕ → OperationalExercise → Operation
  stop : ℕ → Operation
  wake : Operation

unfoldable pub apply : Operation → Manager → Manager
unfolding current start restore recover fire
apply (look_up now) m = current now m
apply (begin now id t by duration) m = (start now id t by duration m).1
apply (resume now e) m = restore now e m
apply (stop id) m = recover id m
apply wake m = fire m.recovery_task m

unfoldable pub apply_all : List Operation → Manager → Manager
apply_all [] m = m
apply_all (o ∷ os) m = apply_all os (apply o m)
