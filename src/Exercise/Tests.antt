-- ===== src/Exercise/Tests.antt =====
-- Inputs that exercise the theorems of src/core/operational_exercises.py.
use sicurre.Prelude.{◌≡◌, refl, false, some, List, [], ◌∷◌}
use sicurre.Prelude.Text.{codes}
use sicurre.Exercise.{
  api_unavailable, high_latency, idle, Operation, begin, look_up, apply, apply_all, start,
  start_exercise, activate_exercise, current, clear_if,
}
use sicurre.Exercise.Signals.{IsSound, signals_track_exercise}

abbrev operations : List Operation
operations =
    begin 10 1 (some high_latency) (codes "admin") 60
    ∷ begin 20 2 (some api_unavailable) (codes "admin") 60
    ∷ look_up 30
    ∷ []

signals_track_exercise_example : IsSound (apply_all operations idle)
signals_track_exercise_example = signals_track_exercise operations

-- The second start is refused, and its signal stays off.
second_refused : (apply_all operations idle).signal api_unavailable ≡ false
unfolding apply_all apply start start_exercise current clear_if activate_exercise idle
second_refused = refl
