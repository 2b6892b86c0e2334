-- ===== src/Exercise/Signals.antt =====
-- What holds of the manager of src/core/operational_exercises.py after any sequence of operations.
use sicurre.Prelude.{
  ℕ, ◌≡◌, refl, ◌∙◌, ap, Bool, true, false, Option, none, some, List, [], ◌∷◌, arith, if_both,
  if◌then◌else◌, ◌==◌, ==_refl, leb,
}
use sicurre.Prelude.Text.{Text}
use sicurre.Exercise.{
  ExerciseType, same_type, OperationalExercise, Manager, idle, clear, clear_if, current, recover,
  activate_exercise, start_exercise, start, restore_exercise, restore, fire, Operation, look_up,
  begin, resume, stop, wake, apply, apply_all,
}

-- The signal that an active exercise asks for.
abbrev pub expected_signal : Option OperationalExercise → ExerciseType → Bool
expected_signal none t = false
expected_signal (some e) t = same_type e.exercise_type t

-- The recovery that an active exercise has scheduled.
abbrev pub expected_task : Option OperationalExercise → Option ℕ
expected_task none = none
expected_task (some e) = some e.id

-- Exactly the active exercise's signal is on, and its recovery is scheduled.
pub record IsSound (m : Manager) : Type 0 where
  pub signals : (t : ExerciseType) → m.signal t ≡ expected_signal m.active t
  pub scheduled : m.recovery_task ≡ expected_task m.active

cleared-signal :
    (t u : ExerciseType) (b : Bool)
    → b ≡ same_type t u
    → (if same_type t u then false else b) ≡ false
cleared-signal t u b h = ground arith

set-signal :
    (t u : ExerciseType) (b : Bool)
    → b ≡ false
    → (if same_type t u then true else b) ≡ same_type t u
set-signal t u b h = ground arith

clear_if-IsSound :
    (p : OperationalExercise → Bool) (o : Option OperationalExercise) (m : Manager)
    → m.active ≡ o
    → IsSound m
    → IsSound (clear_if p o m)
unfolding clear_if clear
clear_if-IsSound p none m e s = s
clear_if-IsSound p (some x) m e s =
    if_both IsSound (p x)
      (record {
        signals = λ t.
            cleared-signal x.exercise_type t (m.signal t)
              (s.signals t ∙ ap (λ (o : Option OperationalExercise). expected_signal o t) e);
        scheduled = refl;
      })
      s

activate-IsSound :
    (x : OperationalExercise) (m : Manager)
    → m.active ≡ none
    → IsSound m
    → IsSound (activate_exercise x m)
unfolding activate_exercise
activate-IsSound x m e s = record {
  signals = λ t.
      set-signal x.exercise_type t (m.signal t)
        (s.signals t ∙ ap (λ (o : Option OperationalExercise). expected_signal o t) e);
  scheduled = refl;
}

start_exercise-IsSound :
    (x : OperationalExercise) (o : Option OperationalExercise) (m : Manager)
    → m.active ≡ o
    → IsSound m
    → IsSound (start_exercise x o m).1
unfolding start_exercise
start_exercise-IsSound x (some y) m e s = s
start_exercise-IsSound x none m e s =
    let a = activate-IsSound x m e s in record { signals = a.signals; scheduled = a.scheduled }

start-IsSound :
    (now id : ℕ) (t : Option ExerciseType) (by : Text) (duration : ℕ) (m : Manager)
    → IsSound m
    → IsSound (start now id t by duration m).1
unfolding start
start-IsSound now id none by duration m s = s
start-IsSound now id (some t) by duration m s = start_exercise-IsSound _ m.active m refl s

restore_exercise-IsSound :
    (x : OperationalExercise) (o : Option OperationalExercise) (m : Manager)
    → m.active ≡ o
    → IsSound m
    → IsSound (restore_exercise x o m)
unfolding restore_exercise
restore_exercise-IsSound x (some y) m e s = s
restore_exercise-IsSound x none m e s = activate-IsSound x m e s

fire-IsSound : (o : Option ℕ) (m : Manager) → IsSound m → IsSound (fire o m)
unfolding fire recover
fire-IsSound none m s = s
fire-IsSound (some id) m s = clear_if-IsSound (λ e. e.id == id) m.active m refl s

apply-IsSound : (o : Operation) (m : Manager) → IsSound m → IsSound (apply o m)
unfolding apply current restore recover
apply-IsSound (look_up now) m s = clear_if-IsSound (λ e. leb e.expires_at now) m.active m refl s
apply-IsSound (begin now id t by duration) m s = start-IsSound now id t by duration m s
apply-IsSound (resume now e) m s =
    if_both IsSound (leb e.expires_at now) s (restore_exercise-IsSound e m.active m refl s)
apply-IsSound (stop id) m s = clear_if-IsSound (λ e. e.id == id) m.active m refl s
apply-IsSound wake m s = fire-IsSound m.recovery_task m s

apply_all-IsSound : (os : List Operation) (m : Manager) → IsSound m → IsSound (apply_all os m)
unfolding apply_all
apply_all-IsSound [] m s = s
apply_all-IsSound (o ∷ os) m s = apply_all-IsSound os (apply o m) (apply-IsSound o m s)

idle-IsSound : IsSound idle
unfolding idle
idle-IsSound = record { signals = λ t. refl; scheduled = refl }

-- Whatever is started, restored, stopped, looked up or recovered by its task, in any order, the
-- signals that are on are exactly that of the active exercise, and an active exercise has its
-- recovery scheduled.
pub signals_track_exercise : (os : List Operation) → IsSound (apply_all os idle)
signals_track_exercise os = apply_all-IsSound os idle idle-IsSound

clear_if-active :
    (e : OperationalExercise) (m : Manager)
    → (clear_if (λ (x : OperationalExercise). x.id == e.id) (some e) m).active ≡ none
unfolding clear_if clear
clear_if-active e m = rw (==_refl e.id) refl

fire-active :
    (o : Option OperationalExercise) (m : Manager)
    → m.active ≡ o
    → (fire (expected_task o) m).active ≡ none
unfolding fire recover
fire-active none m h = h
fire-active (some e) m h =
    ap
      (λ (o : Option OperationalExercise).
        (clear_if (λ (x : OperationalExercise). x.id == e.id) o m).active)
      h
    ∙ clear_if-active e m

wake-active : (m : Manager) → IsSound m → (apply wake m).active ≡ none
unfolding apply
wake-active m s = ap (λ (o : Option ℕ). (fire o m).active) s.scheduled ∙ fire-active m.active m refl

-- After any operations, once the task of the active exercise wakes up no exercise is active and no
-- signal is on.
pub wake_ends_exercise :
    (os : List Operation)
    → let m = apply wake (apply_all os idle) in
      (m.active ≡ none) × ((t : ExerciseType) → m.signal t ≡ false)
wake_ends_exercise os =
    let m = apply_all os idle in
    let s = apply-IsSound wake m (signals_track_exercise os) in
    let gone = wake-active m (signals_track_exercise os) in
    (gone, λ t. s.signals t ∙ ap (λ (o : Option OperationalExercise). expected_signal o t) gone)
