-- ===== src/Notification/QuietHours.antt =====
-- What the notification policy of src/data_platform/services/notification_policy.py promises.
use sicurre.Prelude.{ℕ, ◌+◌, ◌-◌, ◌%◌, ◌<◌, ◌≡◌, true, Option, some, arith, ltb}
use sicurre.Prelude.Text.{Text}
use sicurre.Notification.{AlertPreference, EventType, subscribed, inside, notification_is_allowed}

-- Minutes of the day in the quiet hours are those that the clock reaches from their start before it
-- reaches their end, whether or not they pass midnight.
pub quiet_hours_circular :
    (start end_ current : ℕ)
    → start < 1440
    → end_ < 1440
    → current < 1440
    → inside start end_ current
      ≡ ltb ((current + 1440 - start) % 1440) ((end_ + 1440 - start) % 1440)
unfolding inside
quiet_hours_circular start end_ current a b c = ground arith

-- An email that the policy allows is one that the workspace turned on, for that kind of event.
pub allowed_is_subscribed :
    (int : Text → Option ℕ) (minutes_in : Text → ℕ → Option ℕ)
    → (p : AlertPreference) (now : ℕ) (event : EventType)
    → notification_is_allowed int minutes_in (some p) now event ≡ some true
    → (p.email_enabled ≡ true) × (subscribed event p ≡ true)
unfolding notification_is_allowed
allowed_is_subscribed int minutes_in p now event h = ground arith
