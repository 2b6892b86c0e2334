-- ===== src/Notification.antt =====
-- Which alerts may send an email now: src/data_platform/services/notification_policy.py. Python's
-- `int` and the time of day in a time zone are arguments: `none` is a ValueError and a
-- ZoneInfoNotFoundError.
pub mod QuietHours
mod Tests
use sicurre.Prelude.{
  ℕ, ◌+◌, ◌*◌, Bool, true, false, not, ◌&&◌, ◌||◌, Option, none, some, if◌then◌else◌, ltb, leb,
}
use sicurre.Prelude.Text.{Text, codes, or_else, split_at}

pub record AlertPreference : Type 0 where
  pub workspace_id : ℕ
  pub domain : Text
  pub email_enabled : Bool
  pub notify_phishing : Bool
  pub notify_domain_shield : Bool
  pub quiet_hours_enabled : Bool
  pub quiet_hours_start : Text
  pub quiet_hours_end : Text
  pub timezone : Text

pub data EventType : Type 0 where
  phishing domain_shield other : EventType

abbrev pub subscribed : EventType → AlertPreference → Bool
subscribed phishing p = p.notify_phishing
subscribed domain_shield p = p.notify_domain_shield
subscribed other p = true

unfoldable pub inside : ℕ → ℕ → ℕ → Bool
inside start end_ current =
    if leb start end_
    then leb start current && ltb current end_
    else leb start current || ltb current end_

abbrev or_utc : Option ℕ → Option ℕ → ℕ
or_utc (some m) _ = m
or_utc none (some m) = m
or_utc none none = 0

module _ (int : Text → Option ℕ) (minutes_in : Text → ℕ → Option ℕ) where
  unfoldable pub minutes : Option ℕ → Option ℕ → Option ℕ
  minutes (some h) (some m) = some (h * 60 + m)
  minutes _ _ = none

  unfoldable pub minute_of_day : Text → Option ℕ
  unfolding minutes
  minute_of_day value = elim (split_at 58 value) [
    | none ↦ none
    | some (hours, rest) ↦ minutes (int hours) (int rest)
  ]

  -- local_now.hour * 60 + local_now.minute
  unfoldable pub local_minute : Text → ℕ → ℕ
  local_minute zone now = or_utc (minutes_in zone now) (minutes_in (codes "UTC") now)

  abbrev outside_window : Option ℕ → Option ℕ → ℕ → Option Bool
  outside_window (some start) (some end_) current = some (not (inside start end_ current))
  outside_window _ _ _ = none

  unfoldable pub outside_quiet_hours : AlertPreference → ℕ → Option Bool
  unfolding minute_of_day local_minute
  outside_quiet_hours p now =
      outside_window (minute_of_day (or_else p.quiet_hours_start (codes "22:00")))
        (minute_of_day (or_else p.quiet_hours_end (codes "07:00")))
        (local_minute (or_else p.timezone (codes "Europe/Paris")) now)

  -- `none` is an exception.
  unfoldable pub notification_is_allowed : Option AlertPreference → ℕ → EventType → Option Bool
  unfolding outside_quiet_hours
  notification_is_allowed none now event = some true
  notification_is_allowed (some p) now event =
      if not p.email_enabled
      then some false
      else if not (subscribed event p)
      then some false
      else if not p.quiet_hours_enabled
      then some true
      else outside_quiet_hours p now
