-- ===== src/Notification/Tests.antt =====
-- Inputs that exercise the theorems of src/data_platform/services/notification_policy.py.
use sicurre.Prelude.{ℕ, ◌+◌, ◌-◌, ◌%◌, ◌≡◌, true, false, Option, some, arith, ltb}
use sicurre.Prelude.Text.{Text, codes}
use sicurre.Notification.{AlertPreference, inside}
use sicurre.Notification.QuietHours.{quiet_hours_circular}

-- 23:00, between 22:00 and 07:00
quiet_hours_circular_example :
    inside 1320 420 1380 ≡ ltb ((1380 + 1440 - 1320) % 1440) ((420 + 1440 - 1320) % 1440)
quiet_hours_circular_example =
    quiet_hours_circular 1320 420 1380 (omega arith) (omega arith) (omega arith)

abbrev preference : AlertPreference
preference = record {
  workspace_id = 1;
  domain = codes "vinse.app";
  email_enabled = true;
  notify_phishing = true;
  notify_domain_shield = false;
  quiet_hours_enabled = true;
  quiet_hours_start = codes "22:00";
  quiet_hours_end = codes "07:00";
  timezone = codes "UTC";
}

abbrev number : Text → Option ℕ
number _ = some 7
