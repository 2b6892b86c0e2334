-- ===== src/Database.antt =====
-- The application's tables (src/db/models/app_runtime.py), as far as the parts below use them.
-- Identifiers and hashes are opaque and only compared, so they are numbers; so are instants.
use sicurre.Prelude.{ℕ, Bool, true, false, ◌&&◌, Option, List, ◌==◌, if◌then◌else◌}
use sicurre.Prelude.Text.{Text, lower, strip, is_empty, same_name}
use sicurre.Prelude.Http.{Reply, ok, reject}
use sicurre.Prelude.Lists.{any}
use sicurre.Quarantine.Item.{QuarantineItem}
use sicurre.Scan.Journal.{InferenceEvent, Alert}
use sicurre.Notification.{AlertPreference}

pub data IntegrationStatus : Type 0 where
  provisioning pending_verification active error : IntegrationStatus

pub record Integration : Type 0 where
  pub id : ℕ
  pub user_email : Text
  pub workspace_id : ℕ
  pub zone_id : Text
  pub zone_name : Text
  pub account_id : Text
  pub worker_name : Text
  pub rule_id : Text
  pub destination_email : Text
  pub api_token : Option Text
  pub shared_secret_hash : ℕ
  pub status : IntegrationStatus
  pub error_message : Option Text
  pub created_at : ℕ
  pub updated_at : ℕ

pub data RuleType : Type 0 where
  whitelist blocklist : RuleType

pub record SecurityRule : Type 0 where
  pub id : ℕ
  pub workspace_id : ℕ
  pub domain : Text
  pub rule_type : RuleType
  pub pattern : Text
  pub created_at : ℕ

pub record Feedback : Type 0 where
  pub id : ℕ
  pub workspace_id : ℕ
  pub member : ℕ
  pub event_id : ℕ
  pub original_verdict : Text
  pub created_at : ℕ

pub record AuthUser : Type 0 where
  pub id : ℕ
  pub workspace_id : ℕ

pub record Db : Type 0 where
  pub integrations : List Integration
  pub quarantine : List QuarantineItem
  pub security_rules : List SecurityRule
  pub feedback : List Feedback
  pub events : List InferenceEvent
  pub alerts : List Alert
  pub preferences : List AlertPreference

-- WHERE workspace_id = ? AND lower(zone_name) = lower(?)
abbrev pub connects : ℕ → Text → Integration → Bool
connects workspace zone r = r.workspace_id == workspace && same_name r.zone_name zone

abbrev pub is_active : IntegrationStatus → Bool
is_active active = true
is_active _ = false

-- `require_workspace_domain` and `owned_domain` of src/data_platform/api/workspace_scope.py
unfoldable pub require_workspace_domain : Db → Text → ℕ → Reply Text
require_workspace_domain db domain workspace =
    if any (connects workspace domain) db.integrations
    then ok domain
    else reject 404 "Connected domain not found"

unfoldable pub owned_domain : Db → Text → AuthUser → Reply Text
unfolding require_workspace_domain
owned_domain db domain user =
    let normalized = lower (strip domain) in
    if is_empty normalized
    then reject 400 "Domain is required"
    else require_workspace_domain db normalized user.workspace_id
