-- ===== src/Alerts.antt =====
-- Notification preferences, sender rules and the alert history of a domain:
-- src/data_platform/api/routers/alerts.py. The identifiers and instants of a request are arguments,
-- and its fields have passed the validation of their types.
pub mod History
pub mod Preferences
pub mod Reading
mod Tests
use sicurre.Prelude.{
  ℕ, Bool, true, false, not, ◌&&◌, Option, none, some, List, [], ◌∷◌, ◌++◌, ◌==◌, if◌then◌else◌,
  ltb,
}
use sicurre.Prelude.Lists.{any, find}
use sicurre.Prelude.Table.{select, update, delete}
use sicurre.Prelude.Text.{Text, codes, text_eq, same_name, or_else}
use sicurre.Prelude.Http.{Reply, ok, raised, reject, proceed}
use sicurre.Database.{Db, AuthUser, SecurityRule, RuleType, owned_domain}
use sicurre.Scan.Journal.{Alert}
use sicurre.Notification.{AlertPreference}

-- The answer that only tells the status.
abbrev pub StatusResponse : Type 0
StatusResponse = Unit

-- app_alert_read
pub record AlertRead : Type 0 where
  pub workspace_id : ℕ
  pub domain : Text
  pub auth_user_id : ℕ
  pub alert_id : ℕ
  pub read_at : ℕ

pub record Inbox : Type 0 where
  pub db : Db
  pub reads : List AlertRead

abbrev pub set_preferences : (List AlertPreference → List AlertPreference) → Inbox → Inbox
set_preferences f w = record w { db = record w.db { preferences = f w.db.preferences } }

abbrev pub preference_of : ℕ → Text → AlertPreference → Bool
preference_of workspace domain r = r.workspace_id == workspace && same_name r.domain domain

abbrev pub same_key : ℕ → Text → AlertPreference → Bool
same_key workspace domain r = r.workspace_id == workspace && text_eq r.domain domain

unfoldable pub default_preference : ℕ → Text → AlertPreference
default_preference workspace domain = record {
  workspace_id = workspace;
  domain = domain;
  email_enabled = true;
  notify_phishing = true;
  notify_domain_shield = true;
  quiet_hours_enabled = false;
  quiet_hours_start = codes "22:00";
  quiet_hours_end = codes "07:00";
  timezone = codes "Europe/Paris";
}

unfoldable pub shown_preference : Text → AlertPreference → AlertPreference
shown_preference domain r = record r {
  domain = domain;
  timezone = or_else r.timezone (codes "Europe/Paris");
}

unfoldable pub preference_or_default :
    ℕ → Text → Option AlertPreference → Inbox → Reply AlertPreference × Inbox
unfolding default_preference shown_preference
preference_or_default workspace domain (some r) w = (ok (shown_preference domain r), w)
preference_or_default workspace domain none w = (
  ok (shown_preference domain (default_preference workspace domain)),
  set_preferences (λ rows. rows ++ (default_preference workspace domain ∷ [])) w,
)

unfoldable pub get_alert_preferences : Text → AuthUser → Inbox → Reply AlertPreference × Inbox
unfolding preference_or_default
get_alert_preferences domain user w =
    proceed (owned_domain w.db domain user, w)
      (λ active v.
        preference_or_default user.workspace_id active
          (find (preference_of user.workspace_id active) v.db.preferences) v)

-- INSERT ... ON CONFLICT(workspace_id, domain) DO UPDATE SET ...
unfoldable pub upsert_preference : AlertPreference → List AlertPreference → List AlertPreference
upsert_preference p rows =
    if any (same_key p.workspace_id p.domain) rows
    then update (same_key p.workspace_id p.domain) (λ _. p) rows
    else rows ++ (p ∷ [])

-- The row that a payload stands for, on this workspace and domain.
abbrev pub stored_preference : AlertPreference → ℕ → Text → AlertPreference
stored_preference payload workspace domain = record payload {
  workspace_id = workspace;
  domain = domain;
}

unfoldable pub update_alert_preferences :
    AlertPreference → Text → AuthUser → Inbox → Reply StatusResponse × Inbox
unfolding upsert_preference
update_alert_preferences payload domain user w =
    proceed (owned_domain w.db domain user, w)
      (λ active v. (
        ok tt,
        set_preferences (upsert_preference (stored_preference payload user.workspace_id active)) v,
      ))

abbrev pub rule_in : ℕ → Text → SecurityRule → Bool
rule_in workspace domain r = r.workspace_id == workspace && same_name r.domain domain

abbrev pub rule_at : ℕ → ℕ → Text → SecurityRule → Bool
rule_at id workspace domain r = r.id == id && rule_in workspace domain r

abbrev pub set_rules : (List SecurityRule → List SecurityRule) → Inbox → Inbox
set_rules f w = record w { db = record w.db { security_rules = f w.db.security_rules } }

-- ORDER BY created_at DESC
insert_rule : SecurityRule → List SecurityRule → List SecurityRule
insert_rule r [] = r ∷ []
insert_rule r (q ∷ qs) =
    let later = q ∷ insert_rule r qs in if ltb r.created_at q.created_at then later else r ∷ q ∷ qs

unfoldable pub newest_rules : List SecurityRule → List SecurityRule
unfolding insert_rule
newest_rules [] = []
newest_rules (r ∷ rs) = insert_rule r (newest_rules rs)

-- The answer names the domain that was asked for.
unfoldable pub shown_rules : Text → List SecurityRule → List SecurityRule
shown_rules domain [] = []
shown_rules domain (r ∷ rs) = record r { domain = domain } ∷ shown_rules domain rs

unfoldable pub list_security_rules : Text → AuthUser → Inbox → Reply (List SecurityRule) × Inbox
unfolding newest_rules shown_rules
list_security_rules domain user w =
    proceed (owned_domain w.db domain user, w)
      (λ active v. (
        ok (
            shown_rules active
              (newest_rules (select (rule_in user.workspace_id active) v.db.security_rules))),
        v,
      ))

-- The answer to a new rule names no instant.
pub record CreatedRule : Type 0 where
  pub id : ℕ
  pub domain : Text
  pub rule_type : RuleType
  pub pattern : Text

unfoldable pub create_security_rule :
    ℕ → ℕ → RuleType → Text → Text → AuthUser → Inbox → Reply CreatedRule × Inbox
create_security_rule id now rule_type pattern_ domain user w =
    proceed (owned_domain w.db domain user, w)
      (λ active v. (
        ok (record { id = id; domain = active; rule_type = rule_type; pattern = pattern_ }),
        set_rules
            (λ rows.
              rows
              ++ (record {
                id = id;
                workspace_id = user.workspace_id;
                domain = active;
                rule_type = rule_type;
                pattern = pattern_;
                created_at = now;
              }
                  ∷ []))
            v,
      ))

unfoldable pub delete_known_rule :
    Bool → (SecurityRule → Bool) → Inbox → Reply StatusResponse × Inbox
delete_known_rule false p w = (reject 404 "Rule not found", w)
delete_known_rule true p w = (ok tt, set_rules (delete p) w)

unfoldable pub delete_security_rule : ℕ → Text → AuthUser → Inbox → Reply StatusResponse × Inbox
unfolding delete_known_rule
delete_security_rule id domain user w =
    proceed (owned_domain w.db domain user, w)
      (λ active v.
        delete_known_rule (any (rule_at id user.workspace_id active) v.db.security_rules)
          (rule_at id user.workspace_id active) v)
