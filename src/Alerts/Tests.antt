-- ===== src/Alerts/Tests.antt =====
-- Preferences, rules and marks on concrete tables.
use sicurre.Prelude.{◌≡◌, refl, true, false, none, [], ◌∷◌}
use sicurre.Prelude.Text.{Text, codes}
use sicurre.Prelude.Http.{ok, reject}
use sicurre.Database.{Integration, AuthUser, active, owned_domain}
use sicurre.Scan.Journal.{Alert}
use sicurre.Notification.{AlertPreference}
use sicurre.Alerts.{
  Inbox, default_preference, update_alert_preferences, get_alert_preferences, delete_security_rule,
}
use sicurre.Alerts.History.{dismiss_alert, mark_alert_read, list_alert_history}
use sicurre.Alerts.Preferences.{as_sent, preferences_read_back}

abbrev row : Integration
row = record {
  id = 7;
  user_email = codes "me@vinse.app";
  workspace_id = 3;
  zone_id = codes "z";
  zone_name = codes "Vinse.app";
  account_id = codes "acc";
  worker_name = codes "gw";
  rule_id = codes "rule";
  destination_email = codes "me@mail.fr";
  api_token = none;
  shared_secret_hash = 6;
  status = active;
  error_message = none;
  created_at = 1;
  updated_at = 1;
}

abbrev alert : Alert
alert = record {
  id = 5;
  workspace_id = 3;
  domain = codes "vinse.app";
  event_type = [];
  title = codes "Mail held";
  is_dismissed = false;
  created_at = 2;
}

abbrev user : AuthUser
user = record { id = 2; workspace_id = 3 }

abbrev stored : AlertPreference
stored = default_preference 3 (codes "vinse.app")

abbrev inbox : Inbox
inbox = record {
  db = record {
    integrations = row ∷ [];
    quarantine = [];
    security_rules = [];
    feedback = [];
    events = [];
    alerts = alert ∷ [];
    preferences = stored ∷ [];
  };
  reads = [];
}

abbrev sent : AlertPreference
sent = record stored { notify_phishing = false; timezone = [] }

preferences_read_back_example :
    (active : Text) × (owned_domain inbox.db (codes "VINSE.app") user ≡ ok active)
    × (get_alert_preferences
          (codes "VINSE.app")
          user
          (update_alert_preferences sent (codes "VINSE.app") user inbox).1
        ≡ (
          ok (as_sent sent user.workspace_id active),
          (update_alert_preferences sent (codes "VINSE.app") user inbox).1,
        ))
unfolding default_preference sicurre.Prelude.Text.lower update_alert_preferences owned_domain
    sicurre.Prelude.Text.strip sicurre.Prelude.Text.same_name
preferences_read_back_example =
    preferences_read_back sent (codes "VINSE.app") user inbox (refl, tt) refl

no_rule_to_delete :
    delete_security_rule 1 (codes "vinse.app") user inbox ≡ (reject 404 "Rule not found", inbox)
unfolding delete_security_rule owned_domain sicurre.Prelude.Text.lower sicurre.Prelude.Text.strip
    sicurre.Prelude.Text.same_name
no_rule_to_delete = refl

dismissed_is_not_marked :
    let w = (dismiss_alert 5 (codes "vinse.app") user inbox).1 in
    mark_alert_read 5 9 (codes "vinse.app") user w ≡ (reject 404 "Alert not found", w)
unfolding mark_alert_read owned_domain sicurre.Prelude.Text.lower sicurre.Prelude.Text.strip
    dismiss_alert sicurre.Prelude.Text.same_name
dismissed_is_not_marked = refl

marked_is_read :
    let w = (mark_alert_read 5 9 (codes "vinse.app") user inbox).1 in
    (list_alert_history (λ as_. as_) (codes "vinse.app") user w).0
    ≡ ok (record { alert = record alert { event_type = codes "system" }; is_read = true } ∷ [])
unfolding list_alert_history owned_domain sicurre.Prelude.Text.lower sicurre.Prelude.Text.strip
    mark_alert_read sicurre.Prelude.Text.same_name
marked_is_read = refl
