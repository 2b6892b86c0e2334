-- ===== src/Scan/Hold.antt =====
-- The quarantine step of scan_email (src/data_platform/api/routers/email_scan.py): the item, the alert
-- and the email that tells the workspace of it. Each statement can fail, and the first failure ends
-- the step.
use sicurre.Prelude.{
  ℕ, Bool, true, false, ◌&&◌, ◌||◌, Option, none, some, List, [], ◌∷◌, ◌++◌, ◌==◌, if◌then◌else◌,
  ◌*◌, ◌/◌,
}
use sicurre.Prelude.Lists.{any, find, take}
use sicurre.Prelude.Text.{Text, codes, text_eq, lower, split, same_name, is_empty}
use sicurre.Database.{Db, Integration}
use sicurre.Notification.{AlertPreference, EventType, phishing}
use sicurre.Quarantine.Item.{QuarantineItem, held}
use sicurre.Scan.Journal.{Verdict, quarantine, Alert, phishing as suspect}
use sicurre.Scan.Decision.{EmailScanRequest, Decision, one}
use sicurre.Scan.Filters.{alert_domain}

pub record Notice : Type 0 where
  pub email : Text
  pub first_name : Text
  pub domain_name : Text
  pub sender : Text
  pub email_subject : Text
  pub risk_score : ℕ
  pub intercepted_at : ℕ

pub record World : Type 0 where
  pub db : Db
  pub sent : List Notice

-- What one run of the handler draws and meets: identifiers, instants, and the statements that fail.
pub record Run : Type 0 where
  pub fresh_event_id : ℕ
  pub quarantine_id : ℕ
  pub alert_id : ℕ
  pub now : ℕ
  pub expires_at : ℕ
  pub notification_time : ℕ
  pub later : ℕ
  pub latency_ms : ℕ
  pub item_fails : Bool
  pub alert_fails : Bool
  pub event_fails : Bool
  pub activation_fails : Bool
  pub notice_fails : Bool

-- The parts of the handler that are not read here: the masking of personal data, the policy of
-- notifications, and the name of the account.
pub record Desk : Type 0 where
  pub anonymize_pii : Text → Text
  pub allowed : Option AlertPreference → ℕ → EventType → Option Bool
  pub user_name : Text → Option Text

abbrev pub of_domain : ℕ → Text → AlertPreference → Bool
of_domain workspace zone p = p.workspace_id == workspace && same_name p.domain zone

-- PRIMARY KEY (id), UNIQUE (workspace_id, domain, message_id)
abbrev pub clashes : QuarantineItem → QuarantineItem → Bool
clashes n r =
    r.id == n.id
    || r.workspace_id == n.workspace_id
      && (text_eq r.domain n.domain && r.message_id == n.message_id)

abbrev head_or : Text → List Text → Text
head_or t [] = t
head_or _ (w ∷ _) = w

abbrev pub first_name_of : Option Text → Text
first_name_of none = codes "Utilisateur"
first_name_of (some name) =
    if is_empty name then codes "Utilisateur" else head_or (codes "") (split 32 name)

module _ (desk : Desk) (run : Run) (i : Integration) (payload : EmailScanRequest) where
  unfoldable pub held_item : Decision → ℕ → QuarantineItem
  held_item d event_id = record {
    id = run.quarantine_id;
    workspace_id = i.workspace_id;
    domain = lower i.zone_name;
    message_id = event_id;
    sender = payload.sender;
    subject = payload.subject;
    body_text = take 4000 (desk.anonymize_pii payload.text);
    safety_verdict = codes "phishing";
    composite_score = d.score;
    status = held;
    created_at = run.now;
    expires_at = run.expires_at;
    raw_storage_uri = none;
    raw_content_hash = none;
    raw_size_bytes = none;
    last_delivery_error = none;
    delivery_message_id = none;
    delivered_at = none;
  }

  unfoldable alert : Alert
  alert = record {
    id = run.alert_id;
    workspace_id = i.workspace_id;
    domain = lower i.zone_name;
    event_type = codes "phishing_quarantine";
    title = codes "Email mis en quarantaine";
    is_dismissed = false;
    created_at = run.now;
  }

  unfoldable pub notice : Decision → Notice
  notice d = record {
    email = i.user_email;
    first_name = first_name_of (desk.user_name (lower i.user_email));
    domain_name = alert_domain payload.recipient i.zone_name;
    sender = payload.sender;
    email_subject = payload.subject;
    risk_score = d.score * 100 / one;
    intercepted_at = run.notification_time;
  }

  unfoldable pub send_if : Decision → Option Bool → World → World
  unfolding notice
  send_if d (some true) w = if run.notice_fails then w else record w { sent = notice d ∷ w.sent }
  send_if d _ w = w

  unfoldable pub notify : Decision → World → World
  unfolding send_if
  notify d w =
      send_if d
        (desk.allowed (find (of_domain i.workspace_id i.zone_name) w.db.preferences)
          run.notification_time phishing)
        w

  abbrev pub with_item : Decision → ℕ → World → World
  with_item d event_id w = record w {
    db = record w.db { quarantine = w.db.quarantine ++ (held_item d event_id ∷ []) };
  }

  unfoldable pub with_alert : World → World
  unfolding alert
  with_alert w = record w { db = record w.db { alerts = w.db.alerts ++ (alert ∷ []) } }

  -- The insertion is refused.
  unfoldable pub item_rejected : Decision → ℕ → World → Bool
  item_rejected d event_id w =
      run.item_fails || any (clashes (held_item d event_id)) w.db.quarantine

  unfoldable pub hold_if : Bool → Bool → Decision → ℕ → World → Verdict × World
  hold_if true _ d event_id w = (suspect, w)
  hold_if false true d event_id w = (suspect, with_item d event_id w)
  hold_if false false d event_id w = (quarantine, notify d (with_alert (with_item d event_id w)))

  unfoldable pub hold : Decision → ℕ → World → Verdict × World
  unfolding hold_if
  hold d event_id w = hold_if (item_rejected d event_id w) run.alert_fails d event_id w
