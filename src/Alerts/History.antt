-- ===== src/Alerts/History.antt =====
-- The alert history of a domain and the marks of its readers: dismissing an alert, reading one and
-- reading all of them.
use sicurre.Prelude.{ℕ, Bool, true, false, not, ◌&&◌, List, [], ◌∷◌, ◌++◌, ◌==◌, if◌then◌else◌}
use sicurre.Prelude.Lists.{any}
use sicurre.Prelude.Table.{select, update}
use sicurre.Prelude.Text.{Text, codes, same_name, or_else}
use sicurre.Prelude.Http.{Reply, ok, reject, proceed}
use sicurre.Database.{AuthUser, owned_domain}
use sicurre.Scan.Journal.{Alert}
use sicurre.Alerts.{StatusResponse, AlertRead, Inbox}

abbrev pub alert_in : ℕ → Text → Alert → Bool
alert_in workspace domain a = a.workspace_id == workspace && same_name a.domain domain

abbrev pub alert_at : ℕ → ℕ → Text → Alert → Bool
alert_at id workspace domain a = a.id == id && alert_in workspace domain a

abbrev pub shown_alert : ℕ → Text → Alert → Bool
shown_alert workspace domain a = alert_in workspace domain a && not a.is_dismissed

unfoldable pub dismiss_known : Bool → (Alert → Bool) → Inbox → Reply StatusResponse × Inbox
dismiss_known false p w = (reject 404 "Alert not found", w)
dismiss_known true p w = (
  ok tt,
  record w {
    db = record w.db { alerts = update p (λ a. record a { is_dismissed = true }) w.db.alerts };
  },
)

unfoldable pub dismiss_alert : ℕ → Text → AuthUser → Inbox → Reply StatusResponse × Inbox
unfolding dismiss_known
dismiss_alert id domain user w =
    proceed (owned_domain w.db domain user, w)
      (λ active v.
        dismiss_known (any (alert_at id user.workspace_id active) v.db.alerts)
          (alert_at id user.workspace_id active) v)

abbrev pub read_by : ℕ → ℕ → AlertRead → Bool
read_by user alert r = r.auth_user_id == user && r.alert_id == alert

-- INSERT ... ON CONFLICT(auth_user_id, alert_id) DO NOTHING
unfoldable pub insert_read : AuthUser → Text → ℕ → ℕ → List AlertRead → List AlertRead
insert_read user domain now alert rows =
    if any (read_by user.id alert) rows
    then rows
    else rows
      ++ (record {
        workspace_id = user.workspace_id;
        domain = domain;
        auth_user_id = user.id;
        alert_id = alert;
        read_at = now;
      }
          ∷ [])

unfoldable pub read_known : Bool → ℕ → ℕ → Text → AuthUser → Inbox → Reply StatusResponse × Inbox
unfolding insert_read
read_known false id now domain user w = (reject 404 "Alert not found", w)
read_known true id now domain user w =
    (ok tt, record w { reads = insert_read user domain now id w.reads })

unfoldable pub mark_alert_read : ℕ → ℕ → Text → AuthUser → Inbox → Reply StatusResponse × Inbox
unfolding read_known
mark_alert_read id now domain user w =
    proceed (owned_domain w.db domain user, w)
      (λ active v.
        read_known (any (λ a. a.id == id && shown_alert user.workspace_id active a) v.db.alerts) id
          now active user v)

unfoldable pub read_all : AuthUser → Text → ℕ → List Alert → List AlertRead → List AlertRead
unfolding insert_read
read_all user domain now [] rows = rows
read_all user domain now (a ∷ as_) rows =
    read_all user domain now as_ (insert_read user domain now a.id rows)

unfoldable pub mark_domain_alerts_read : ℕ → Text → AuthUser → Inbox → Reply StatusResponse × Inbox
unfolding read_all
mark_domain_alerts_read now domain user w =
    proceed (owned_domain w.db domain user, w)
      (λ active v. (
        ok tt,
        record v {
          reads =
              read_all user active now (select (shown_alert user.workspace_id active) v.db.alerts)
                v.reads;
        },
      ))

-- An alert of the history, with whether this member has read it.
pub record ShownAlert : Type 0 where
  pub alert : Alert
  pub is_read : Bool

unfoldable pub history : AuthUser → Text → List AlertRead → List Alert → List ShownAlert
history user domain reads [] = []
history user domain reads (a ∷ as_) =
    record {
      alert = record a { domain = domain; event_type = or_else a.event_type (codes "system") };
      is_read = any (read_by user.id a.id) reads;
    }
    ∷ history user domain reads as_

-- The rows come in the order of `arrange`, ORDER BY created_at DESC.
unfoldable pub list_alert_history :
    (List Alert → List Alert) → Text → AuthUser → Inbox → Reply (List ShownAlert) × Inbox
unfolding history
list_alert_history arrange domain user w =
    proceed (owned_domain w.db domain user, w)
      (λ active v. (
        ok (
            history user active v.reads
              (arrange (select (shown_alert user.workspace_id active) v.db.alerts))),
        v,
      ))
