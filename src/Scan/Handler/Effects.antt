-- ===== src/Scan/Handler/Effects.antt =====
-- What scan_email of src/data_platform/api/routers/email_scan.py can do to the tables.
use sicurre.Prelude.{
  ℕ, ◌≡◌, refl, ◌∙◌, ap, not, ◌&&◌, ◌⊎◌, inl, inr, Bool, true, false, Option, none, some, List,
  if_both,
}
use sicurre.Prelude.Http.{Reply, ok, raised}
use sicurre.Prelude.Text.{Text, is_empty, lower}
use sicurre.Database.{Db, Integration}
use sicurre.Quarantine.Item.{QuarantineItem}
use sicurre.Scan.Journal.{InferenceEvent, Verdict, is_blocked, upsert_event}
use sicurre.Scan.Journal.Merging.{IsMasked}
use sicurre.Scan.Filters.{matched_rule}
use sicurre.Scan.Decision.{EmailScanRequest, Decision, decide}
use sicurre.Scan.Hold.{World, Run, Desk, notify, send_if, hold_if, with_alert, hold}
use sicurre.Scan.Handler.{
  Service, unscanned_note, scan_unless, event_row, persist, quarantined, conclude, finish, scan_new,
  scan_known, scan_message, scan_for, scan_email, decoded, event_key_of, held_before,
  recorded_before, rules_for, activated, awaits_mail,
}
use sicurre.Scan.Response.{EmailScanResponse}

abbrev pub events_of : World → List InferenceEvent
events_of w = w.db.events

-- The journal is left alone, or one row goes through the upsert, and that row is masked.
abbrev pub Journals : World → World → Type 0
Journals w v =
    (events_of v ≡ events_of w)
    ⊎ ((e : InferenceEvent) × IsMasked e × (events_of v ≡ upsert_event e (events_of w)))

module _ (desk : Desk) (run : Run) (i : Integration) (p : EmailScanRequest) where
  send_if-events :
      (d : Decision) (a : Option Bool) (w : World)
      → events_of (send_if desk run i p d a w) ≡ events_of w
  unfolding send_if
  send_if-events d none w = refl
  send_if-events d (some true) w =
      if_both (λ v. events_of v ≡ events_of w) run.notice_fails refl refl
  send_if-events d (some false) w = refl

  notify-events : (d : Decision) (w : World) → events_of (notify desk run i p d w) ≡ events_of w
  unfolding notify send_if
  notify-events d w = send_if-events d _ w

  hold_if-events :
      (rejected fails : Bool) (d : Decision) (event_id : ℕ) (w : World)
      → events_of (hold_if desk run i p rejected fails d event_id w).1 ≡ events_of w
  unfolding hold_if with_alert
  hold_if-events true _ d event_id w = refl
  hold_if-events false true d event_id w = refl
  hold_if-events false false d event_id w = notify-events d _

  hold-events :
      (d : Decision) (event_id : ℕ) (w : World)
      → events_of (hold desk run i p d event_id w).1 ≡ events_of w
  unfolding hold
  hold-events d event_id w = hold_if-events _ _ d event_id w

module _ (service : Service) (run : Run) (i : Integration) where
  event_row-IsMasked :
      (p : EmailScanRequest) (event_id : ℕ) (d : Decision) (verdict : Verdict)
      → IsMasked (event_row service run i p event_id d verdict)
  unfolding event_row
  event_row-IsMasked p event_id d verdict h = rw h (refl, refl, refl)

  pub activated-events : (db : Db) → (activated service run i db).events ≡ db.events
  unfolding activated
  activated-events db =
      if_both (λ (v : Db). v.events ≡ db.events) (awaits_mail i.status && not run.activation_fails)
        refl refl

  persist-Journals :
      (e : InferenceEvent) (w : World) → IsMasked e → Journals w (persist service run i e w)
  unfolding persist
  persist-Journals e w m =
      if_both (Journals w) run.event_fails (inl refl)
        (inr (e, m, activated-events (record w.db { events = upsert_event e w.db.events })))

  pub quarantined-events :
      (p : EmailScanRequest) (d : Decision) (event_id : ℕ) (w : World)
      → events_of (quarantined service run i p d event_id w).1 ≡ events_of w
  unfolding quarantined
  quarantined-events p d event_id w =
      if_both (λ (r : Verdict × World). events_of r.1 ≡ events_of w) (is_blocked d.safety)
        (hold-events service.desk run i p d event_id w) refl

  Journals-along : (w v u : World) → events_of v ≡ events_of w → Journals v u → Journals w u
  Journals-along w v u e (inl h) = inl (h ∙ e)
  Journals-along w v u e (inr (x, m, h)) = inr (x, m, h ∙ ap (upsert_event x) e)

  finish-Journals :
      (p : EmailScanRequest) (event_id : ℕ) (w : World) (r : Reply Decision)
      → Journals w (finish service run i p event_id w r).1
  unfolding finish conclude
  finish-Journals p event_id w (raised n detail) = inl refl
  finish-Journals p event_id w (ok d) =
      let (verdict, v) = quarantined service run i p d event_id w in
      Journals-along w v (persist service run i (event_row service run i p event_id d verdict) v)
        (quarantined-events p d event_id w)
        (persist-Journals (event_row service run i p event_id d verdict) v
          (event_row-IsMasked p event_id d verdict))

  scan_known-Journals :
      (p : EmailScanRequest) (event_id : ℕ)
      → (q : Option QuarantineItem) (e : Option InferenceEvent) (w : World)
      → Journals w (scan_known service run i p event_id q e w).1
  unfolding scan_known scan_new
  scan_known-Journals p event_id (some r) _ w = inl refl
  scan_known-Journals p event_id none (some e) w = inl refl
  scan_known-Journals p event_id none none w =
      finish-Journals (decoded service run i p) event_id w (
        decide service.python service.classify (decoded service run i p)
          (matched_rule (lower (decoded service run i p).sender) (rules_for service run i w.db)))

  scan_unless-Journals :
      (o : Option Text) (p : EmailScanRequest) (w : World)
      → Journals w (scan_unless service run i o p w).1
  unfolding scan_unless
  scan_unless-Journals (some note) p w = inl refl
  scan_unless-Journals none p w =
      scan_known-Journals p (event_key_of service run i p) (held_before service run i p w)
        (recorded_before service run i p w) w

  scan_message-Journals :
      (p : EmailScanRequest) (w : World) → Journals w (scan_message service run i p w).1
  unfolding scan_message
  scan_message-Journals p w = scan_unless-Journals (unscanned_note service run i p) p w

module _ (service : Service) (run : Run) where
  scan_for-Journals :
      (p : EmailScanRequest) (o : Option Integration) (w : World)
      → Journals w (scan_for service run p o w).1
  unfolding scan_for
  scan_for-Journals p none w = inl refl
  scan_for-Journals p (some i) w = scan_message-Journals service run i p w

  pub scan_email-Journals :
      (secret : Text) (p : EmailScanRequest) (w : World)
      → Journals w (scan_email service run secret p w).1
  unfolding scan_email
  scan_email-Journals secret p w =
      if_both (λ (r : Reply EmailScanResponse × World). Journals w r.1) (is_empty secret) (inl refl)
        (scan_for-Journals p _ w)
