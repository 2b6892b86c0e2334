-- ===== src/Scan/Handler/Guarantees.antt =====
-- What any sequence of scans keeps, and what a refused scan leaves behind
-- (src/data_platform/api/routers/email_scan.py).
use sicurre.Prelude.{
  ℕ, ◌≡◌, ◌≢◌, refl, sym, ap, inl, inr, true, Option, none, some, List, [], ◌∷◌, if_both,
}
use sicurre.Prelude.Lists.{find, All}
use sicurre.Prelude.Http.{Reply, ok, raised}
use sicurre.Prelude.Text.{Text, is_empty, lower}
use sicurre.Scan.Filters.{matched_rule}
use sicurre.Database.{Integration}
use sicurre.Quarantine.Item.{QuarantineItem}
use sicurre.Scan.Journal.{InferenceEvent, is_blocked, has_id}
use sicurre.Scan.Journal.Merging.{IsMasked, find-upsert_event, upsert_event-IsMasked}
use sicurre.Scan.Decision.{EmailScanRequest, Decision, decide}
use sicurre.Scan.Hold.{World, Run}
use sicurre.Scan.Handler.{
  Service, conclude, finish, scan_new, scan_known, scan_message, scan_for, scan_email, decoded,
  unscanned_note, scan_unless, event_key_of, held_before, recorded_before, rules_for,
}
use sicurre.Scan.Response.{EmailScanResponse, is_valid, validated}
use sicurre.Scan.Handler.Effects.{events_of, Journals, scan_email-Journals}

-- One request: what its run draws, the secret it shows, and the message.
abbrev pub Request : Type 0
Request = Run × Text × EmailScanRequest

unfoldable pub scan_all : Service → List Request → World → World
scan_all service [] w = w
scan_all service ((run, secret, p) ∷ rs) w =
    scan_all service rs (scan_email service run secret p w).1

Journals-keeps :
    (w v : World) (id : ℕ) (r : InferenceEvent)
    → Journals w v
    → find (has_id id) (events_of w) ≡ some r
    → is_blocked r.safety_verdict ≡ true
    → find (has_id id) (events_of v) ≡ some r
Journals-keeps w v id r (inl e) h b = rw e h
Journals-keeps w v id r (inr (x, m, e)) h b = rw e (find-upsert_event id x (events_of w) h b)

-- Whatever messages are scanned, with whatever outcomes and failures, a journal row whose verdict
-- is phishing or quarantine stays exactly as it is.
pub journal_never_softened :
    (service : Service) (requests : List Request) (w : World) (id : ℕ) (r : InferenceEvent)
    → find (has_id id) (events_of w) ≡ some r
    → is_blocked r.safety_verdict ≡ true
    → find (has_id id) (events_of (scan_all service requests w)) ≡ some r
unfolding scan_all
journal_never_softened service [] w id r h b = h
journal_never_softened service ((run, secret, p) ∷ rs) w id r h b =
    let v = (scan_email service run secret p w).1 in
    journal_never_softened service rs v id r
      (Journals-keeps w v id r (scan_email-Journals service run secret p w) h b) b

Journals-IsMasked :
    (w v : World) → Journals w v → All IsMasked (events_of w) → All IsMasked (events_of v)
Journals-IsMasked w v (inl e) a = rw e a
Journals-IsMasked w v (inr (x, m, e)) a = rw e (upsert_event-IsMasked x (events_of w) m a)

-- If the subject, the sender and the snippet are masked in every journal row whose verdict is safe,
-- they are so after any sequence of scans.
pub journal_stays_private :
    (service : Service) (requests : List Request) (w : World)
    → All IsMasked (events_of w)
    → All IsMasked (events_of (scan_all service requests w))
unfolding scan_all
journal_stays_private service [] w a = a
journal_stays_private service ((run, secret, p) ∷ rs) w a =
    let v = (scan_email service run secret p w).1 in
    journal_stays_private service rs v
      (Journals-IsMasked w v (scan_email-Journals service run secret p w) a)

-- A refusal other than a server error leaves the world alone.
abbrev Harmless : World → Reply EmailScanResponse × World → Type 0
Harmless w (reply, v) = (n : ℕ) (detail : Text) → reply ≡ raised n detail → n ≢ 500 → v ≡ w

status_of : Reply EmailScanResponse → ℕ
status_of (ok _) = 0
status_of (raised n _) = n

validated-raised :
    (r : EmailScanResponse) (n : ℕ) (detail : Text) → validated r ≡ raised n detail → n ≡ 500
unfolding validated status_of
validated-raised r n detail =
    if_both (λ (x : Reply EmailScanResponse). x ≡ raised n detail → n ≡ 500)
      (is_valid r.label r.score) (λ e. absurd cc) (λ e. sym (ap status_of e))

module _ (service : Service) (run : Run) (i : Integration) where
  finish-Harmless :
      (p : EmailScanRequest) (event_id : ℕ) (w : World) (r : Reply Decision)
      → Harmless w (finish service run i p event_id w r)
  unfolding finish conclude
  finish-Harmless p event_id w (raised n detail) m d h k = refl
  finish-Harmless p event_id w (ok d) m detail h k = absurd (k (validated-raised _ m detail h))

  scan_known-Harmless :
      (p : EmailScanRequest) (event_id : ℕ)
      → (q : Option QuarantineItem) (e : Option InferenceEvent) (w : World)
      → Harmless w (scan_known service run i p event_id q e w)
  unfolding scan_known scan_new
  scan_known-Harmless p event_id (some r) _ w n d h k = refl
  scan_known-Harmless p event_id none (some e) w n d h k = refl
  scan_known-Harmless p event_id none none w n d h k =
      finish-Harmless (decoded service run i p) event_id w
        (decide service.python service.classify (decoded service run i p)
          (matched_rule (lower (decoded service run i p).sender) (rules_for service run i w.db)))
        n d h k

  scan_unless-Harmless :
      (o : Option Text) (p : EmailScanRequest) (w : World)
      → Harmless w (scan_unless service run i o p w)
  unfolding scan_unless
  scan_unless-Harmless (some note) p w n d h k = refl
  scan_unless-Harmless none p w n d h k =
      scan_known-Harmless p (event_key_of service run i p) (held_before service run i p w)
        (recorded_before service run i p w) w n d h k

module _ (service : Service) (run : Run) where
  scan_for-Harmless :
      (p : EmailScanRequest) (o : Option Integration) (w : World)
      → Harmless w (scan_for service run p o w)
  unfolding scan_for scan_message
  scan_for-Harmless p none w n d h k = refl
  scan_for-Harmless p (some i) w n d h k =
      scan_unless-Harmless service run i (unscanned_note service run i p) p w n d h k

-- A scan that ends with an error status other than 500 (a wrong secret, the inference service being
-- unavailable) stores nothing, sends nothing and changes no row.
pub refused_scan_stores_nothing :
    (service : Service) (run : Run) (secret : Text) (p : EmailScanRequest) (w : World)
    → (n : ℕ) (detail : Text) → (scan_email service run secret p w).0 ≡ raised n detail
    → n ≢ 500
    → (scan_email service run secret p w).1 ≡ w
unfolding scan_email
refused_scan_stores_nothing service run secret p w =
    if_both (Harmless w) (is_empty secret) (λ n d h k. refl) (scan_for-Harmless service run p _ w)
