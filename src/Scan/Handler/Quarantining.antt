-- ===== src/Scan/Handler/Quarantining.antt =====
-- A reply that says quarantine names an item that is stored
-- (src/data_platform/api/routers/email_scan.py).
use sicurre.Prelude.{
  ℕ, ◌≡◌, refl, sym, ◌∙◌, ap, inl, inr, true, Option, none, some, ==_refl, arith, if_both,
}
use sicurre.Prelude.Lists.{find, any, any-found, find-some, any-append}
use sicurre.Prelude.Http.{Reply, ok, raised}
use sicurre.Prelude.Text.{Text, is_empty, lower}
use sicurre.Database.{Integration}
use sicurre.Quarantine.Item.{QuarantineItem, keyed}
use sicurre.Quarantine.Custody.{holds_secret}
use sicurre.Scan.Filters.{matched_rule}
use sicurre.Scan.Journal.{InferenceEvent, Verdict, quarantine, is_blocked}
use sicurre.Scan.Decision.{EmailScanRequest, Decision, decide}
use sicurre.Scan.Hold.{World, Run, held_item}
use sicurre.Scan.Handler.{
  Service, conclude, finish, scan_new, scan_known, scan_message, scan_for, scan_email, decoded,
  scan_response, quarantined, unscanned_note, scan_unless, event_key_of, held_before,
  recorded_before, rules_for, event_row, holds_message, legacy_key_of,
}
use sicurre.Scan.Response.{
  EmailScanResponse, is_valid, validated, held_response, known_response, unscanned,
}
use sicurre.Scan.Handler.Outcomes.{held_of, Outcome, quarantined-Outcome, persist-held}

pub validated-ok : (r resp : EmailScanResponse) → validated r ≡ ok resp → resp ≡ r
unfolding validated
validated-ok r resp =
    if_both (λ (x : Reply EmailScanResponse). x ≡ ok resp → resp ≡ r) (is_valid r.label r.score)
      (λ e. cc) (λ e. absurd cc)

pub ok-eq : {a b : EmailScanResponse} → Path (Reply EmailScanResponse) (ok a) (ok b) → a ≡ b
ok-eq e = cc

some-eq : {a b : ℕ} → some a ≡ some b → a ≡ b
some-eq e = ground arith

none-absurd : {a : ℕ} {P : Type 0} → none ≡ some a → P
none-absurd e = absurd cc

-- What the reply names is in the workspace's quarantine.
abbrev Secured : Integration → Reply EmailScanResponse × World → Type 0
Secured i (reply, v) =
    (resp : EmailScanResponse) (q : ℕ)
    → reply ≡ ok resp
    → resp.verdict ≡ quarantine
    → resp.quarantine_id ≡ some q
    → any (keyed q i.workspace_id) (held_of v) ≡ true

holds_message-keyed :
    (workspace : ℕ) (zone : Text) (a b : ℕ) (r : QuarantineItem)
    → holds_message workspace zone a b r ≡ true
    → keyed r.id workspace r ≡ true
holds_message-keyed workspace zone a b r h = ground (arith, ==_refl r.id)

module _ (service : Service) (run : Run) (i : Integration) where
  held_item-keyed :
      (p : EmailScanRequest) (d : Decision) (event_id q : ℕ)
      → run.quarantine_id ≡ q
      → keyed q i.workspace_id (held_item service.desk run i p d event_id) ≡ true
  unfolding held_item
  held_item-keyed p d event_id q e = rw (e, ==_refl q, ==_refl i.workspace_id) refl

  scan_response-names :
      (d : Decision) (event_id : ℕ) (verdict : Verdict) (q : ℕ)
      → (scan_response service run i d event_id verdict).quarantine_id ≡ some q
      → run.quarantine_id ≡ q
  unfolding scan_response
  scan_response-names d event_id verdict q =
      if_both (λ (x : Option ℕ). x ≡ some q → run.quarantine_id ≡ q) (is_blocked d.safety) some-eq
        none-absurd

  held-keyed :
      (p : EmailScanRequest) (w : World) (r : QuarantineItem)
      → held_before service run i p w ≡ some r
      → any (keyed r.id i.workspace_id) (held_of w) ≡ true
  unfolding held_before
  held-keyed p w r h =
      any-found
        (holds_message i.workspace_id i.zone_name (event_key_of service run i p)
          (legacy_key_of service run i p))
        (keyed r.id i.workspace_id) (held_of w) h
        (holds_message-keyed _ _ _ _ r (find-some _ (held_of w) h))

  conclude-Secured :
      (p : EmailScanRequest) (d : Decision) (event_id : ℕ) (w : World) (r : Verdict × World)
      → Outcome run (held_item service.desk run i p d event_id) w r
      → Secured i (conclude service run i p d event_id r)
  unfolding conclude scan_response held_item
  conclude-Secured p d event_id w (verdict, v) (inl (e, g)) resp q h a b =
      rw (persist-held service run i (event_row service run i p event_id d verdict) v, g)
        (any-append (keyed q i.workspace_id) (held_of w) (held_item service.desk run i p d event_id)
          (held_item-keyed p d event_id q (
            scan_response-names d event_id verdict q
              (sym (ap EmailScanResponse.quarantine_id (validated-ok _ resp h)) ∙ b))))
  conclude-Secured p d event_id w (verdict, v) (inr (ne, g)) resp q h a b =
      absurd (ne (sym (ap EmailScanResponse.verdict (validated-ok _ resp h)) ∙ a))

  finish-Secured :
      (p : EmailScanRequest) (event_id : ℕ) (w : World) (r : Reply Decision)
      → Secured i (finish service run i p event_id w r)
  unfolding finish
  finish-Secured p event_id w (raised n detail) resp q h a b = absurd cc
  finish-Secured p event_id w (ok d) resp q h a b =
      conclude-Secured p d event_id w (quarantined service run i p d event_id w)
        (quarantined-Outcome service run i p d event_id w) resp q h a b

  scan_known-Secured :
      (p : EmailScanRequest) (event_id : ℕ) (o : Option QuarantineItem) (e : Option InferenceEvent)
      → (w : World) → held_before service run i p w ≡ o
      → Secured i (scan_known service run i p event_id o e w)
  unfolding scan_known scan_new held_response known_response
  scan_known-Secured p event_id (some r) _ w f resp q h a b =
      rw (sym (some-eq (sym (ap EmailScanResponse.quarantine_id (validated-ok _ resp h)) ∙ b)))
        (held-keyed p w r f)
  scan_known-Secured p event_id none (some e) w f resp q h a b =
      none-absurd (sym (ap EmailScanResponse.quarantine_id (validated-ok _ resp h)) ∙ b)
  scan_known-Secured p event_id none none w f resp q h a b =
      finish-Secured (decoded service run i p) event_id w
        (decide service.python service.classify (decoded service run i p)
          (matched_rule (lower (decoded service run i p).sender) (rules_for service run i w.db)))
        resp q h a b

  scan_unless-Secured :
      (o : Option Text) (p : EmailScanRequest) (w : World)
      → Secured i (scan_unless service run i o p w)
  unfolding scan_unless unscanned
  scan_unless-Secured (some note) p w resp q h a b =
      none-absurd (ap EmailScanResponse.quarantine_id (ok-eq h) ∙ b)
  scan_unless-Secured none p w resp q h a b =
      scan_known-Secured p (event_key_of service run i p) (held_before service run i p w)
        (recorded_before service run i p w) w refl resp q h a b

-- When a scan answers that a message is in quarantine and names an item, that item is stored, in
-- the workspace of the integration that the secret belongs to.
pub quarantined_mail_is_stored :
    (service : Service) (run : Run) (secret : Text) (p : EmailScanRequest) (w : World)
    → (i : Integration) → find (holds_secret (service.sha256 secret)) w.db.integrations ≡ some i
    → (resp : EmailScanResponse) (q : ℕ) → (scan_email service run secret p w).0 ≡ ok resp
    → resp.verdict ≡ quarantine
    → resp.quarantine_id ≡ some q
    → any (keyed q i.workspace_id) (scan_email service run secret p w).1.db.quarantine ≡ true
unfolding scan_email scan_for scan_message
quarantined_mail_is_stored service run secret p w i f =
    if_both (Secured i) (is_empty secret) (λ resp q h a b. absurd cc)
      (rw f (scan_unless-Secured service run i (unscanned_note service run i p) p w))
