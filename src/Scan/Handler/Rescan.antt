-- ===== src/Scan/Handler/Rescan.antt =====
-- A message that was scanned before gets the same verdict again
-- (src/data_platform/api/routers/email_scan.py).
use sicurre.Prelude.{
  ℕ, ◌≡◌, refl, sym, ◌∙◌, ap, inl, inr, true, false, Option, none, some, [], ◌∷◌, ◌++◌, ==_refl,
  arith, leb, Bool-cases,
}
use sicurre.Prelude.Lists.{find, find-append}
use sicurre.Prelude.Http.{Reply, ok, raised}
use sicurre.Prelude.Text.{Text, codes, is_empty, lower, lower_idem, same_name, text_eq_refl}
use sicurre.Database.{Integration}
use sicurre.Quarantine.Item.{QuarantineItem}
use sicurre.Scan.Journal.{InferenceEvent, Verdict, quarantine, upsert_event, has_id}
use sicurre.Scan.Decision.{EmailScanRequest, Decision, one}
use sicurre.Scan.Hold.{World, Run, held_item}
use sicurre.Scan.Handler.{
  Service, conclude, finish, scan_new, scan_known, scan_message, decoded, scan_response,
  unscanned_note, scan_unless, stripped_id, event_key_of, held_before, recorded_before, persist,
  activated, event_row, holds_message, records_message, legacy_key_of,
}
use sicurre.Scan.Response.{EmailScanResponse, is_valid, validated, held_response, known_response}
use sicurre.Scan.Handler.Effects.{events_of, quarantined-events, activated-events}
use sicurre.Scan.Handler.Outcomes.{held_of, Outcome, quarantined-Outcome, persist-held}
use sicurre.Scan.Handler.Quarantining.{validated-ok}

validated-is_valid :
    (r resp : EmailScanResponse) → validated r ≡ ok resp → is_valid r.label r.score ≡ true
unfolding validated
validated-is_valid r resp h = elim (Bool-cases (is_valid r.label r.score)) [
  | inl t ↦ t
  | inr t ↦ absurd (rejected t h)
]
  where
    rejected : is_valid r.label r.score ≡ false → validated r ≡ ok resp → ⊥
    rejected t = rw t (λ e. cc)

valid-score : (label : Text) (score : ℕ) → is_valid label score ≡ true → leb score one ≡ true
valid-score label score h = ground arith

phishing-is_valid : (score : ℕ) → leb score one ≡ true → is_valid (codes "phishing") score ≡ true
phishing-is_valid score h = h

validated-valid : (r : EmailScanResponse) → is_valid r.label r.score ≡ true → validated r ≡ ok r
unfolding validated
validated-valid r h = rw h refl

same_name-lower : (t : Text) → same_name (lower t) t ≡ true
unfolding same_name
same_name-lower t = rw (lower_idem t) (text_eq_refl (lower t))

-- A second answer with the first one's event and verdict, and nothing changed.
abbrev pub Repeats : EmailScanResponse → World → Reply EmailScanResponse × World → Type 0
Repeats resp v (reply, u) =
    (u ≡ v)
    × ((again : EmailScanResponse) × (reply ≡ ok again)
        × (again.event_id ≡ resp.event_id)
        × (again.verdict ≡ resp.verdict))

module _ (service : Service) (i : Integration) (run again : Run) (p : EmailScanRequest)
    (identified : is_empty (stripped_id p.message_id) ≡ false) where
  event_key_again : event_key_of service again i p ≡ event_key_of service run i p
  unfolding event_key_of
  event_key_again = rw identified refl

  legacy_key_again : legacy_key_of service again i p ≡ legacy_key_of service run i p
  unfolding legacy_key_of
  legacy_key_again = rw identified refl

  held_again : (w : World) → held_before service again i p w ≡ held_before service run i p w
  unfolding held_before
  held_again w = rw (event_key_again, legacy_key_again) refl

  recorded_again :
      (w : World) → recorded_before service again i p w ≡ recorded_before service run i p w
  unfolding recorded_before
  recorded_again w = rw (event_key_again, legacy_key_again) refl

  held_same :
      (w v : World)
      → held_of v ≡ held_of w
      → held_before service run i p v ≡ held_before service run i p w
  unfolding held_before
  held_same w v e = rw e refl

  -- The item that a scan holds is the one that the next scan finds.
  held_after :
      (d : Decision) (w v : World)
      → held_before service run i p w ≡ none
      → held_of v
        ≡ held_of w
          ++ (held_item service.desk run i
                (decoded service run i p)
                d
                (event_key_of service run i p)
              ∷ [])
      → held_before service again i p v
        ≡ some (
            held_item service.desk run i (decoded service run i p) d (event_key_of service run i p))
  unfolding held_before held_item
  held_after d w v f e =
      rw (e, event_key_again, legacy_key_again)
        (find-append
          (holds_message i.workspace_id i.zone_name (event_key_of service run i p)
            (legacy_key_of service run i p))
          (held_of w) _ f
          (rw
            (
              ==_refl i.workspace_id,
              same_name-lower i.zone_name,
              ==_refl (event_key_of service run i p),
            )
            refl))

  recorded_after :
      (d : Decision) (verdict : Verdict) (w v : World)
      → recorded_before service run i p w ≡ none
      → find (has_id (event_key_of service run i p)) (events_of w) ≡ none
      → events_of v
        ≡ upsert_event
            (event_row service run i
              (decoded service run i p)
              (event_key_of service run i p)
              d
              verdict)
            (events_of w)
      → recorded_before service again i p v
        ≡ some (
            event_row service run i
              (decoded service run i p)
              (event_key_of service run i p)
              d
              verdict)
  unfolding recorded_before event_row upsert_event
  recorded_after d verdict w v f g e =
      rw (e, g, event_key_again, legacy_key_again)
        (find-append
          (records_message i.workspace_id i.zone_name (event_key_of service run i p)
            (legacy_key_of service run i p))
          (events_of w) _ f
          (rw
            (
              ==_refl i.workspace_id,
              same_name-lower i.zone_name,
              ==_refl (event_key_of service run i p),
            )
            refl))

  persist-events :
      (e : InferenceEvent) (w : World)
      → run.event_fails ≡ false
      → events_of (persist service run i e w) ≡ upsert_event e (events_of w)
  unfolding persist activated
  persist-events e w h =
      rw h (activated-events service run i (record w.db { events = upsert_event e w.db.events }))

  -- The second run, once its searches are known.
  scan_known_again :
      (resp : EmailScanResponse) (v : World) (q : Option QuarantineItem) (e : Option InferenceEvent)
      → unscanned_note service run i p ≡ none
      → held_before service again i p v ≡ q
      → recorded_before service again i p v ≡ e
      → Repeats resp v (scan_known service again i p (event_key_of service again i p) q e v)
      → Repeats resp v (scan_message service again i p v)
  unfolding scan_message scan_unless unscanned_note
  scan_known_again resp v q e n f g x = rw (n, f, g) x

  held-Repeats :
      (resp : EmailScanResponse) (v : World) (r : QuarantineItem) (e : Option InferenceEvent)
      → is_valid r.safety_verdict r.composite_score ≡ true
      → resp.event_id ≡ r.message_id
      → resp.verdict ≡ quarantine
      → Repeats resp v (scan_known service again i p (event_key_of service again i p) (some r) e v)
  unfolding scan_known held_response
  held-Repeats resp v r e h a b =
      (refl, (held_response r, validated-valid (held_response r) h, sym a, sym b))

  known-Repeats :
      (resp : EmailScanResponse) (v : World) (e : InferenceEvent)
      → is_valid e.label_verdict e.composite_score ≡ true
      → resp.event_id ≡ e.id
      → resp.verdict ≡ e.safety_verdict
      → Repeats resp v
          (scan_known service again i p (event_key_of service again i p) none (some e) v)
  unfolding scan_known known_response
  known-Repeats resp v e h a b =
      (refl, (known_response e, validated-valid (known_response e) h, sym a, sym b))

  conclude-Repeats :
      (d : Decision) (w : World) (r : Verdict × World) (resp : EmailScanResponse)
      → run.alert_fails ≡ false
      → run.event_fails ≡ false
      → unscanned_note service run i p ≡ none
      → held_before service run i p w ≡ none
      → recorded_before service run i p w ≡ none
      → find (has_id (event_key_of service run i p)) (events_of w) ≡ none
      → events_of r.1 ≡ events_of w
      → Outcome run
          (held_item service.desk run i (decoded service run i p) d (event_key_of service run i p))
          w
          r
      → (conclude service run i (decoded service run i p) d (event_key_of service run i p) r).0
        ≡ ok resp
      → Repeats resp
          (conclude service run i (decoded service run i p) d (event_key_of service run i p) r).1
          (scan_message service again i p
            (conclude service run i (decoded service run i p) d (event_key_of service run i p) r).1)
  unfolding conclude scan_response held_item
  conclude-Repeats d w (verdict, u) resp a b n f g k e (inl (q, h)) m =
      let row =
        event_row service run i (decoded service run i p) (event_key_of service run i p) d
          verdict in
      let v = persist service run i row u in
      let eq = validated-ok _ resp m in
      scan_known_again resp v _ _ n (held_after d w v f (persist-held service run i row u ∙ h)) refl
        (held-Repeats resp v _ _
          (phishing-is_valid d.score (valid-score d.label d.score (validated-is_valid _ resp m)))
          (ap EmailScanResponse.event_id eq) (ap EmailScanResponse.verdict eq ∙ q))
  conclude-Repeats d w (verdict, u) resp a b n f g k e (inr (q, h)) m =
      let row =
        event_row service run i (decoded service run i p) (event_key_of service run i p) d
          verdict in
      let v = persist service run i row u in
      let eq = validated-ok _ resp m in
      scan_known_again resp v _ _ n
        (held_again v ∙ held_same w v (persist-held service run i row u ∙ h a) ∙ f)
        (recorded_after d verdict w v g k (persist-events row u b ∙ ap (upsert_event row) e))
        (known-Repeats resp v row (validated-is_valid _ resp m) (ap EmailScanResponse.event_id eq)
          (ap EmailScanResponse.verdict eq))

  finish-Repeats :
      (w : World) (r : Reply Decision) (resp : EmailScanResponse)
      → run.alert_fails ≡ false
      → run.event_fails ≡ false
      → unscanned_note service run i p ≡ none
      → held_before service run i p w ≡ none
      → recorded_before service run i p w ≡ none
      → find (has_id (event_key_of service run i p)) (events_of w) ≡ none
      → (finish service run i (decoded service run i p) (event_key_of service run i p) w r).0
        ≡ ok resp
      → Repeats resp
          (finish service run i (decoded service run i p) (event_key_of service run i p) w r).1
          (scan_message service again i p
            (finish service run i (decoded service run i p) (event_key_of service run i p) w r).1)
  unfolding finish
  finish-Repeats w (raised m detail) resp a b n f g k h = absurd cc
  finish-Repeats w (ok d) resp a b n f g k h =
      conclude-Repeats d w _ resp a b n f g k
        (quarantined-events service run i (decoded service run i p) d (event_key_of service run i p)
          w)
        (quarantined-Outcome service run i (decoded service run i p) d
          (event_key_of service run i p) w)
        h

  scan_known-Repeats :
      (w : World) (o : Option QuarantineItem) (e : Option InferenceEvent) (resp : EmailScanResponse)
      → run.alert_fails ≡ false
      → run.event_fails ≡ false
      → unscanned_note service run i p ≡ none
      → held_before service run i p w ≡ o
      → recorded_before service run i p w ≡ e
      → (recorded_before service run i p w ≡ none
          → find (has_id (event_key_of service run i p)) (events_of w) ≡ none)
      → (scan_known service run i p (event_key_of service run i p) o e w).0 ≡ ok resp
      → Repeats resp (scan_known service run i p (event_key_of service run i p) o e w).1 (
          scan_message service again i p
            (scan_known service run i p (event_key_of service run i p) o e w).1)
  unfolding scan_known scan_new held_response known_response
  scan_known-Repeats w (some r) e resp a b n f g k h =
      let eq = validated-ok _ resp h in
      scan_known_again resp w (some r) e n (held_again w ∙ f) (recorded_again w ∙ g) (
        held-Repeats resp w r e (validated-is_valid _ resp h) (ap EmailScanResponse.event_id eq)
          (ap EmailScanResponse.verdict eq))
  scan_known-Repeats w none (some e) resp a b n f g k h =
      let eq = validated-ok _ resp h in
      scan_known_again resp w none (some e) n (held_again w ∙ f) (recorded_again w ∙ g) (
        known-Repeats resp w e (validated-is_valid _ resp h) (ap EmailScanResponse.event_id eq)
          (ap EmailScanResponse.verdict eq))
  scan_known-Repeats w none none resp a b n f g k h = finish-Repeats w _ resp a b n f g (k g) h

scan_message-scanned :
    (service : Service) (i : Integration) (run : Run) (p : EmailScanRequest) (w : World)
    → unscanned_note service run i p ≡ none
    → scan_message service run i p w
      ≡ scan_known service run i p
          (event_key_of service run i p)
          (held_before service run i p w)
          (recorded_before service run i p w)
          w
unfolding scan_message scan_unless
scan_message-scanned service i run p w n = rw n refl

-- A message with a Message-ID that is scanned, and whose alert and journal row are stored, gets the
-- same event and the same verdict when it is scanned again, whatever the run draws then, and the
-- second scan changes nothing. No row that is not the message's own may bear the event's id.
pub rescan_idempotent :
    (service : Service) (i : Integration) (run again : Run) (p : EmailScanRequest) (w : World)
    → (resp : EmailScanResponse) → is_empty (stripped_id p.message_id) ≡ false
    → run.alert_fails ≡ false
    → run.event_fails ≡ false
    → unscanned_note service run i p ≡ none
    → (recorded_before service run i p w ≡ none
        → find (has_id (event_key_of service run i p)) (events_of w) ≡ none)
    → (scan_message service run i p w).0 ≡ ok resp
    → Repeats resp
        (scan_message service run i p w).1
        (scan_message service again i p (scan_message service run i p w).1)
rescan_idempotent service i run again p w resp identified a b n k h =
    let eq = scan_message-scanned service i run p w n in
    rw eq (
      scan_known-Repeats service i run again p identified w (held_before service run i p w)
        (recorded_before service run i p w) resp a b n refl refl k
        (sym (ap (λ (r : Reply EmailScanResponse × World). r.0) eq) ∙ h))
