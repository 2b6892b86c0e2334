-- ===== src/Scan/Response.antt =====
-- The answers of scan_email (src/data_platform/api/routers/email_scan.py): their validation, the
-- answer for mail that is not scanned and those for a message that was scanned before.
use sicurre.Prelude.{ℕ, Bool, ◌&&◌, ◌||◌, Option, none, some, ◌==◌, if◌then◌else◌, leb}
use sicurre.Prelude.Text.{Text, codes, text_eq, or_else}
use sicurre.Prelude.Http.{Reply, ok, reject}
use sicurre.Quarantine.Item.{QuarantineItem}
use sicurre.Scan.Journal.{Verdict, safe, quarantine, InferenceEvent}
use sicurre.Scan.Decision.{one}

pub record EmailScanResponse : Type 0 where
  pub event_id : ℕ
  pub verdict : Verdict
  pub label : Text
  pub score : ℕ
  pub explanation : Text
  pub quarantine_id : Option ℕ
  pub latency_ms : Option ℕ

abbrev is_label : Text → Bool
is_label t =
    text_eq t (codes "phishing") || (text_eq t (codes "spam") || text_eq t (codes "legitimate"))

abbrev pub is_valid : Text → ℕ → Bool
is_valid label score = is_label label && leb score one

-- FastAPI checks the response: a label that is none of the three, or a score above one, is an error.
unfoldable pub validated : EmailScanResponse → Reply EmailScanResponse
validated r = if is_valid r.label r.score then ok r else reject 500 "Internal Server Error"

unfoldable pub unscanned : ℕ → Text → EmailScanResponse
unscanned event_id explanation = record {
  event_id = event_id;
  verdict = safe;
  label = codes "legitimate";
  score = 0;
  explanation = explanation;
  quarantine_id = none;
  latency_ms = none;
}

unfoldable pub outside_note : Text
outside_note = codes "Recipient outside the connected domain; delivered without scanning."

unfoldable pub notification_note : Text
notification_note =
    codes "Sicurre notification signed by mail.sicurre.com; delivered without scanning."

unfoldable pub held_response : QuarantineItem → EmailScanResponse
held_response r = record {
  event_id = r.message_id;
  verdict = quarantine;
  label = r.safety_verdict;
  score = r.composite_score;
  explanation = codes "Existing idempotent quarantine decision.";
  quarantine_id = some r.id;
  latency_ms = none;
}

unfoldable pub known_response : InferenceEvent → EmailScanResponse
known_response e = record {
  event_id = e.id;
  verdict = e.safety_verdict;
  label = e.label_verdict;
  score = e.composite_score;
  explanation = or_else e.explanation (codes "Existing idempotent decision.");
  quarantine_id = none;
  latency_ms = if e.latency_ms == 0 then none else some e.latency_ms;
}
