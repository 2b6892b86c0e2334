-- ===== src/Scan/Handler.antt =====
-- scan_email of src/data_platform/api/routers/email_scan.py: who may ask, mail that is not scanned,
-- messages that were scanned before, and the run of a scan. Hashes are arguments.
pub mod Effects
pub mod Outcomes
pub mod Rescan
pub mod Quarantining
pub mod Guarantees
use sicurre.Prelude.{
  ℕ, Bool, true, false, not, ◌&&◌, ◌||◌, Option, none, some, List, [], ◌∷◌, ◌==◌, if◌then◌else◌,
  leb,
}
use sicurre.Prelude.Lists.{find, take}
use sicurre.Prelude.Table.{select, update}
use sicurre.Prelude.Text.{Text, codes, text_eq, is_empty, lower, strip, same_name, or_else}
use sicurre.Prelude.Http.{Reply, ok, raised, reject}
use sicurre.Prelude.Json.{Fields, obj}
use sicurre.Database.{
  Db, Integration, IntegrationStatus, pending_verification, active, SecurityRule, RuleType,
}
use sicurre.Quarantine.Item.{QuarantineItem}
use sicurre.Quarantine.Custody.{holds_secret}
use sicurre.Scan.Journal.{
  Verdict, safe, phishing, quarantine, InferenceEvent, is_blocked, upsert_event, masked,
}
use sicurre.Scan.Filters.{recipient_outside_zone, is_sicurre_notification, matched_rule}
use sicurre.Scan.Decision.{EmailScanRequest, Answer, Python, Decision, decide, one}
use sicurre.Scan.Hold.{World, Run, Desk, hold}
use sicurre.Scan.Response.{
  EmailScanResponse, validated, unscanned, outside_note, notification_note, held_response,
  known_response,
}

pub record Service : Type 0 where
  pub python : Python
  pub desk : Desk
  pub classify : EmailScanRequest → Bool → Answer
  pub decode_mime_header : Text → Text
  pub extract_mime_body : Text → Text
  pub sha256 : Text → ℕ
  pub event_key : ℕ → Text → Text → ℕ
  pub legacy_key : ℕ → Text → ℕ

abbrev stripped_id : Option Text → Text
stripped_id none = []
stripped_id (some m) = strip m

-- workspace_id = ? AND lower(domain) = lower(?) AND message_id IN (?, ?)
abbrev pub holds_message : ℕ → Text → ℕ → ℕ → QuarantineItem → Bool
holds_message workspace zone event_id legacy_id r =
    r.workspace_id == workspace
    && (same_name r.domain zone && (r.message_id == event_id || r.message_id == legacy_id))

-- id IN (?, ?) AND workspace_id = ? AND lower(domain) = lower(?)
abbrev pub records_message : ℕ → Text → ℕ → ℕ → InferenceEvent → Bool
records_message workspace zone event_id legacy_id e =
    (e.id == event_id || e.id == legacy_id)
    && (e.workspace_id == workspace && same_name e.domain zone)

-- workspace_id = ? AND lower(domain) = lower(?)
abbrev rules_of : ℕ → Text → SecurityRule → Bool
rules_of workspace zone r = r.workspace_id == workspace && same_name r.domain zone

abbrev pub awaits_mail : IntegrationStatus → Bool
awaits_mail pending_verification = true
awaits_mail _ = false

abbrev activate : ℕ → Integration → Integration
activate at i = record i { status = active; updated_at = at }

module _ (service : Service) (run : Run) (i : Integration) where
  unfoldable pub event_row : EmailScanRequest → ℕ → Decision → Verdict → InferenceEvent
  event_row payload event_id d verdict = record {
    id = event_id;
    created_at = run.later;
    user_email = i.user_email;
    workspace_id = i.workspace_id;
    domain = lower i.zone_name;
    subject = if is_blocked verdict then take 240 payload.subject else masked;
    sender = if is_blocked verdict then take 200 payload.sender else masked;
    snippet = if is_blocked verdict then take 240 payload.text else masked;
    safety_verdict = verdict;
    label_verdict = d.label;
    composite_score = d.score;
    is_phishing = is_blocked d.safety;
    delivered_in_smail = not (is_blocked d.safety);
    llm_provider = d.llm_provider;
    explanation = take 500 d.explanation;
    latency_ms = run.latency_ms;
    used_llm = payload.use_llm;
    used_virustotal = payload.use_virustotal;
    stage_scores = obj d.stage_scores;
    stage_labels = obj d.stage_labels;
    stage_breakdown = obj d.stage_breakdown;
    model_version = d.model_version;
    model_revision = d.model_revision;
  }

  -- Mark integration active on first successful scan
  unfoldable pub activated : Db → Db
  activated db =
      if awaits_mail i.status && not run.activation_fails
      then record db {
        integrations = update (λ r. r.id == i.id) (activate run.later) db.integrations;
      }
      else db

  unfoldable pub persist : InferenceEvent → World → World
  persist e w =
      if run.event_fails
      then w
      else record w { db = activated (record w.db { events = upsert_event e w.db.events }) }

  unfoldable pub quarantined : EmailScanRequest → Decision → ℕ → World → Verdict × World
  quarantined payload d event_id w =
      if is_blocked d.safety then hold service.desk run i payload d event_id w else (d.safety, w)

  unfoldable pub scan_response : Decision → ℕ → Verdict → EmailScanResponse
  scan_response d event_id verdict = record {
    event_id = event_id;
    verdict = verdict;
    label = d.label;
    score = d.score;
    explanation = d.explanation;
    quarantine_id = if is_blocked d.safety then some run.quarantine_id else none;
    latency_ms = some run.latency_ms;
  }

  unfoldable pub conclude :
      EmailScanRequest → Decision → ℕ → Verdict × World → Reply EmailScanResponse × World
  unfolding event_row persist scan_response
  conclude payload d event_id (verdict, w) = (
    validated (scan_response d event_id verdict),
    persist (event_row payload event_id d verdict) w,
  )

  unfoldable pub finish :
      EmailScanRequest → ℕ → World → Reply Decision → Reply EmailScanResponse × World
  finish payload event_id w (raised n detail) = (raised n detail, w)
  finish payload event_id w (ok d) = conclude payload d event_id (quarantined payload d event_id w)

  unfoldable pub decoded : EmailScanRequest → EmailScanRequest
  decoded p = record p {
    subject = service.decode_mime_header p.subject;
    sender = service.decode_mime_header p.sender;
    text = service.extract_mime_body p.text;
  }

  unfoldable pub rules_for : Db → List SecurityRule
  rules_for db = select (rules_of i.workspace_id i.zone_name) db.security_rules

  unfoldable pub scan_new : EmailScanRequest → ℕ → World → Reply EmailScanResponse × World
  scan_new p event_id w =
      let payload = decoded p in
      finish payload event_id w (
        decide service.python service.classify payload
          (matched_rule (lower payload.sender) (rules_for w.db)))

  unfoldable pub scan_known :
      EmailScanRequest
      → ℕ
      → Option QuarantineItem
      → Option InferenceEvent
      → World
      → Reply EmailScanResponse × World
  scan_known p event_id (some r) _ w = (validated (held_response r), w)
  scan_known p event_id none (some e) w = (validated (known_response e), w)
  scan_known p event_id none none w = scan_new p event_id w

  unfoldable pub event_key_of : EmailScanRequest → ℕ
  event_key_of p =
      let message_id = stripped_id p.message_id in
      if is_empty message_id
      then run.fresh_event_id
      else service.event_key i.workspace_id (lower i.zone_name) message_id

  unfoldable pub legacy_key_of : EmailScanRequest → ℕ
  legacy_key_of p =
      let message_id = stripped_id p.message_id in
      if is_empty message_id
      then run.fresh_event_id
      else service.legacy_key i.workspace_id message_id

  unfoldable pub held_before : EmailScanRequest → World → Option QuarantineItem
  unfolding event_key_of legacy_key_of
  held_before p w =
      find (holds_message i.workspace_id i.zone_name (event_key_of p) (legacy_key_of p))
        w.db.quarantine

  unfoldable pub recorded_before : EmailScanRequest → World → Option InferenceEvent
  unfolding event_key_of legacy_key_of
  recorded_before p w =
      find (records_message i.workspace_id i.zone_name (event_key_of p) (legacy_key_of p))
        w.db.events

  -- Why a message is delivered without a scan.
  unfoldable pub unscanned_note : EmailScanRequest → Option Text
  unscanned_note p =
      if recipient_outside_zone p.recipient (lower (strip i.zone_name))
      then some outside_note
      else if is_sicurre_notification p.text
      then some notification_note
      else none

  unfoldable pub scan_unless :
      Option Text → EmailScanRequest → World → Reply EmailScanResponse × World
  scan_unless (some note) p w = (ok (unscanned run.fresh_event_id note), w)
  scan_unless none p w = scan_known p (event_key_of p) (held_before p w) (recorded_before p w) w

  unfoldable pub scan_message : EmailScanRequest → World → Reply EmailScanResponse × World
  unfolding scan_unless
  scan_message p w = scan_unless (unscanned_note p) p w

module _ (service : Service) (run : Run) where
  unfoldable pub scan_for :
      EmailScanRequest → Option Integration → World → Reply EmailScanResponse × World
  scan_for p none w = (reject 401 "Invalid shared secret", w)
  scan_for p (some i) w = scan_message service run i p w

  unfoldable pub scan_email : Text → EmailScanRequest → World → Reply EmailScanResponse × World
  scan_email secret p w =
      if is_empty secret
      then (reject 401 "Missing X-Sicurre-Secret header", w)
      else scan_for p (find (holds_secret (service.sha256 secret)) w.db.integrations) w
