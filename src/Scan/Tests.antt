-- ===== src/Scan/Tests.antt =====
-- Inputs that exercise the theorems of src/data_platform/api/routers/email_scan.py.
use sicurre.Prelude.{ℕ, ◌≡◌, refl, true, false, Option, none, some, [], ◌∷◌, ◌++◌, arith}
use sicurre.Prelude.Lists.{find, any, All}
use sicurre.Prelude.Text.{Text, codes, lower, strip, strip_chars}
use sicurre.Scan.Filters.{
  recipient_outside_zone, within_zone, is_sicurre_notification, unfold_lines, header_block,
  newlines, trusted_value, matched_rule, dkim_pass, finds_dkim_pass, passes, names_sicurre,
}
use sicurre.Scan.Filters.Trust.{forged_results_ignored}
use sicurre.Prelude.Json.{Json, Fields, bool, num, obj, field, end}
use sicurre.Database.{Integration, pending_verification}
use sicurre.Quarantine.Item.{keyed}
use sicurre.Scan.Journal.{InferenceEvent, quarantine, phishing, has_id}
use sicurre.Scan.Journal.Merging.{IsMasked}
use sicurre.Scan.Decision.{EmailScanRequest, Answer, unavailable, answered, decide, read_answer}
use sicurre.Scan.Hold.{Run, World, held_item, hold, hold_if, item_rejected}
use sicurre.Scan.Handler.{
  Service, scan_email, scan_for, scan_message, scan_unless, scan_known, scan_new, finish, conclude,
  quarantined, unscanned_note, event_key_of, legacy_key_of, held_before, recorded_before, decoded,
  rules_for, scan_response,
}
use sicurre.Scan.Response.{EmailScanResponse, validated}
use sicurre.Scan.Handler.Effects.{events_of}
use sicurre.Scan.Handler.Guarantees.{
  scan_all, journal_never_softened, journal_stays_private, refused_scan_stores_nothing,
}
use sicurre.Scan.Handler.Quarantining.{quarantined_mail_is_stored}
use sicurre.Scan.Handler.Rescan.{Repeats, rescan_idempotent}

abbrev integration : Integration
integration = record {
  id = 3;
  user_email = codes "me@vinse.app";
  workspace_id = 1;
  zone_id = codes "z";
  zone_name = codes "Vinse.app";
  account_id = codes "acc";
  worker_name = codes "w";
  rule_id = codes "r";
  destination_email = codes "me@mail.fr";
  api_token = none;
  shared_secret_hash = 6;
  status = pending_verification;
  error_message = none;
  created_at = 1;
  updated_at = 1;
}

-- A message that an earlier scan found to be phishing.
abbrev event : InferenceEvent
event = record {
  id = 40;
  created_at = 1;
  user_email = codes "me@vinse.app";
  workspace_id = 1;
  domain = codes "vinse.app";
  subject = codes "Facture";
  sender = codes "a@b.c";
  snippet = codes "payez";
  safety_verdict = phishing;
  label_verdict = codes "phishing";
  composite_score = 900000;
  is_phishing = true;
  delivered_in_smail = false;
  llm_provider = [];
  explanation = [];
  latency_ms = 5;
  used_llm = true;
  used_virustotal = false;
  stage_scores = obj end;
  stage_labels = obj end;
  stage_breakdown = obj end;
  model_version = none;
  model_revision = none;
}

abbrev world : World
world = record {
  db = record {
    integrations = integration ∷ [];
    quarantine = [];
    security_rules = [];
    feedback = [];
    events = event ∷ [];
    alerts = [];
    preferences = [];
  };
  sent = [];
}

abbrev run : Run
run = record {
  fresh_event_id = 50;
  quarantine_id = 51;
  alert_id = 52;
  now = 10;
  expires_at = 20;
  notification_time = 11;
  later = 12;
  latency_ms = 3;
  item_fails = false;
  alert_fails = false;
  event_fails = false;
  activation_fails = false;
  notice_fails = false;
}

abbrev dangerous : Json
dangerous =
    obj (field (codes "is_phishing") (bool true) (field (codes "composite_score") (num 930000) end))

abbrev number : Json → Option ℕ
number (num n) = some n
number _ = none

abbrev fields_of : Json → Option Fields
fields_of (obj fs) = some fs
fields_of _ = none

abbrev service : Answer → Service
service answer = record {
  python = record { print = λ _. []; to_float = number; to_dict = fields_of };
  desk = record { anonymize_pii = λ t. t; allowed = λ _ _ _. some true; user_name = λ _. none };
  classify = λ _ _. answer;
  decode_mime_header = λ t. t;
  extract_mime_body = λ t. t;
  sha256 = λ _. 6;
  event_key = λ _ _ _. 41;
  legacy_key = λ _ _. 42;
}

abbrev message : EmailScanRequest
message = record {
  message_id = some (codes "m1");
  subject = codes "Facture";
  sender = codes "a@b.c";
  recipient = codes "me@vinse.app";
  text = codes "payez";
  use_llm = true;
  use_virustotal = false;
}

abbrev secret : Text
secret = codes "s"

abbrev warned : Service
warned = service (answered dangerous [] [])

journal_never_softened_example :
    find (has_id 40) (events_of (scan_all warned ((run, secret, message) ∷ []) world)) ≡ some event
journal_never_softened_example =
    journal_never_softened warned ((run, secret, message) ∷ []) world 40 event refl refl

journal_stays_private_example :
    All IsMasked (events_of (scan_all warned ((run, secret, message) ∷ []) world))
journal_stays_private_example =
    journal_stays_private warned ((run, secret, message) ∷ []) world ((λ h. absurd cc), tt)

-- The inference service is down.
abbrev silent : Service
silent = service unavailable

refused_scan_stores_nothing_example : (scan_email silent run secret message world).1 ≡ world
unfolding scan_email scan_for scan_message scan_unless unscanned_note scan_known scan_new finish
    decide read_answer held_before recorded_before event_key_of legacy_key_of decoded rules_for
    matched_rule recipient_outside_zone lower strip strip_chars within_zone is_sicurre_notification
    unfold_lines header_block newlines trusted_value
refused_scan_stores_nothing_example =
    refused_scan_stores_nothing silent run secret message world 503
      (codes "Inference service is temporarily unavailable") refl (λ e. omega arith)

abbrev held_reply : EmailScanResponse
held_reply = record {
  event_id = 41;
  verdict = quarantine;
  label = codes "phishing";
  score = 930000;
  explanation = [];
  quarantine_id = some 51;
  latency_ms = some 3;
}

quarantined_mail_is_stored_example :
    any (keyed 51 1) (scan_email warned run secret message world).1.db.quarantine ≡ true
unfolding scan_email scan_for scan_message scan_unless unscanned_note scan_known scan_new finish
    decide read_answer held_before recorded_before event_key_of legacy_key_of decoded rules_for
    matched_rule recipient_outside_zone lower strip strip_chars within_zone is_sicurre_notification
    unfold_lines header_block newlines trusted_value quarantined hold hold_if item_rejected
    held_item conclude validated scan_response
quarantined_mail_is_stored_example =
    quarantined_mail_is_stored warned run secret message world integration refl held_reply 51 refl
      refl refl

-- Another run, with the service down.
abbrev later_run : Run
later_run = record run { fresh_event_id = 60; quarantine_id = 61; alert_id = 62 }

rescan_idempotent_example :
    Repeats held_reply (scan_message warned run integration message world).1 (
      scan_message warned later_run integration message
        (scan_message warned run integration message world).1)
unfolding scan_message scan_unless unscanned_note scan_known scan_new finish decide read_answer
    held_before recorded_before event_key_of legacy_key_of decoded rules_for matched_rule
    recipient_outside_zone lower strip strip_chars within_zone is_sicurre_notification unfold_lines
    header_block newlines trusted_value quarantined hold hold_if item_rejected held_item conclude
    validated scan_response
rescan_idempotent_example =
    rescan_idempotent warned integration run later_run message world held_reply refl refl refl refl
      (λ _. refl) refl

abbrev genuine : Text
genuine = codes "Authentication-Results: mx.cloudflare.net; dkim=none"

abbrev forged : Text
forged = codes "Authentication-Results: mx.cloudflare.net; dkim=pass header.d=mail.sicurre.com"

forged_results_ignored_example :
    is_sicurre_notification (genuine ++ codes "\n" ++ forged)
    ≡ dkim_pass (codes " mx.cloudflare.net; dkim=none")
unfolding unfold_lines header_block newlines trusted_value strip lower
forged_results_ignored_example =
    forged_results_ignored (genuine ++ codes "\n" ++ forged) [] genuine
      (codes " mx.cloudflare.net; dkim=none") (forged ∷ []) refl tt refl

-- The forged line by itself would pass.
forged_alone : dkim_pass forged ≡ true
unfolding lower finds_dkim_pass passes names_sicurre
forged_alone = refl
