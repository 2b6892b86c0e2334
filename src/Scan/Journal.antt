-- ===== src/Scan/Journal.antt =====
-- The audit journal, app_inference_event (src/db/models/app_runtime.py), and the statement that
-- scan_email of src/data_platform/api/routers/email_scan.py writes it with. Scores are in millionths.
-- The columns that always hold the same value (context, inference_source, expected_label) and the
-- member of the integration are left out.
pub mod Merging
use sicurre.Prelude.{
  ℕ, Bool, true, false, not, Option, none, some, List, [], ◌∷◌, ◌++◌, ◌==◌, if◌then◌else◌, is_some,
}
use sicurre.Prelude.Lists.{find}
use sicurre.Prelude.Table.{update}
use sicurre.Prelude.Text.{Text, codes}
use sicurre.Prelude.Json.{Json}

pub data Verdict : Type 0 where
  safe phishing quarantine : Verdict

pub record InferenceEvent : Type 0 where
  pub id : ℕ
  pub created_at : ℕ
  pub user_email : Text
  pub workspace_id : ℕ
  pub domain : Text
  pub subject : Text
  pub sender : Text
  pub snippet : Text
  pub safety_verdict : Verdict
  pub label_verdict : Text
  pub composite_score : ℕ
  pub is_phishing : Bool
  pub delivered_in_smail : Bool
  pub llm_provider : Text
  pub explanation : Text
  pub latency_ms : ℕ
  pub used_llm : Bool
  pub used_virustotal : Bool
  pub stage_scores : Json
  pub stage_labels : Json
  pub stage_breakdown : Json
  pub model_version : Option Text
  pub model_revision : Option Text

pub record Alert : Type 0 where
  pub id : ℕ
  pub workspace_id : ℕ
  pub domain : Text
  pub event_type : Text
  pub title : Text
  pub is_dismissed : Bool
  pub created_at : ℕ

-- safety_verdict IN ('phishing', 'quarantine')
abbrev pub is_blocked : Verdict → Bool
is_blocked safe = false
is_blocked phishing = true
is_blocked quarantine = true

abbrev pub has_id : ℕ → InferenceEvent → Bool
has_id id r = r.id == id

-- DO UPDATE SET ...
abbrev pub excluded_row : InferenceEvent → InferenceEvent → InferenceEvent
excluded_row e r = record r {
  safety_verdict = e.safety_verdict;
  label_verdict = e.label_verdict;
  composite_score = e.composite_score;
  is_phishing = e.is_phishing;
  subject = e.subject;
  sender = e.sender;
  snippet = e.snippet;
  explanation = e.explanation;
  llm_provider = e.llm_provider;
  latency_ms = e.latency_ms;
  model_version = e.model_version;
  model_revision = e.model_revision;
}

-- ... WHERE app_inference_event.safety_verdict NOT IN ('phishing', 'quarantine')
abbrev pub overwrite : InferenceEvent → InferenceEvent → InferenceEvent
overwrite e r = if is_blocked r.safety_verdict then r else excluded_row e r

-- INSERT ... ON CONFLICT(id) DO UPDATE
unfoldable pub upsert_event : InferenceEvent → List InferenceEvent → List InferenceEvent
upsert_event e rows =
    if is_some (find (has_id e.id) rows)
    then update (has_id e.id) (overwrite e) rows
    else rows ++ (e ∷ [])

abbrev pub masked : Text
masked = codes "[Masqué par Sicurre]"
