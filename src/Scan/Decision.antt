-- ===== src/Scan/Decision.antt =====
-- How scan_email of src/data_platform/api/routers/email_scan.py reaches a verdict: a workspace rule, or
-- the answer of the inference service. The service and Python's `str`, `float` and `dict` on parsed
-- JSON are arguments.
use sicurre.Prelude.{ℕ, Bool, true, false, Option, none, some, if◌then◌else◌}
use sicurre.Prelude.Text.{Text, codes, is_empty, lower, strip}
use sicurre.Prelude.Http.{Reply, ok, reject}
use sicurre.Prelude.Json.{
  Json, Fields, bool, num, str, obj, end, field, get, truthy, is_obj, str_of, str_or_empty,
}
use sicurre.Database.{RuleType, whitelist, blocklist}
use sicurre.Scan.Journal.{Verdict, safe, phishing}

pub record EmailScanRequest : Type 0 where
  pub message_id : Option Text
  pub subject : Text
  pub sender : Text
  pub recipient : Text
  pub text : Text
  pub use_llm : Bool
  pub use_virustotal : Bool

-- The answer of the inference service: an httpx.HTTPError, a body that is no JSON (a ValueError), or
-- a parsed body with the headers that name the model.
pub data Answer : Type 0 where
  unavailable malformed : Answer
  answered : Json → Text → Text → Answer

-- `none` is a ValueError or a TypeError. Numbers are scaled by a million.
pub record Python : Type 0 where
  pub print : Json → Text
  pub to_float : Json → Option ℕ
  pub to_dict : Json → Option Fields

pub record Decision : Type 0 where
  pub safety : Verdict
  pub label : Text
  pub score : ℕ
  pub explanation : Text
  pub llm_provider : Text
  pub stage_scores : Fields
  pub stage_labels : Fields
  pub stage_breakdown : Fields
  pub model_version : Option Text
  pub model_revision : Option Text

abbrev pub one : ℕ
one = 1000000

abbrev single : Text → Json → Fields
single k v = field k v end

abbrev put_last : Text → Json → Fields → Fields
put_last k v end = field k v end
put_last k v (field j u fs) = field j u (put_last k v fs)

abbrev custom_rule : Text
custom_rule = codes "custom_rule"

unfoldable pub blocked : Decision
blocked = record {
  safety = phishing;
  label = codes "phishing";
  score = one;
  explanation = codes "Blocked by custom security blocklist rule.";
  llm_provider = codes "";
  stage_scores = single custom_rule (num one);
  stage_labels = single custom_rule (str (codes "phishing"));
  stage_breakdown = single custom_rule (
      obj (
        field (codes "active") (bool true)
          (field (codes "rule_type") (str (codes "blocklist")) end)));
  model_version = none;
  model_revision = none;
}

abbrev whitelist_note : Json
whitelist_note = obj (
    field (codes "active") (bool true) (
      field (codes "rule_type") (str (codes "whitelist"))
        (field (codes "effect") (str (codes "recipient_expected")) end)))

abbrev non_empty : Text → Option Text
non_empty t = if is_empty t then none else some t

abbrev unavailable_reply : Reply Decision
unavailable_reply = reject 503 "Inference service is temporarily unavailable"

abbrev pub expected : Option RuleType → Bool
expected (some whitelist) = true
expected _ = false

module _ (py : Python) where
  -- float(v or 0.0)
  abbrev float_or_zero : Json → Option ℕ
  float_or_zero v = if truthy v then py.to_float v else some 0

  -- dict(v or {})
  abbrev dict_or_empty : Json → Option Fields
  dict_or_empty v = if truthy v then py.to_dict v else some end

  abbrev label_of : Json → Bool → Text
  label_of v is_phishing = lower (
      if truthy v
      then str_of py.print v
      else codes (if is_phishing then "phishing" else "legitimate"))

  unfoldable decided :
      Bool
      → Json
      → Text
      → Text
      → Option ℕ
      → Option Fields
      → Option Fields
      → Option Fields
      → Reply Decision
  decided noted body version revision (some score) (some scores) (some labels) (some breakdown) =
      let is_phishing = truthy (get "is_phishing" body) in
      ok (record {
        safety = if is_phishing then phishing else safe;
        label = label_of (get "label_verdict" body) is_phishing;
        score = score;
        explanation = str_or_empty py.print (get "explanation" body);
        llm_provider = str_or_empty py.print (get "llm_provider" body);
        stage_scores = scores;
        stage_labels = labels;
        stage_breakdown =
            if noted then put_last custom_rule whitelist_note breakdown else breakdown;
        model_version = non_empty (strip version);
        model_revision = non_empty (strip revision);
      })
  decided _ _ _ _ _ _ _ _ = unavailable_reply

  -- A body that is no object has no `get`: an AttributeError, which scan_email does not catch.
  unfoldable pub read_answer : Bool → Answer → Reply Decision
  unfolding decided
  read_answer noted unavailable = unavailable_reply
  read_answer noted malformed = unavailable_reply
  read_answer noted (answered body version revision) =
      if is_obj body
      then decided noted body version revision (float_or_zero (get "composite_score" body))
          (dict_or_empty (get "stage_scores" body)) (dict_or_empty (get "stage_labels" body))
          (dict_or_empty (get "stage_breakdown" body))
      else reject 500 "Internal Server Error"

  -- The service is asked about the message, and told whether the recipient expects it.
  unfoldable pub decide :
      (EmailScanRequest → Bool → Answer) → EmailScanRequest → Option RuleType → Reply Decision
  unfolding read_answer blocked
  decide classify payload (some blocklist) = ok blocked
  decide classify payload (some whitelist) = read_answer true (classify payload true)
  decide classify payload none = read_answer false (classify payload false)
