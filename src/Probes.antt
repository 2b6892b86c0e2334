-- ===== src/Probes.antt =====
-- The probes of the health page: src/data_platform/services/runtime_probes.py. The HTTP client and
-- the printing of a number are parameters; a setting that is not made is the empty text. The body
-- of an answer is a JSON object or no JSON.
pub mod Contract
mod Tests
use sicurre.Prelude.{
  ℕ, Bool, true, false, ◌||◌, Option, none, some, List, [], ◌∷◌, ◌++◌, ◌==◌, if◌then◌else◌,
}
use sicurre.Prelude.Lists.{any, take}
use sicurre.Prelude.Text.{Text, codes, is_empty, starts_with, rstrip_chars, or_else}

pub data ProbeStatus : Type 0 where
  ok : ProbeStatus
  degraded : ProbeStatus
  unknown : ProbeStatus
  down : ProbeStatus

-- The result of _runtime_status.
pub record Component : Type 0 where
  pub component : Text
  pub status : ProbeStatus
  pub message : Text
  pub detail : Option Text
  pub checked_url : Option Text
  pub latency_ms : Option ℕ

-- What a request came to: an answer, or the text of an exception.
pub data Fetched : Type 0 where
  answered : (status_code latency : ℕ) (verdict : Option Text) → Fetched
  unreachable : (exc : Text) → Fetched

-- The client: a GET of a URL, and a POST with the headers' bearer token, if there is one.
pub record Client : Type 0 where
  pub get : Text → Fetched
  pub post : Text → Option Text → Fetched
  pub str : ℕ → Text

abbrev pub is_down : ProbeStatus → Bool
is_down down = true
is_down degraded = false
is_down unknown = false
is_down ok = false

abbrev pub is_degraded : ProbeStatus → Bool
is_degraded degraded = true
is_degraded down = false
is_degraded unknown = false
is_degraded ok = false

abbrev pub is_unknown : ProbeStatus → Bool
is_unknown unknown = true
is_unknown down = false
is_unknown degraded = false
is_unknown ok = false

unfoldable pub component_rollup : List Component → ProbeStatus
component_rollup components =
    if any (λ c. is_down c.status) components
    then down
    else if any (λ c. is_degraded c.status) components
    then degraded
    else if any (λ c. is_unknown c.status) components
    then unknown
    else ok

abbrev pub slash : ℕ → Bool
slash c = c == 47

-- The text before the last occurrence of `sep`.
unfoldable pub before_last : Text → Text → Option Text
before_last sep [] = none
before_last sep (c ∷ t) = elim (before_last sep t) [
  | some p ↦ some (c ∷ p)
  | none ↦ if starts_with sep (c ∷ t) then some [] else none
]

-- rsplit("/v1/classify", 1)[0].rstrip("/")
unfoldable pub classifier_base : Text → Text
unfolding before_last
classifier_base url =
    rstrip_chars slash (elim (before_last (codes "/v1/classify") url) [ some p ↦ p | none ↦ url ])

abbrev pub text_of : Option Text → Text
text_of none = []
text_of (some t) = t

module _ (client : Client) where
  unfoldable pub probed_endpoint : Text → Text → Fetched → Component
  probed_endpoint name url (answered code latency _) = record {
    component = name;
    status = if code == 200 then ok else degraded;
    message = client.str code ++ codes " response from deployed classifier.";
    detail = none;
    checked_url = some url;
    latency_ms = some latency;
  }
  probed_endpoint name url (unreachable exc) = record {
    component = name;
    status = down;
    message = codes "Classifier endpoint is unreachable.";
    detail = some (take 220 exc);
    checked_url = some url;
    latency_ms = none;
  }

  abbrev pub contract : Text → ProbeStatus → Text → Option Text → Option ℕ → Component
  contract url status message detail latency = record {
    component = codes "inference_contract";
    status = status;
    message = message;
    detail = detail;
    checked_url = some url;
    latency_ms = latency;
  }

  unfoldable pub given_verdict : Text → ℕ → Text → Component
  given_verdict url latency verdict =
      if is_empty verdict
      then contract url degraded (codes "Classifier answered without a verdict.")
          (some (codes "HTTP 200 but the response carries no verdict field.")) (some latency)
      else contract url ok (codes "Authenticated classification returned a verdict.")
          (some (codes "verdict=" ++ verdict)) (some latency)

  unfoldable pub contract_of : Text → Fetched → Component
  unfolding given_verdict
  contract_of url (unreachable exc) =
      contract url down (codes "Authenticated classification probe could not reach the classifier.")
        (some (take 220 exc)) none
  contract_of url (answered code latency verdict) =
      if code == 401 || code == 403
      then contract url down (codes "Classifier rejected the API credentials.")
          (some (
            codes "HTTP "
            ++ client.str code
            ++ codes
                ". The key is present but not accepted; health and readiness stay green because they need no credentials."))
          (some latency)
      else if code == 200
      then given_verdict url latency (text_of verdict)
      else contract url degraded
          (codes "Authenticated probe returned HTTP " ++ client.str code ++ codes ".") none
          (some latency)

  unfoldable pub probe_inference_contract : Text → Text → Component
  unfolding contract_of
  probe_inference_contract url key =
      if is_empty key
      then contract url down (codes "SICURRE_INFERENCE_API_KEY is not configured.")
          (some (codes "The classifier is reachable but the API would send an empty bearer token."))
          none
      else contract_of url (client.post url (some key))

  unfoldable pub probe_inference_runtime : Text → Text → List Component
  unfolding classifier_base probed_endpoint probe_inference_contract
  probe_inference_runtime url key =
      let health_url = classifier_base url ++ codes "/v1/health" in
      let ready_url = classifier_base url ++ codes "/v1/ready" in
      if is_empty url
      then record {
        component = codes "inference_api";
        status = down;
        message = codes "SICURRE_INFERENCE_API_URL is not configured.";
        detail = none;
        checked_url = none;
        latency_ms = none;
      }
        ∷ []
      else probed_endpoint (codes "inference_health") health_url (client.get health_url)
        ∷ probed_endpoint (codes "inference_ready") ready_url (client.get ready_url)
        ∷ probe_inference_contract url key
        ∷ []

  unfoldable pub probed_app : Text → Fetched → Component
  probed_app url (answered code latency _) = record {
    component = codes "public_app_health";
    status = if code == 200 then ok else down;
    message = client.str code ++ codes " response from public Sicurre app API.";
    detail = none;
    checked_url = some url;
    latency_ms = some latency;
  }
  probed_app url (unreachable exc) = record {
    component = codes "public_app_health";
    status = down;
    message = codes "Public Sicurre app API health endpoint is unreachable.";
    detail = some (take 220 exc);
    checked_url = some url;
    latency_ms = none;
  }

  unfoldable pub probed_gateway : Text → Fetched → Component
  probed_gateway url (answered code latency _) = record {
    component = codes "email_scan_gateway";
    status = if code == 401 then ok else down;
    message =
        if code == 401
        then codes "Scan gateway exists and rejected the probe without Worker secret."
        else client.str code
          ++ codes " response from scan gateway; expected 401 without Worker secret.";
    detail = none;
    checked_url = some url;
    latency_ms = some latency;
  }
  probed_gateway url (unreachable exc) = record {
    component = codes "email_scan_gateway";
    status = down;
    message = codes "Worker scan gateway is unreachable.";
    detail = some (take 220 exc);
    checked_url = some url;
    latency_ms = none;
  }

  unfoldable pub probe_public_app_runtime : Text → Text → List Component × Option Text
  unfolding probed_app probed_gateway
  probe_public_app_runtime public_api_url probe_base_url =
      let base_url = rstrip_chars slash public_api_url in
      let probe_base = rstrip_chars slash (or_else probe_base_url base_url) in
      let probe_scan_url = probe_base ++ codes "/v1/email/scan" in
      let health_url = probe_base ++ codes "/health" in
      if is_empty public_api_url
      then (
        record {
          component = codes "public_app_api";
          status = down;
          message = codes "SICURRE_PUBLIC_API_URL is not configured.";
          detail = none;
          checked_url = none;
          latency_ms = none;
        }
            ∷ [],
        none,
      )
      else (
        probed_app health_url (client.get health_url)
            ∷ probed_gateway probe_scan_url (client.post probe_scan_url none)
            ∷ [],
        some (base_url ++ codes "/v1/email/scan"),
      )
