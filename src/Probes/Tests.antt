-- ===== src/Probes/Tests.antt =====
-- Probes on concrete answers.
use sicurre.Prelude.{◌≡◌, refl, false, none, some, List, [], ◌∷◌, ◌++◌, if◌then◌else◌}
use sicurre.Prelude.Text.{Text, codes, is_empty, text_eq}
use sicurre.Probes.{
  down, answered, Client, Component, component_rollup, classifier_base, probe_inference_runtime,
  probe_public_app_runtime,
}
use sicurre.Probes.Contract.{Succeeds, Classifies, healthy_only_if_classifying}

abbrev url : Text
url = codes "https://m.fr//v1/classify"

-- A classifier that accepts one key only, and the gateway of the application.
abbrev client : Client
client = record {
  get = λ _. answered 200 12 none;
  post = λ _ key. elim key [
    | none ↦ answered 401 3 none
    | some k ↦
        if text_eq k (codes "key")
        then answered 200 40 (some (codes "phishing"))
        else answered 401 5 none
  ];
  str = λ _. codes "n";
}

base_of_url : classifier_base url ≡ codes "https://m.fr"
unfolding classifier_base sicurre.Prelude.Text.rstrip_chars
base_of_url = refl

-- Health and readiness are ok, the key is refused.
refused_key : component_rollup (probe_inference_runtime client url (codes "old")) ≡ down
unfolding component_rollup probe_inference_runtime
refused_key = refl

abbrev app : List Component
app = (probe_public_app_runtime client (codes "https://api/") []).0

healthy_only_if_classifying_example :
    (is_empty url ≡ false)
    × (is_empty (codes "key") ≡ false)
    × Succeeds (client.get (classifier_base url ++ codes "/v1/health"))
    × Succeeds (client.get (classifier_base url ++ codes "/v1/ready"))
    × Classifies (client.post url (some (codes "key")))
unfolding component_rollup probe_inference_runtime probe_public_app_runtime
healthy_only_if_classifying_example = healthy_only_if_classifying client url (codes "key") app refl
