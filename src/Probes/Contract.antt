-- ===== src/Probes/Contract.antt =====
-- A classifier that refuses the service's key is never reported as healthy.
use sicurre.Prelude.{
  ℕ, ◌≡◌, refl, false, ◌||◌, Option, none, some, List, [], ◌∷◌, ◌++◌, ◌==◌, arith, ==_iff, if_cases,
}
use sicurre.Prelude.Lists.{All, any}
use sicurre.Prelude.Text.{Text, codes, is_empty}
use sicurre.Probes.{
  ProbeStatus, ok, degraded, unknown, down, Fetched, answered, unreachable, Client, Component,
  component_rollup, is_down, is_degraded, is_unknown, classifier_base, probed_endpoint,
  given_verdict, text_of, contract_of, probe_inference_contract, probe_inference_runtime,
}

-- An answer with the status 200.
abbrev pub Succeeds : Fetched → Type 0
Succeeds (unreachable exc) = ⊥
Succeeds (answered code latency verdict) = code ≡ 200

-- An answer with the status 200 and a verdict that is not empty.
abbrev pub Classifies : Fetched → Type 0
Classifies (unreachable exc) = ⊥
Classifies (answered code latency verdict) =
    (code ≡ 200) × ((t : Text) × (verdict ≡ some t) × (is_empty t ≡ false))

module _ (client : Client) where
  given_verdict-ok :
      (url verdict : Text) (latency : ℕ)
      → (given_verdict client url latency verdict).status ≡ ok
      → is_empty verdict ≡ false
  unfolding given_verdict
  given_verdict-ok url verdict latency h = ground arith

  some_text :
      (verdict : Option Text)
      → is_empty (text_of verdict) ≡ false
      → (t : Text) × (verdict ≡ some t) × (is_empty t ≡ false)
  some_text none h = absurd cc
  some_text (some t) h = (t, refl, h)

  contract_of-ok :
      (url : Text) (f : Fetched) → (contract_of client url f).status ≡ ok → Classifies f
  unfolding contract_of
  contract_of-ok url (unreachable exc) = λ h. absurd cc
  contract_of-ok url (answered code latency verdict) =
      if_cases (λ (c : Component). c.status ≡ ok → Classifies (answered code latency verdict))
        (code == 401 || code == 403) (λ _ h. absurd cc)
        (λ _.
          if_cases (λ (c : Component). c.status ≡ ok → Classifies (answered code latency verdict))
            (code == 200)
            (λ e h. (
              (==_iff code 200).0 e,
              some_text verdict (given_verdict-ok url (text_of verdict) latency h),
            ))
            (λ _ h. absurd cc))

  probe_inference_contract-ok :
      (url key : Text)
      → (probe_inference_contract client url key).status ≡ ok
      → (is_empty key ≡ false) × Classifies (client.post url (some key))
  unfolding probe_inference_contract
  probe_inference_contract-ok url key =
      if_cases
        (λ (c : Component).
          c.status ≡ ok → (is_empty key ≡ false) × Classifies (client.post url (some key)))
        (is_empty key) (λ _ h. absurd cc)
        (λ a h. (a, contract_of-ok url (client.post url (some key)) h))

  probed_endpoint-ok :
      (name url : Text) (f : Fetched) → (probed_endpoint client name url f).status ≡ ok → Succeeds f
  unfolding probed_endpoint
  probed_endpoint-ok name url (unreachable exc) h = absurd cc
  probed_endpoint-ok name url (answered code latency verdict) h = ground arith

is_ok :
    (s : ProbeStatus) → is_down s ≡ false → is_degraded s ≡ false → is_unknown s ≡ false → s ≡ ok
is_ok ok a b c = refl
is_ok degraded a b c = absurd cc
is_ok unknown a b c = absurd cc
is_ok down a b c = absurd cc

abbrev AllOk : List Component → Type 0
AllOk = All (λ (c : Component). c.status ≡ ok)

none_marked :
    (cs : List Component)
    → any (λ c. is_down c.status) cs ≡ false
    → any (λ c. is_degraded c.status) cs ≡ false
    → any (λ c. is_unknown c.status) cs ≡ false
    → AllOk cs
none_marked [] a b c = tt
none_marked (x ∷ cs) a b c = (
  is_ok x.status (ground arith) (ground arith) (ground arith),
  none_marked cs (ground arith) (ground arith) (ground arith),
)

component_rollup-ok : (cs : List Component) → component_rollup cs ≡ ok → AllOk cs
unfolding component_rollup
component_rollup-ok cs h = none_marked cs (ground arith) (ground arith) (ground arith)

module _ (client : Client) where
  -- If the health page is ok, whatever its other components are, then the classifier has a URL and a
  -- key, its health and readiness endpoints were answered with the status 200, and so was an
  -- authenticated classification, with a verdict that is not empty.
  pub healthy_only_if_classifying :
      (url key : Text) (others : List Component)
      → component_rollup (probe_inference_runtime client url key ++ others) ≡ ok
      → (is_empty url ≡ false)
        × (is_empty key ≡ false)
        × Succeeds (client.get (classifier_base url ++ codes "/v1/health"))
        × Succeeds (client.get (classifier_base url ++ codes "/v1/ready"))
        × Classifies (client.post url (some key))
  unfolding probe_inference_runtime
  healthy_only_if_classifying url key others h =
      if_cases
        (λ (cs : List Component).
          AllOk (cs ++ others)
          → (is_empty url ≡ false)
            × (is_empty key ≡ false)
            × Succeeds (client.get (classifier_base url ++ codes "/v1/health"))
            × Succeeds (client.get (classifier_base url ++ codes "/v1/ready"))
            × Classifies (client.post url (some key)))
        (is_empty url) (λ _ (x, rest). absurd cc)
        (λ a (x, (y, (z, rest))).
          let (k, c) = probe_inference_contract-ok client url key z in
          (
            a,
            k,
            probed_endpoint-ok client _ _ (client.get (classifier_base url ++ codes "/v1/health"))
                x,
            probed_endpoint-ok client _ _ (client.get (classifier_base url ++ codes "/v1/ready")) y,
            c,
          ))
        (component_rollup-ok _ h)
