-- ===== src/Gateway/Provisioning.antt =====
-- provision: the whole sequence that connects a domain. The generated secret, its hash and the
-- configured ingest key are arguments.
use sicurre.Prelude.{
  ℕ, Bool, true, false, not, ◌&&◌, ◌||◌, Option, none, some, List, [], ◌∷◌, ◌++◌, ◌==◌,
  if◌then◌else◌,
}
use sicurre.Prelude.Lists.{any, find, take}
use sicurre.Prelude.Text.{Text, codes, text_eq, same_name}
use sicurre.Gateway.{
  Answer, returned, failed, Done, RuleAction, Rule, Address, Cloudflare, World, issue, ◌>>=◌,
}
use sicurre.Gateway.Routing.{enable_email_routing}
use sicurre.Gateway.Rules.{
  conflicts, create_destination_address, deploy_email_worker, create_email_routing_rule,
}
use sicurre.Gateway.Zone.{get_zone}
pub mod Interception

pub record ProvisioningResult : Type 0 where
  pub zone_id : Text
  pub zone_name : Text
  pub account_id : Text
  pub worker_name : Text
  pub rule_id : Text
  pub destination_email : Text
  pub shared_secret_hash : ℕ
  pub shared_secret_plain : Text
  pub destination_verified : Bool

-- The destination of the first forward among a rule's actions.
unfoldable pub forward_of : List RuleAction → Option Text
forward_of [] = none
forward_of (a ∷ rest) =
    let later = forward_of rest in
    if text_eq a.type (codes "forward") then elim a.value [ [] ↦ later | v ∷ _ ↦ some v ] else later

abbrev or_else_text : Option Text → Text → Text
or_else_text none t = t
or_else_text (some u) t = u

-- The address's rules, in order; the last one that forwards it decides.
unfoldable pub forwarded : Text → List Rule → Text → Text
unfolding forward_of
forwarded target [] current = current
forwarded target (r ∷ rs) current = forwarded target rs (
    if any (conflicts target) r.matchers
    then or_else_text (forward_of r.actions) current
    else current)

unfoldable pub from_rules : Text → Answer (List Rule) → Text
unfolding forwarded
from_rules target (failed _) = target
from_rules target (returned rules) = forwarded target rules target

abbrev is_verified : Address → Bool
is_verified a = text_eq a.status (codes "verified")

abbrev email_or : Option Address → Text → Text
email_or none t = t
email_or (some a) t = a.email

unfoldable pub from_verified : Text → Answer (List Address) → Text
from_verified current (failed _) = current
from_verified current (returned addresses) = email_or (find is_verified addresses) current

unfoldable pub actual_forward_to : Text → Answer (List Rule) → Answer (List Address) → Text
unfolding from_rules from_verified
actual_forward_to target rules addresses =
    let resolved = from_rules target rules in
    if same_name resolved target then from_verified resolved addresses else resolved

abbrev verified_or_not : Option Address → Bool
verified_or_not none = false
verified_or_not (some a) = is_verified a

unfoldable pub destination_verified : Text → Answer (List Address) → Bool
destination_verified email (failed _) = false
destination_verified email (returned addresses) =
    verified_or_not (find (λ a. same_name a.email email) addresses)

unfoldable pub gateway_worker : Text → Text
gateway_worker zone_id = codes "sicurre-gw-" ++ take 8 zone_id

module _ (cf : Cloudflare) (secret : Text) (sha256_text : Text → ℕ) (ingest_key : Text)
    (zone_name destination_email scan_url : Text) where
  unfoldable pub result_of : Text → Text → Text → Text → Answer (List Address) → ProvisioningResult
  unfolding destination_verified
  result_of zone_id account_id forward_to rule_id addresses = record {
    zone_id = zone_id;
    zone_name = zone_name;
    account_id = account_id;
    worker_name = gateway_worker zone_id;
    rule_id = rule_id;
    destination_email = forward_to;
    shared_secret_hash = sha256_text secret;
    shared_secret_plain = secret;
    destination_verified = destination_verified forward_to addresses;
  }

  -- Steps 3 to 6, for the destination that was resolved.
  unfoldable pub connect : Text → Text → Text → World cf → Answer ProvisioningResult × World cf
  unfolding result_of
  connect zone_id account_id forward_to w =
      create_destination_address cf account_id forward_to w
      >>= (λ _.
          deploy_email_worker cf account_id (gateway_worker zone_id) scan_url secret forward_to
            ingest_key false)
      >>= (λ _. create_email_routing_rule cf zone_id (gateway_worker zone_id) destination_email)
      >>= λ rule_id v. (
        returned (result_of zone_id account_id forward_to rule_id (cf.addresses account_id v.0)),
        v,
      )

  unfoldable pub connect_zone : Text × Text → World cf → Answer ProvisioningResult × World cf
  unfolding connect
  connect_zone (zone_id, account_id) w = enable_email_routing cf zone_id w >>= λ _ v.
      connect zone_id account_id
        (actual_forward_to destination_email (cf.rules zone_id v.0) (cf.addresses account_id v.0)) v

  unfoldable pub provision : World cf → Answer ProvisioningResult × World cf
  unfolding connect_zone
  provision w = get_zone cf zone_name w >>= connect_zone
