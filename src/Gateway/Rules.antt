-- ===== src/Gateway/Rules.antt =====
-- The destination addresses, the routing rules and the Worker of a zone: create_destination_address,
-- deploy_email_worker, create_email_routing_rule, restore_forwarding and delete_email_rule.
pub mod Replacement
use sicurre.Prelude.{
  ℕ, Bool, true, false, not, ◌&&◌, ◌||◌, Option, none, some, List, [], ◌∷◌, ◌++◌, ◌==◌,
  if◌then◌else◌,
}
use sicurre.Prelude.Lists.{any, find}
use sicurre.Prelude.Text.{Text, codes, text_eq, is_empty, same_name, or_else}
use sicurre.Gateway.{
  Failure, Answer, returned, failed, Done, Matcher, RuleAction, Rule, Address, WorkerBinding,
  register_address, ◌>>=◌, put_worker, post_rule, remove_rule, Cloudflare, World, issue,
}

-- `str(matcher.get("value"))`
abbrev pub value_text : Option Text → Text
value_text none = codes "None"
value_text (some v) = v

-- `str(matcher.get("value", ""))`
abbrev value_or_empty : Option Text → Text
value_or_empty none = []
value_or_empty (some v) = v

unfoldable pub literal : Text
literal = codes "literal"

unfoldable pub conflicts : Text → Matcher → Bool
conflicts target m = text_eq m.type literal && same_name (value_text m.value) target

unfoldable pub routes : Text → Matcher → Bool
routes address m = text_eq m.type literal && same_name (value_or_empty m.value) address

abbrev pub to_literal : Text → Matcher
to_literal address = record { type = literal; value = some address }

abbrev pub to_worker : Text → RuleAction
to_worker name = record { type = codes "worker"; value = name ∷ [] }

abbrev pub to_forward : Text → RuleAction
to_forward email = record { type = codes "forward"; value = email ∷ [] }

-- `result.get("id") or result.get("tag") or "unknown"`
abbrev pub or_unknown : Text → Text
or_unknown id = or_else id (codes "unknown")

abbrev plain_text : Text → Text → WorkerBinding
plain_text name text = record { type = codes "plain_text"; name = name; text = text }

abbrev secret_text : Text → Text → WorkerBinding
secret_text name text = record { type = codes "secret_text"; name = name; text = text }

-- The bindings that a deployment sends.
unfoldable pub worker_bindings : Text → Text → Text → Text → Bool → List WorkerBinding
worker_bindings scan_url shared_secret forward_to ingest_key scan_disabled =
    (plain_text (codes "SICURRE_SCAN_URL") scan_url
      ∷ secret_text (codes "SICURRE_SHARED_SECRET") shared_secret
      ∷ plain_text (codes "FORWARD_TO") forward_to
      ∷ [])
    ++ (if scan_disabled
        then plain_text (codes "SICURRE_SCAN_DISABLED") (codes "true") ∷ []
        else [])
    ++ (if is_empty ingest_key
        then []
        else secret_text (codes "SICURRE_REPORTED_EMAIL_INGEST_KEY") ingest_key ∷ [])

-- The rules that a target's own rule would conflict with, once for each matcher.
unfoldable pub conflicts_of : Text → Text → List Matcher → List Text
unfolding conflicts
conflicts_of target id [] = []
conflicts_of target id (m ∷ ms) =
    let ids = conflicts_of target id ms in if conflicts target m then id ∷ ids else ids

unfoldable pub conflicting : Text → List Rule → List Text
unfolding conflicts_of
conflicting target [] = []
conflicting target (r ∷ rs) = conflicts_of target r.id r.matchers ++ conflicting target rs

module _ (cf : Cloudflare) where
  -- The tag of the address, which is registered when it is not yet known.
  unfoldable pub registered : Text → Text → Option Address → World cf → Answer Text × World cf
  registered account_id email (some a) w = (returned a.tag, w)
  registered account_id email none w = issue cf (register_address account_id email) w >>= λ tag w'.
      (returned (or_else tag email), w')

  unfoldable pub create_destination_address : Text → Text → World cf → Answer Text × World cf
  unfolding registered
  create_destination_address account_id email (s, log) =
      (cf.addresses account_id s, (s, log)) >>= λ known.
      registered account_id email (find (λ a. same_name a.email email) known)

  unfoldable pub deploy_email_worker :
      Text → Text → Text → Text → Text → Text → Bool → World cf → Answer Done × World cf
  deploy_email_worker account_id worker_name scan_url shared_secret forward_to ingest_key
        scan_disabled w =
      issue cf
        (put_worker account_id worker_name
          (worker_bindings scan_url shared_secret forward_to ingest_key scan_disabled))
        w
      >>= λ _ w'. (returned tt, w')

  unfoldable pub delete_email_rule : Text → Text → World cf → Answer Done × World cf
  delete_email_rule zone_id rule_id w =
      issue cf (remove_rule zone_id rule_id) w >>= λ _ w'. (returned tt, w')

  unfoldable pub delete_rules : Text → List Text → World cf → Answer Done × World cf
  unfolding delete_email_rule
  delete_rules zone_id [] w = (returned tt, w)
  delete_rules zone_id (id ∷ ids) w =
      delete_email_rule zone_id id w >>= λ _. delete_rules zone_id ids

  unfoldable pub create_email_routing_rule : Text → Text → Text → World cf → Answer Text × World cf
  unfolding delete_rules
  create_email_routing_rule zone_id worker_name target_email (s, log) =
      (cf.rules zone_id s, (s, log))
      >>= (λ rules. delete_rules zone_id (conflicting target_email rules))
      >>= (λ _. issue cf (post_rule zone_id (to_literal target_email) (to_worker worker_name)))
      >>= λ id w. (returned (or_unknown id), w)

  unfoldable pub restore_unless : Text → Text → Text → Bool → World cf → Answer Bool × World cf
  restore_unless zone_id address forward_to true w = (returned false, w)
  restore_unless zone_id address forward_to false w =
      issue cf (post_rule zone_id (to_literal address) (to_forward forward_to)) w >>= λ _ w'.
      (returned true, w')

  unfoldable pub restore_forwarding : Text → Text → Text → World cf → Answer Bool × World cf
  unfolding restore_unless
  restore_forwarding zone_id address forward_to (s, log) =
      (cf.rules zone_id s, (s, log)) >>= λ rules.
      restore_unless zone_id address forward_to (any (λ r. any (routes address) r.matchers) rules)
