-- ===== src/Gateway/Teardown.antt =====
-- The end of a gateway: delete_worker, catch_all_worker and teardown.
use sicurre.Prelude.{
  ℕ, Bool, true, false, not, ◌&&◌, ◌||◌, Option, none, some, List, [], ◌∷◌, ◌++◌, ◌==◌,
  if◌then◌else◌,
}
use sicurre.Prelude.Text.{Text, codes, text_eq, is_empty}
use sicurre.Gateway.{
  Failure, api_error, provider_conflict, http_error, Answer, returned, failed, Done, RuleAction,
  remove_worker, Cloudflare, World, issue, ◌>>=◌,
}
use sicurre.Gateway.Rules.{delete_email_rule}
pub mod Protection

-- The Worker that a catch-all's actions send the mail to.
unfoldable pub worker_of : List RuleAction → Option Text
worker_of [] = none
worker_of (a ∷ rest) =
    let later = worker_of rest in
    if text_eq a.type (codes "worker") then elim a.value [ [] ↦ later | v ∷ _ ↦ some v ] else later

abbrev pub is_named : Text → Option Text → Bool
is_named name none = false
is_named name (some v) = text_eq v name

module _ (cf : Cloudflare) where
  unfoldable pub forgiven : Answer Text × World cf → Answer Done × World cf
  forgiven (returned _, w) = (returned tt, w)
  forgiven (failed (api_error code message), w) =
      if code == 404 then (returned tt, w) else (failed (api_error code message), w)
  forgiven (failed (provider_conflict hosts), w) = (failed (provider_conflict hosts), w)
  forgiven (failed http_error, w) = (failed http_error, w)

  unfoldable pub delete_worker : Text → Text → World cf → Answer Done × World cf
  unfolding forgiven
  delete_worker account_id worker_name w =
      forgiven (issue cf (remove_worker account_id worker_name) w)

  unfoldable pub catch_all_worker : Text → World cf → Answer (Option Text) × World cf
  unfolding worker_of
  catch_all_worker zone_id (s, log) =
      (cf.catch_all zone_id s, (s, log)) >>= λ actions w. (returned (worker_of actions), w)

  -- A rule that Cloudflare refuses to delete is left, any other error is raised.
  unfoldable pub tolerated : Answer Done × World cf → Answer Done × World cf
  tolerated (returned u, w) = (returned u, w)
  tolerated (failed (api_error code message), w) = (returned tt, w)
  tolerated (failed (provider_conflict hosts), w) = (returned tt, w)
  tolerated (failed http_error, w) = (failed http_error, w)

  unfoldable pub remove_rule_of : Text → Text → World cf → Answer Done × World cf
  unfolding tolerated
  remove_rule_of zone_id rule_id w =
      if is_empty rule_id || text_eq rule_id (codes "unknown")
      then (returned tt, w)
      else tolerated (delete_email_rule cf zone_id rule_id w)

  -- A catch-all that cannot be read protects every Worker.
  unfoldable pub remove_unless :
      Text → Text → Answer (Option Text) × World cf → Answer Done × World cf
  unfolding delete_worker
  remove_unless account_id worker_name (failed _, w) = (returned tt, w)
  remove_unless account_id worker_name (returned protected, w) =
      if is_named worker_name protected
      then (returned tt, w)
      else delete_worker account_id worker_name w

  unfoldable pub remove_worker_of : Text → Text → Text → Bool → World cf → Answer Done × World cf
  unfolding remove_unless catch_all_worker
  remove_worker_of zone_id account_id worker_name true w = (returned tt, w)
  remove_worker_of zone_id account_id worker_name false w =
      remove_unless account_id worker_name (catch_all_worker zone_id w)

  unfoldable pub teardown : Text → Text → Text → Text → Bool → World cf → Answer Done × World cf
  unfolding remove_rule_of remove_worker_of
  teardown zone_id account_id worker_name rule_id keep_worker w =
      remove_rule_of zone_id rule_id w >>= λ _.
      remove_worker_of zone_id account_id worker_name keep_worker
