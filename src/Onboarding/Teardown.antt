-- ===== src/Onboarding/Teardown.antt =====
-- teardown_cloudflare: disconnect a domain, and the status and list of the connected ones.
use sicurre.Prelude.{
  ℕ, Bool, true, false, not, ◌&&◌, ◌||◌, Option, none, some, List, [], ◌∷◌, ◌++◌, ◌==◌, map,
  if◌then◌else◌, ltb,
}
use sicurre.Prelude.Lists.{any, find}
use sicurre.Prelude.Table.{select, delete}
use sicurre.Prelude.Text.{Text, codes, text_eq, is_empty, or_else}
use sicurre.Prelude.Http.{Reply, ok, raised, reject}
use sicurre.Database.{Db, Integration, IntegrationStatus, AuthUser}
use sicurre.Dns.Records.{DnsRecord, read_dns_state, withdraw_dmarc_reporting}
use sicurre.Shield.Sync.{ShieldStatus}
use sicurre.Gateway.{
  Failure, api_error, provider_conflict, http_error, Answer, returned, failed, Done, ZoneRecord,
  Cloudflare, World,
}
use sicurre.Gateway.Paging.{get_dns_records}
use sicurre.Gateway.Rules.{restore_forwarding}
use sicurre.Gateway.Zone.{deploy_dns_record}
use sicurre.Gateway.Teardown.{teardown}
use sicurre.Onboarding.{
  CloudflareConfig, Env, Site, message_of, forwarding_to_restore, hosts_sicurre_dmarc_mailbox,
  has_remote_resources, has_id, is_error, is_provisioning, set_integrations,
}
use sicurre.Onboarding.Setup.{of_workspace, own_row}
pub mod Outcome
pub mod Requests

-- A token that is not given is the empty text.
pub record TeardownRequest : Type 0 where
  pub integration_id : Option ℕ
  pub cf_api_token : Text

pub record CloudflareTeardownResponse : Type 0 where
  pub zone_name : Text
  pub dmarc_reporting_withdrawn : Bool

abbrev pub in_workspace : ℕ → Integration → Bool
in_workspace workspace r = r.workspace_id == workspace

-- ORDER BY created_at DESC LIMIT 1
newer : Integration → Option Integration → Integration
newer r none = r
newer r (some q) = if ltb r.created_at q.created_at then q else r

unfoldable pub most_recent : List Integration → Option Integration
unfolding newer
most_recent [] = none
most_recent (r ∷ rs) = some (newer r (most_recent rs))

unfoldable pub chosen : Option ℕ → ℕ → List Integration → Option Integration
unfolding most_recent
chosen none workspace rows = most_recent (select (in_workspace workspace) rows)
chosen (some id) workspace rows = find (own_row id workspace) rows

abbrev pub token_or_empty : Option Text → Text
token_or_empty none = []
token_or_empty (some t) = t

abbrev pub config_token : Option CloudflareConfig → Text
config_token none = []
config_token (some c) = c.api_token

unfoldable pub decrypted : Env → Text → Reply Text
decrypted env encrypted =
    if is_empty encrypted
    then reject 400 "Cloudflare API token is not configured"
    else elim (env.decrypt encrypted) [ none ↦ reject 500 "Internal Server Error" | some t ↦ ok t ]

-- The token of a teardown: the request's, the row's or the workspace's.
unfoldable pub teardown_token : Env → Text → Integration → List CloudflareConfig → ℕ → Reply Text
unfolding decrypted
teardown_token env given row config workspace =
    if is_empty given
    then decrypted env (
        or_else (token_or_empty row.api_token)
          (config_token (find (of_workspace workspace) config)))
    else ok given

unfoldable pub keeps_worker : Env → Integration → List Integration → Bool
keeps_worker env row rows =
    any (λ r. text_eq r.worker_name row.worker_name && not (r.id == row.id)) rows
    || any (text_eq row.worker_name) env.protected_worker_names

-- `row.get("rule_id") or "unknown"`
abbrev pub rule_of : Integration → Text
rule_of row = or_else row.rule_id (codes "unknown")

module _ (cf : Cloudflare) where
  unfoldable pub restored : Integration → Option (Text × Text) → World cf → World cf
  restored row none g = g
  restored row (some (address, forward_to)) g =
      (restore_forwarding cf row.zone_id address forward_to g).1

  unfoldable pub is_returned : Answer Done × World cf → Bool × World cf
  is_returned (returned _, g) = (true, g)
  is_returned (failed _, g) = (false, g)

  unfoldable pub withdraw_to : Integration → Option Text → World cf → Bool × World cf
  unfolding is_returned
  withdraw_to row none g = (true, g)
  withdraw_to row (some content) g = is_returned (
      deploy_dns_record cf row.zone_id (codes "TXT") (codes "_dmarc." ++ row.zone_name) content
        (some (codes "v=DMARC1")) g)

  -- What the DMARC record becomes, `none` where it is left alone.
  unfoldable pub withdrawn : Integration → List ZoneRecord → Option Text
  withdrawn row records =
      if hosts_sicurre_dmarc_mailbox row.zone_name
      then none
      else withdraw_dmarc_reporting
          (read_dns_state (map (λ (r : ZoneRecord). r.entry) records) row.zone_name).dmarc

  unfoldable pub withdraw_from : Integration → Answer (List ZoneRecord) → World cf → Bool × World cf
  unfolding withdrawn withdraw_to
  withdraw_from row (failed _) g = (false, g)
  withdraw_from row (returned records) g = withdraw_to row (withdrawn row records) g

  -- The address's forward is given back, then the reporting address withdrawn; nothing raises.
  unfoldable pub give_back : Integration → World cf → Bool × World cf
  unfolding restored withdraw_from
  give_back row g =
      let g' = restored row (forwarding_to_restore row) g in
      withdraw_from row (get_dns_records cf row.zone_id g'.0) g'

  unfoldable pub purge_workspace : ℕ → Bool → Site cf → Site cf
  purge_workspace workspace last s =
      if last
      then record s {
        config = delete (of_workspace workspace) s.config;
        shield = delete (λ (r : ShieldStatus). r.workspace_id == workspace) s.shield;
      }
      else s

  unfoldable pub remove_row :
      Integration → ℕ → Bool → Site cf → Reply CloudflareTeardownResponse × Site cf
  unfolding purge_workspace
  remove_row row workspace withdrew s =
      let rows = delete (has_id row.id) s.db.integrations in
      (
        ok (record { zone_name = row.zone_name; dmarc_reporting_withdrawn = withdrew }),
        purge_workspace workspace
            (not (any (in_workspace workspace) rows)
              && not (is_error row.status && not (has_remote_resources row)))
            (set_integrations (λ _. rows) s),
      )

  unfoldable pub could_not_remove : Text → Text
  could_not_remove message = codes "Cloudflare could not remove the routing resources: " ++ message

  unfoldable pub torn_down :
      Integration → ℕ → Answer Done → Site cf → Reply CloudflareTeardownResponse × Site cf
  unfolding give_back remove_row
  torn_down row workspace (failed http_error) s = (reject 500 "Internal Server Error", s)
  torn_down row workspace (failed (api_error code message)) s =
      (raised 502 (could_not_remove message), s)
  torn_down row workspace (failed (provider_conflict hosts)) s =
      (raised 502 (could_not_remove (message_of (provider_conflict hosts))), s)
  torn_down row workspace (returned _) s =
      let (withdrew, g) = give_back row s.gateway in
      remove_row row workspace withdrew (record s { gateway = g })

  unfoldable pub tear_down :
      Env → Integration → ℕ → Site cf → Reply CloudflareTeardownResponse × Site cf
  unfolding torn_down
  tear_down env row workspace s =
      let (answer, g) =
        teardown cf row.zone_id row.account_id row.worker_name (rule_of row)
          (keeps_worker env row s.db.integrations) s.gateway in
      torn_down row workspace answer (record s { gateway = g })

  unfoldable pub with_token :
      Env → Integration → ℕ → Reply Text → Site cf → Reply CloudflareTeardownResponse × Site cf
  unfolding tear_down
  with_token env row workspace (raised n d) s = (raised n d, s)
  with_token env row workspace (ok token) s = tear_down env row workspace s

  unfoldable pub teardown_row :
      Env → Text → ℕ → Option Integration → Site cf → Reply CloudflareTeardownResponse × Site cf
  unfolding with_token teardown_token remove_row
  teardown_row env given workspace none s = (reject 404 "No integration found", s)
  teardown_row env given workspace (some row) s =
      if is_provisioning row.status
      then (reject 409 "Provisioning in progress; wait for it to complete before tearing down", s)
      else if has_remote_resources row
      then with_token env row workspace (teardown_token env given row s.config workspace) s
      else remove_row row workspace true s

  unfoldable pub teardown_cloudflare :
      Env → TeardownRequest → AuthUser → Site cf → Reply CloudflareTeardownResponse × Site cf
  unfolding teardown_row chosen
  teardown_cloudflare env payload user s =
      teardown_row env payload.cf_api_token user.workspace_id
        (chosen payload.integration_id user.workspace_id s.db.integrations) s
