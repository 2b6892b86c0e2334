-- ===== src/Onboarding.antt =====
-- Connecting a customer's domain and disconnecting it:
-- src/data_platform/api/routers/integrations.py and
-- src/data_platform/services/cloudflare_onboarding.py, over the gateway and the DNS sync.
pub mod Listing
pub mod Setup
pub mod Background
pub mod Teardown
pub mod Erasure
mod Tests
use sicurre.Prelude.{
  ℕ, Bool, true, false, not, ◌&&◌, ◌||◌, Option, none, some, List, [], ◌∷◌, ◌++◌, ◌==◌,
  if◌then◌else◌,
}
use sicurre.Prelude.Lists.{any, find}
use sicurre.Prelude.Table.{update, delete}
use sicurre.Prelude.Text.{
  Text, codes, text_eq, is_empty, lower, strip, rstrip_chars, has_char, rsplit_at, ends_with, join,
}
use sicurre.Prelude.Http.{Reply, ok, reject}
use sicurre.Database.{Db, Integration, IntegrationStatus, provisioning, error}
use sicurre.Dns.Records.{sicurre_dmarc_mailbox}
use sicurre.Scan.Journal.{Alert}
use sicurre.Shield.Sync.{
  ShieldStatus, Deployment, Fixes, Provisioner, SyncResult, sync_domain_shield_dns,
}
use sicurre.Gateway.{Failure, api_error, provider_conflict, http_error, Cloudflare, World}

-- app_cloudflare_config
pub record CloudflareConfig : Type 0 where
  pub workspace_id : ℕ
  pub api_token : Text
  pub updated_at : ℕ

pub record CloudflareSetupRequest : Type 0 where
  pub cf_api_token : Text
  pub zone_name : Text
  pub destination_email : Text
  pub fix : Fixes

-- The arguments of a queued `provision_connected_domain`.
pub record BackgroundTask : Type 0 where
  pub api_token : Text
  pub integration_id : ℕ
  pub workspace_id : ℕ
  pub zone_name : Text
  pub destination_email : Text
  pub fix : Fixes

-- What is outside of a request: the settings, the cipher, the generated secret and identifiers, the
-- clock, the certificate's days and the message of an error of the DNS sync.
pub record Env : Type 0 where
  pub encrypt : Text → Text
  pub decrypt : Text → Option Text
  pub secret : Text
  pub sha256_text : Text → ℕ
  pub ingest_key : Text
  pub scan_url : Text
  pub protected_worker_names : List Text
  pub new_id : ℕ
  pub alert_id : ℕ
  pub now : ℕ
  pub ssl : Option ℕ
  pub sync_error : Text

-- The tables, Cloudflare with its log, the DNS records that were written and the queued tasks.
pub record Site (cf : Cloudflare) : Type 0 where
  pub db : Db
  pub config : List CloudflareConfig
  pub shield : List ShieldStatus
  pub dns_writes : List Deployment
  pub gateway : World cf
  pub tasks : List BackgroundTask

unfoldable pub message_of : Failure → Text
message_of (api_error code message) = message
message_of (provider_conflict hosts) =
    codes "This domain already receives mail through another provider ("
    ++ join (codes ", ") hosts
    ++ codes
        "). Turning on Cloudflare Email Routing would replace those MX records and take over inbound mail. Move the domain to Cloudflare Email Routing first, then connect it to Sicurre."
message_of http_error = []

unfoldable pub on_zone : Text → Text → Bool
on_zone zone domain = text_eq domain zone || ends_with (46 ∷ zone) domain

abbrev pub domain_of : Option (Text × Text) → Text
domain_of none = []
domain_of (some (_, domain)) = domain

-- `_forwarding_to_restore`
unfoldable pub forwarding_for : Text → Text → Text → Option (Text × Text)
unfolding on_zone
forwarding_for address forward_to zone =
    if is_empty address
      || (is_empty forward_to
          || (is_empty zone || (text_eq address forward_to || not (has_char 64 address))))
    then none
    else if on_zone zone (domain_of (rsplit_at 64 address))
    then some (address, forward_to)
    else none

unfoldable pub forwarding_to_restore : Integration → Option (Text × Text)
unfolding forwarding_for
forwarding_to_restore row =
    forwarding_for (lower (strip row.user_email)) (lower (strip row.destination_email))
      (lower (strip row.zone_name))

unfoldable pub hosts_sicurre_dmarc_mailbox : Text → Bool
hosts_sicurre_dmarc_mailbox zone_name =
    text_eq (rstrip_chars (λ c. c == 46) (lower (strip zone_name)))
      (domain_of (rsplit_at 64 sicurre_dmarc_mailbox))

unfoldable pub has_remote_resources : Integration → Bool
has_remote_resources row =
    not (is_empty row.zone_id) && (not (is_empty row.account_id) && not (is_empty row.worker_name))

abbrev pub has_id : ℕ → Integration → Bool
has_id id r = r.id == id

abbrev pub is_error : IntegrationStatus → Bool
is_error error = true
is_error _ = false

abbrev pub is_provisioning : IntegrationStatus → Bool
is_provisioning provisioning = true
is_provisioning _ = false

module _ {cf : Cloudflare} where
  abbrev pub set_integrations : (List Integration → List Integration) → Site cf → Site cf
  set_integrations f s = record s { db = record s.db { integrations = f s.db.integrations } }

  abbrev pub add_alert : Alert → Site cf → Site cf
  add_alert a s = record s { db = record s.db { alerts = s.db.alerts ++ (a ∷ []) } }

unfoldable pub sync_alert : Env → ℕ → Text → Text → Alert
sync_alert env workspace zone_name title = record {
  id = env.alert_id;
  workspace_id = workspace;
  domain = lower zone_name;
  event_type = codes "cloudflare_sync";
  title = title;
  is_dismissed = false;
  created_at = env.now;
}

module _ (cf : Cloudflare) (dns : Provisioner) (env : Env) where
  -- The sync on the tables: its result, `none` for a CloudflareAPIError.
  unfoldable pub run_sync : ℕ → Text → Fixes → Option Text → Site cf → Option SyncResult × Site cf
  run_sync workspace zone_name fix zone_id s =
      let (result, (writes, rows)) =
        sync_domain_shield_dns dns workspace zone_name fix env.ssl env.now zone_id s.shield in
      (result, record s { shield = rows; dns_writes = s.dns_writes ++ writes })
