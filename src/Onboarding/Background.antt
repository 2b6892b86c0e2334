-- ===== src/Onboarding/Background.antt =====
-- provision_connected_domain: the gateway of a new domain, after the response was sent.
use sicurre.Prelude.{ℕ, Bool, true, false, Option, none, some, List, [], ◌∷◌, ◌++◌, if◌then◌else◌}
use sicurre.Prelude.Lists.{take}
use sicurre.Prelude.Table.{update}
use sicurre.Prelude.Text.{Text, codes}
use sicurre.Database.{Integration, IntegrationStatus, pending_verification, active, error}
use sicurre.Shield.Sync.{Provisioner, SyncResult}
use sicurre.Gateway.{Failure, Answer, returned, failed, Cloudflare, World}
use sicurre.Gateway.Provisioning.{ProvisioningResult, provision}
use sicurre.Onboarding.{
  BackgroundTask, Env, Site, message_of, has_id, set_integrations, add_alert, sync_alert, run_sync,
}
pub mod Settled

unfoldable pub initial_status : Bool → IntegrationStatus
initial_status verified = if verified then active else pending_verification

unfoldable pub provisioned_row : Env → ProvisioningResult → Integration → Integration
unfolding initial_status
provisioned_row env result r = record r {
  zone_id = result.zone_id;
  account_id = result.account_id;
  worker_name = result.worker_name;
  rule_id = result.rule_id;
  destination_email = result.destination_email;
  shared_secret_hash = result.shared_secret_hash;
  status = initial_status result.destination_verified;
  error_message = none;
  updated_at = env.now;
}

unfoldable pub failed_row : Env → Text → Integration → Integration
failed_row env message r = record r {
  status = error;
  error_message = some (take 500 message);
  updated_at = env.now;
}

module _ (cf : Cloudflare) (dns : Provisioner) (env : Env) (task : BackgroundTask) where
  -- A failure of the DNS sync is only logged.
  unfoldable pub synced : Option SyncResult × Site cf → Site cf
  synced (_, s) =
      add_alert
        (sync_alert env task.workspace_id task.zone_name
          (codes "Configuration Cloudflare appliquée"))
        s

  unfoldable pub record_outcome : Answer ProvisioningResult → Site cf → Site cf
  unfolding synced provisioned_row failed_row
  record_outcome (failed f) s =
      set_integrations (update (has_id task.integration_id) (failed_row env (message_of f))) s
  record_outcome (returned result) s = synced (
      run_sync cf dns env task.workspace_id task.zone_name task.fix (some result.zone_id)
        (set_integrations (update (has_id task.integration_id) (provisioned_row env result)) s))

  unfoldable pub provision_connected_domain : Site cf → Site cf
  unfolding record_outcome
  provision_connected_domain s =
      let (result, g) =
        provision cf env.secret env.sha256_text env.ingest_key task.zone_name task.destination_email
          env.scan_url s.gateway in
      record_outcome result (record s { gateway = g })
