-- ===== src/Onboarding/Background/Settled.antt =====
-- A domain's provisioning always ends: whatever Cloudflare and the DNS sync do, the row that the
-- interface polls leaves `provisioning`.
use sicurre.Prelude.{◌≡◌, refl, true, false, some}
use sicurre.Prelude.Lists.{find}
use sicurre.Prelude.Table.{find-update_self}
use sicurre.Database.{Integration, error, active, pending_verification}
use sicurre.Shield.Sync.{Provisioner}
use sicurre.Gateway.{Answer, returned, failed, Cloudflare}
use sicurre.Gateway.Provisioning.{ProvisioningResult, provision}
use sicurre.Onboarding.{BackgroundTask, Env, Site, message_of, has_id, run_sync}
use sicurre.Onboarding.Background.{
  initial_status, provisioned_row, failed_row, synced, record_outcome, provision_connected_domain,
}

-- The row tells how the provisioning ended.
abbrev pub Settled : Answer ProvisioningResult → Integration → Type 0
Settled (failed f) r = r.status ≡ error
Settled (returned result) r =
    (result.destination_verified ≡ true → r.status ≡ active)
    × (result.destination_verified ≡ false → r.status ≡ pending_verification)
    × (r.zone_id ≡ result.zone_id)
    × (r.account_id ≡ result.account_id)
    × (r.rule_id ≡ result.rule_id)
    × (r.destination_email ≡ result.destination_email)
    × (r.worker_name ≡ result.worker_name)
    × (r.shared_secret_hash ≡ result.shared_secret_hash)

module _ (cf : Cloudflare) (dns : Provisioner) (env : Env) (task : BackgroundTask) where
  -- The gateway's answer to the task.
  abbrev pub answer_of : Site cf → Answer ProvisioningResult
  answer_of s =
      (provision cf env.secret env.sha256_text env.ingest_key task.zone_name task.destination_email
        env.scan_url s.gateway).0

  record_outcome-Settled :
      (a : Answer ProvisioningResult) (s : Site cf) (row : Integration)
      → find (has_id task.integration_id) s.db.integrations ≡ some row
      → (r : Integration) × (find
            (has_id task.integration_id)
            (record_outcome cf dns env task a s).db.integrations
          ≡ some r)
        × Settled a r
  unfolding record_outcome synced run_sync failed_row provisioned_row initial_status
  record_outcome-Settled (failed f) s row e = (
    failed_row env (message_of f) row,
    find-update_self (has_id task.integration_id) (failed_row env (message_of f)) (λ r h. h)
        s.db.integrations e,
    refl,
  )
  record_outcome-Settled (returned result) s row e = (
    provisioned_row env result row,
    find-update_self (has_id task.integration_id) (provisioned_row env result) (λ r h. h)
        s.db.integrations e,
    (λ h. rw h refl, λ h. rw h refl, refl, refl, refl, refl, refl, refl),
  )

  -- Whatever Cloudflare and the DNS sync do, the row of a background task that is in the table
  -- ends with the status error if the provisioning failed, and otherwise with active or
  -- pending_verification, as the destination is verified or not, and with the zone, the account,
  -- the rule, the destination, the Worker and the secret's hash of the result.
  pub provisioning_ends :
      (s : Site cf) (row : Integration)
      → find (has_id task.integration_id) s.db.integrations ≡ some row
      → (r : Integration) × (find
            (has_id task.integration_id)
            (provision_connected_domain cf dns env task s).db.integrations
          ≡ some r)
        × Settled (answer_of s) r
  unfolding provision_connected_domain
  provisioning_ends s row e = record_outcome-Settled (answer_of s) _ row e
