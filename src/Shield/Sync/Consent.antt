-- ===== src/Shield/Sync/Consent.antt =====
-- What sync_domain_shield_dns of src/data_platform/services/domain_shield_sync.py writes.
use sicurre.Prelude.{
  ℕ, ◌≡◌, refl, ◌⊎◌, inl, inr, Bool, true, false, Option, none, some, List, [], ◌∷◌, ◌++◌, if_both,
}
use sicurre.Prelude.Lists.{All, All-append}
use sicurre.Prelude.Text.{Text, codes}
use sicurre.Dns.Records.{DnsRecord, DnsState, read_dns_state, merge_dmarc}
use sicurre.Dns.Spf.{merge_spf}
use sicurre.Shield.Sync.{
  Fixes, Provisioner, Deployment, ShieldStatus, Outcome, deployments, deploy_if, spf_deployment,
  dmarc_deployment, deploy_all, record_status, sync_records, sync_zone, sync_domain_shield_dns,
}

-- A write to the zone's SPF record, or to its DMARC record, that the fixes name: the merge of what
-- was read of the zone, in place of a record of the same kind.
abbrev pub IsConsented : Provisioner → Fixes → Option Text → Text → Deployment → Type 0
IsConsented cf fix known zone_name d =
    ((known ≡ some d.zone_id) ⊎ ((known ≡ none) × (cf.get_zone zone_name ≡ some d.zone_id)))
    × ((records : List DnsRecord) × (cf.get_dns_records d.zone_id ≡ some records)
        × (((fix.spf ≡ true)
              × (d.name ≡ zone_name)
              × (d.content ≡ merge_spf (read_dns_state records zone_name).spf)
              × (d.match_prefix ≡ codes "v=spf1"))
            ⊎ ((fix.dmarc ≡ true)
                × (d.name ≡ codes "_dmarc." ++ zone_name)
                × (d.content ≡ merge_dmarc (read_dns_state records zone_name).dmarc)
                × (d.match_prefix ≡ codes "v=DMARC1"))))

deploy_if-All {κ} :
    (P : Deployment → Type κ) (b : Bool) (d : Deployment) → (b ≡ true → P d) → All P (deploy_if b d)
deploy_if-All P true d h = (h refl, tt)
deploy_if-All P false d h = tt

deployments-IsConsented :
    (cf : Provisioner) (fix : Fixes) (known : Option Text) (zone_id zone_name : Text)
    (records : List DnsRecord)
    → (known ≡ some zone_id) ⊎ ((known ≡ none) × (cf.get_zone zone_name ≡ some zone_id))
    → cf.get_dns_records zone_id ≡ some records
    → All
        (IsConsented cf fix known zone_name)
        (deployments fix zone_id zone_name (read_dns_state records zone_name))
unfolding deployments
deployments-IsConsented cf fix known zone_id zone_name records z e =
    let s = read_dns_state records zone_name in
    let P = IsConsented cf fix known zone_name in
    All-append P (deploy_if fix.spf (spf_deployment zone_id zone_name s))
      (deploy_if fix.dmarc (dmarc_deployment zone_id zone_name s))
      (deploy_if-All P fix.spf (spf_deployment zone_id zone_name s)
        (λ h. (z, (records, e, inl (h, refl, refl, refl)))))
      (deploy_if-All P fix.dmarc (dmarc_deployment zone_id zone_name s)
        (λ h. (z, (records, e, inr (h, refl, refl, refl)))))

deploy_all-All {κ} :
    (P : Deployment → Type κ) (cf : Provisioner) (ds : List Deployment)
    → All P ds
    → All P (deploy_all cf ds).0
unfolding deploy_all
deploy_all-All P cf [] a = tt
deploy_all-All P cf (d ∷ ds) (p, a) =
    if_both (λ (r : List Deployment × Bool). All P r.0) (cf.deploy d) (p, deploy_all-All P cf ds a)
      tt

module _ (cf : Provisioner) (workspace : ℕ) (zone_name : Text) (fix : Fixes) (ssl : Option ℕ)
    (timestamp : ℕ) where
  -- What every outcome has: consented writes, and an untouched table unless there is a result.
  abbrev IsFaithful : Option Text → List ShieldStatus → Outcome → Type 0
  IsFaithful known rows (result, (done, after)) =
      All (IsConsented cf fix known zone_name) done × (result ≡ none → after ≡ rows)

  record_status-IsFaithful :
      (known : Option Text) (zone_id : Text) (s : DnsState) (rows : List ShieldStatus)
      (r : List Deployment × Bool)
      → All (IsConsented cf fix known zone_name) r.0
      → IsFaithful known rows
          (record_status cf workspace zone_name fix ssl timestamp zone_id s rows r)
  unfolding record_status
  record_status-IsFaithful known zone_id s rows (done, false) a = (a, λ _. refl)
  record_status-IsFaithful known zone_id s rows (done, true) a = (a, λ h. absurd cc)

  sync_records-IsFaithful :
      (known : Option Text) (zone_id : Text) (o : Option (List DnsRecord))
      (rows : List ShieldStatus)
      → (known ≡ some zone_id) ⊎ ((known ≡ none) × (cf.get_zone zone_name ≡ some zone_id))
      → cf.get_dns_records zone_id ≡ o
      → IsFaithful known rows (sync_records cf workspace zone_name fix ssl timestamp zone_id o rows)
  unfolding sync_records
  sync_records-IsFaithful known zone_id none rows z e = (tt, λ _. refl)
  sync_records-IsFaithful known zone_id (some records) rows z e =
      record_status-IsFaithful known zone_id (read_dns_state records zone_name) rows
        (deploy_all cf (deployments fix zone_id zone_name (read_dns_state records zone_name)))
        (deploy_all-All (IsConsented cf fix known zone_name) cf _
          (deployments-IsConsented cf fix known zone_id zone_name records z e))

  sync_zone-IsFaithful :
      (known o : Option Text) (rows : List ShieldStatus)
      → ((zone_id : Text)
          → o ≡ some zone_id
          → (known ≡ some zone_id) ⊎ ((known ≡ none) × (cf.get_zone zone_name ≡ some zone_id)))
      → IsFaithful known rows (sync_zone cf workspace zone_name fix ssl timestamp o rows)
  unfolding sync_zone
  sync_zone-IsFaithful known none rows z = (tt, λ _. refl)
  sync_zone-IsFaithful known (some zone_id) rows z =
      sync_records-IsFaithful known zone_id (cf.get_dns_records zone_id) rows (z zone_id refl) refl

  sync-IsFaithful :
      (o : Option Text) (rows : List ShieldStatus)
      → IsFaithful o rows (sync_domain_shield_dns cf workspace zone_name fix ssl timestamp o rows)
  unfolding sync_domain_shield_dns
  sync-IsFaithful none rows =
      sync_zone-IsFaithful none (cf.get_zone zone_name) rows (λ zone_id e. inr (refl, e))
  sync-IsFaithful (some zone_id) rows =
      sync_zone-IsFaithful (some zone_id) (some zone_id) rows (λ z e. inl e)

-- Every write of a sync, also of one that fails halfway, goes to the zone that was given or found by
-- its name, and is the SPF record of the zone, in place of one that starts with v=spf1, if that fix
-- was asked for, or its DMARC record, in place of one that starts with v=DMARC1, if that one was;
-- the content is the merge of what was read of the zone.
pub sync_writes_only_fixes :
    (cf : Provisioner) (workspace : ℕ) (zone_name : Text) (fix : Fixes) (ssl : Option ℕ)
    → (timestamp : ℕ) (zone_id : Option Text) (rows : List ShieldStatus)
    → All
        (IsConsented cf fix zone_id zone_name)
        (sync_domain_shield_dns cf workspace zone_name fix ssl timestamp zone_id rows).1.0
sync_writes_only_fixes cf workspace zone_name fix ssl timestamp zone_id rows =
    (sync-IsFaithful cf workspace zone_name fix ssl timestamp zone_id rows).0

-- A sync that Cloudflare refuses, at any step, leaves the table of shield states alone.
pub failed_sync_keeps_status :
    (cf : Provisioner) (workspace : ℕ) (zone_name : Text) (fix : Fixes) (ssl : Option ℕ)
    → (timestamp : ℕ) (zone_id : Option Text) (rows : List ShieldStatus)
    → (sync_domain_shield_dns cf workspace zone_name fix ssl timestamp zone_id rows).0 ≡ none
    → (sync_domain_shield_dns cf workspace zone_name fix ssl timestamp zone_id rows).1.1 ≡ rows
failed_sync_keeps_status cf workspace zone_name fix ssl timestamp zone_id rows =
    (sync-IsFaithful cf workspace zone_name fix ssl timestamp zone_id rows).1
