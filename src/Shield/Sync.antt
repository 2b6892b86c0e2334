-- ===== src/Shield/Sync.antt =====
-- sync_domain_shield_dns of src/data_platform/services/domain_shield_sync.py, and the table
-- app_domain_shield_status (src/db/models/app_runtime.py).
pub mod Consent
pub mod Grading
use sicurre.Prelude.{
  ℕ, ◌-◌, Bool, true, false, not, ◌&&◌, ◌||◌, Option, none, some, List, [], ◌∷◌, ◌++◌, ◌==◌,
  if◌then◌else◌, leb, ltb,
}
use sicurre.Prelude.Lists.{any}
use sicurre.Prelude.Table.{update}
use sicurre.Prelude.Text.{Text, codes, text_eq, is_empty, has_infix}
use sicurre.Dns.Records.{DnsRecord, DnsState, read_dns_state, merge_dmarc, sicurre_dmarc_mailbox}
use sicurre.Dns.Spf.{merge_spf}

pub data Grade : Type 0 where
  A B C D F : Grade

pub record ShieldStatus : Type 0 where
  pub domain : Text
  pub workspace_id : ℕ
  pub spf_valid : Bool
  pub spf_record : Option Text
  pub dkim_valid : Bool
  pub dkim_record : Option Text
  pub dmarc_valid : Bool
  pub dmarc_record : Option Text
  pub dmarc_policy : Text
  pub ssl_valid : Bool
  pub ssl_days_remaining : ℕ
  pub reputation_score : ℕ
  pub score_grade : Grade
  pub updated_at : ℕ

-- A TXT record that is put in place of the one whose content starts with a prefix.
pub record Deployment : Type 0 where
  pub zone_id : Text
  pub name : Text
  pub content : Text
  pub match_prefix : Text

unfoldable pub reputation : Bool → Bool → Bool → Bool → ℕ
reputation spf dkim dmarc reporting =
    100
    - (if spf then 0 else 20)
    - (if dkim then 0 else 20)
    - (if dmarc then (if reporting then 0 else 10) else 25)

unfoldable pub grade_of : ℕ → Grade
grade_of score =
    if leb 90 score
    then A
    else if leb 80 score
    then B
    else if leb 70 score
    then C
    else if leb 60 score
    then D
    else F

abbrev pub or_none : Text → Option Text
or_none t = if is_empty t then none else some t

abbrev text_or_empty : Option Text → Text
text_or_empty none = []
text_or_empty (some t) = t

unfoldable pub policy_of : Text → Text
policy_of dmarc =
    if has_infix (codes "p=reject") dmarc
    then codes "reject"
    else if has_infix (codes "p=quarantine") dmarc
    then codes "quarantine"
    else codes "none"

pub record Fixes : Type 0 where
  pub spf : Bool
  pub dmarc : Bool

-- What is in the zone after the fixes, as far as the record strings go.
pub record Shield : Type 0 where
  pub spf_valid : Bool
  pub spf_record : Option Text
  pub dkim_record : Option Text
  pub dmarc_valid : Bool
  pub dmarc_record : Option Text

unfoldable pub shield_after : Fixes → DnsState → Shield
shield_after fix s = record {
  spf_valid = fix.spf || has_infix (codes "v=spf1") s.spf;
  spf_record = if fix.spf then some (merge_spf s.spf) else or_none s.spf;
  dkim_record = or_none s.dkim;
  dmarc_valid = fix.dmarc || has_infix (codes "v=DMARC1") s.dmarc;
  dmarc_record = if fix.dmarc then some (merge_dmarc s.dmarc) else or_none s.dmarc;
}

abbrev pub spf_deployment : Text → Text → DnsState → Deployment
spf_deployment zone_id zone_name s = record {
  zone_id = zone_id;
  name = zone_name;
  content = merge_spf s.spf;
  match_prefix = codes "v=spf1";
}

abbrev pub dmarc_deployment : Text → Text → DnsState → Deployment
dmarc_deployment zone_id zone_name s = record {
  zone_id = zone_id;
  name = codes "_dmarc." ++ zone_name;
  content = merge_dmarc s.dmarc;
  match_prefix = codes "v=DMARC1";
}

abbrev pub deploy_if : Bool → Deployment → List Deployment
deploy_if true d = d ∷ []
deploy_if false d = []

unfoldable pub deployments : Fixes → Text → Text → DnsState → List Deployment
deployments fix zone_id zone_name s =
    deploy_if fix.spf (spf_deployment zone_id zone_name s)
    ++ deploy_if fix.dmarc (dmarc_deployment zone_id zone_name s)

abbrev pub is_present : Option Text → Bool
is_present none = false
is_present (some _) = true

abbrev pub reporting_enabled : Shield → Bool
reporting_enabled h = has_infix sicurre_dmarc_mailbox (text_or_empty h.dmarc_record)

unfoldable pub score_of : Shield → ℕ
unfolding reputation
score_of h = reputation h.spf_valid (is_present h.dkim_record) h.dmarc_valid (reporting_enabled h)

-- `none` is a certificate that cannot be read.
abbrev days_or_zero : Option ℕ → ℕ
days_or_zero none = 0
days_or_zero (some n) = n

abbrev is_read : Option ℕ → Bool
is_read none = false
is_read (some _) = true

unfoldable pub status_row : Text → ℕ → Shield → Option ℕ → ℕ → ShieldStatus
unfolding score_of grade_of policy_of
status_row zone_name workspace h ssl timestamp = record {
  domain = zone_name;
  workspace_id = workspace;
  spf_valid = h.spf_valid;
  spf_record = h.spf_record;
  dkim_valid = is_present h.dkim_record;
  dkim_record = h.dkim_record;
  dmarc_valid = h.dmarc_valid;
  dmarc_record = h.dmarc_record;
  dmarc_policy = policy_of (text_or_empty h.dmarc_record);
  ssl_valid = is_read ssl;
  ssl_days_remaining = days_or_zero ssl;
  reputation_score = score_of h;
  score_grade = grade_of (score_of h);
  updated_at = timestamp;
}

abbrev pub same_domain : ShieldStatus → ShieldStatus → Bool
same_domain row r = r.workspace_id == row.workspace_id && text_eq r.domain row.domain

-- INSERT ... ON CONFLICT(workspace_id, domain) DO UPDATE SET ...
unfoldable pub upsert_status : ShieldStatus → List ShieldStatus → List ShieldStatus
upsert_status row rows =
    if any (same_domain row) rows
    then update (same_domain row) (λ _. row) rows
    else rows ++ (row ∷ [])

-- Cloudflare: the zone's id, its records, and a write; `none` and `false` are a CloudflareAPIError.
pub record Provisioner : Type 0 where
  pub get_zone : Text → Option Text
  pub get_dns_records : Text → Option (List DnsRecord)
  pub deploy : Deployment → Bool

-- The writes that were made, in order, and whether all of them were.
unfoldable pub deploy_all : Provisioner → List Deployment → List Deployment × Bool
deploy_all cf [] = ([], true)
deploy_all cf (d ∷ ds) =
    let (done, complete) = deploy_all cf ds in
    if cf.deploy d then (d ∷ done, complete) else ([], false)

pub record SyncResult : Type 0 where
  pub zone_id : Text
  pub row : ShieldStatus

-- The result, `none` for a CloudflareAPIError, with the writes and the table.
abbrev pub Outcome : Type 0
Outcome = Option SyncResult × (List Deployment × List ShieldStatus)

module _ (cf : Provisioner) (workspace : ℕ) (zone_name : Text) (fix : Fixes) (ssl : Option ℕ)
    (timestamp : ℕ) where
  unfoldable pub record_status :
      Text → DnsState → List ShieldStatus → List Deployment × Bool → Outcome
  unfolding status_row upsert_status
  record_status zone_id s rows (done, false) = (none, (done, rows))
  record_status zone_id s rows (done, true) =
      let row = status_row zone_name workspace (shield_after fix s) ssl timestamp in
      (some (record { zone_id = zone_id; row = row }), (done, upsert_status row rows))

  unfoldable pub sync_records : Text → Option (List DnsRecord) → List ShieldStatus → Outcome
  unfolding record_status deploy_all deployments
  sync_records zone_id none rows = (none, ([], rows))
  sync_records zone_id (some records) rows =
      let s = read_dns_state records zone_name in
      record_status zone_id s rows (deploy_all cf (deployments fix zone_id zone_name s))

  unfoldable pub sync_zone : Option Text → List ShieldStatus → Outcome
  sync_zone none rows = (none, ([], rows))
  sync_zone (some zone_id) rows = sync_records zone_id (cf.get_dns_records zone_id) rows

  unfoldable pub sync_domain_shield_dns : Option Text → List ShieldStatus → Outcome
  unfolding sync_zone
  sync_domain_shield_dns none rows = sync_zone (cf.get_zone zone_name) rows
  sync_domain_shield_dns (some zone_id) rows = sync_zone (some zone_id) rows
