-- ===== src/Onboarding/Erasure.antt =====
-- erase_account of src/data_platform/services/account_erasure.py: Cloudflare first, then the stored
-- copies, then the workspace's rows, then the identity.
use sicurre.Prelude.{
  ℕ, Bool, true, false, not, ◌&&◌, ◌||◌, Option, none, some, List, [], ◌∷◌, ◌++◌, ◌==◌,
  if◌then◌else◌, ltb,
}
use sicurre.Prelude.Lists.{any}
use sicurre.Prelude.Table.{select, delete}
use sicurre.Prelude.Text.{Text, text_eq, is_empty, lower, strip}
use sicurre.Prelude.Http.{Reply, ok, raised, reject, proceed}
use sicurre.Database.{Db, Integration, SecurityRule, Feedback, AuthUser}
use sicurre.Scan.Journal.{InferenceEvent, Alert}
use sicurre.Notification.{AlertPreference}
use sicurre.Shield.Sync.{ShieldStatus}
use sicurre.Quarantine.Item.{QuarantineItem}
use sicurre.Quarantine.Store.{QuarantineStore}
use sicurre.Gateway.{Done, Cloudflare}
use sicurre.Onboarding.{Env, Site, CloudflareConfig, is_provisioning}
use sicurre.Onboarding.Listing.{newest_first}
use sicurre.Onboarding.Setup.{of_workspace}
use sicurre.Onboarding.Teardown.{
  TeardownRequest, CloudflareTeardownResponse, in_workspace, teardown_cloudflare,
}
pub mod Outcome

-- The account: its workspace is `none` where the code has an empty identifier.
pub record Member : Type 0 where
  pub id : ℕ
  pub email : Text
  pub workspace_id : Option ℕ

-- The tables of Better Auth, by the column that the statements name.
pub record Identity : Type 0 where
  pub sessions : List ℕ
  pub accounts : List ℕ
  pub verifications : List Text
  pub users : List ℕ

-- The tables of a workspace that this part does not read, each by its rows' workspaces.
pub record OtherTables : Type 0 where
  pub app_alert_read : List ℕ
  pub app_domain_shield_history : List ℕ
  pub app_dmarc_report_summary : List ℕ
  pub app_reported_email : List ℕ
  pub app_support_request : List ℕ
  pub app_workspace_membership : List ℕ
  pub app_workspace : List ℕ

pub record Estate (cf : Cloudflare) (store : QuarantineStore) : Type 0 where
  pub site : Site cf
  pub copies : store.State
  pub others : OtherTables
  pub identity : Identity

abbrev uri_of : QuarantineItem → Text
uri_of r = elim r.raw_storage_uri [ none ↦ [] | some u ↦ u ]

unfoldable pub own_copies : ℕ → List QuarantineItem → List Text
own_copies workspace [] = []
own_copies workspace (r ∷ rs) =
    let uris = own_copies workspace rs in
    if r.workspace_id == workspace && not (is_empty (uri_of r)) then uri_of r ∷ uris else uris

module _ {ℓ} {S : Type ℓ} where
  unfoldable pub deleted : Bool × S → Reply Done × S
  deleted (true, s) = (ok tt, s)
  deleted (false, s) =
      (reject 503 "Quarantine storage is temporarily unavailable; the account was not deleted", s)

-- `_drop_stored_quarantine_copies`, for the URIs that the rows name
unfoldable pub drop_copies :
    (store : QuarantineStore) → List Text → store.State → Reply Done × store.State
unfolding deleted
drop_copies store [] s = (ok tt, s)
drop_copies store (uri ∷ uris) s =
    proceed (deleted (store.delete uri s)) (λ _. drop_copies store uris)

unfoldable pub erase_identity : Member → Identity → Identity
erase_identity member t = record {
  sessions = delete (λ id. id == member.id) t.sessions;
  accounts = delete (λ id. id == member.id) t.accounts;
  verifications = delete (text_eq (lower (strip member.email))) t.verifications;
  users = delete (λ id. id == member.id) t.users;
}

module _ (workspace : ℕ) where
  unfoldable pub erase_rows : Db → Db
  erase_rows db = record {
    integrations = delete (in_workspace workspace) db.integrations;
    quarantine = delete (λ (r : QuarantineItem). r.workspace_id == workspace) db.quarantine;
    security_rules = delete (λ (r : SecurityRule). r.workspace_id == workspace) db.security_rules;
    feedback = delete (λ (r : Feedback). r.workspace_id == workspace) db.feedback;
    events = delete (λ (r : InferenceEvent). r.workspace_id == workspace) db.events;
    alerts = delete (λ (r : Alert). r.workspace_id == workspace) db.alerts;
    preferences = delete (λ (r : AlertPreference). r.workspace_id == workspace) db.preferences;
  }

  unfoldable pub erase_others : OtherTables → OtherTables
  erase_others t = record {
    app_alert_read = delete (λ w. w == workspace) t.app_alert_read;
    app_domain_shield_history = delete (λ w. w == workspace) t.app_domain_shield_history;
    app_dmarc_report_summary = delete (λ w. w == workspace) t.app_dmarc_report_summary;
    app_reported_email = delete (λ w. w == workspace) t.app_reported_email;
    app_support_request = delete (λ w. w == workspace) t.app_support_request;
    app_workspace_membership = delete (λ w. w == workspace) t.app_workspace_membership;
    app_workspace = delete (λ w. w == workspace) t.app_workspace;
  }

  unfoldable pub erase_site : {cf : Cloudflare} → Site cf → Site cf
  unfolding erase_rows
  erase_site s = record s {
    db = erase_rows s.db;
    config = delete (of_workspace workspace) s.config;
    shield = delete (λ (r : ShieldStatus). r.workspace_id == workspace) s.shield;
  }

module _ (cf : Cloudflare) (store : QuarantineStore) (env : Env) (member : Member) where
  unfoldable pub tear_down_each : AuthUser → List Integration → Site cf → Reply Done × Site cf
  tear_down_each user [] s = (ok tt, s)
  tear_down_each user (r ∷ rs) s =
      proceed
        (teardown_cloudflare cf env (record { integration_id = some r.id; cf_api_token = [] }) user
          s)
        (λ _. tear_down_each user rs)

  unfoldable pub erase_workspace : ℕ → Estate cf store → Estate cf store
  unfolding erase_site erase_others
  erase_workspace workspace e = record e {
    site = erase_site workspace e.site;
    others = erase_others workspace e.others;
  }

  unfoldable pub erase_identity_of : Estate cf store → Reply Done × Estate cf store
  unfolding erase_identity
  erase_identity_of e = (ok tt, record e { identity = erase_identity member e.identity })

  unfoldable pub with_copies :
      Estate cf store → Reply Done × store.State → Reply Done × Estate cf store
  with_copies e (r, copies) = (r, record e { copies = copies })

  unfoldable pub with_site : Estate cf store → Reply Done × Site cf → Reply Done × Estate cf store
  with_site e (r, site) = (r, record e { site = site })

  -- The workspace's part, with the connected domains in the order of the statement.
  unfoldable pub erase_in : ℕ → List Integration → Estate cf store → Reply Done × Estate cf store
  unfolding with_site with_copies erase_workspace
  erase_in workspace rows e =
      proceed
        (with_site e
          (tear_down_each (record { id = member.id; workspace_id = workspace }) rows e.site))
        (λ _ e'.
          proceed
            (with_copies e'
              (drop_copies store (own_copies workspace e'.site.db.quarantine) e'.copies))
            (λ _ e''. (ok tt, erase_workspace workspace e'')))

  unfoldable pub erase_connected : Option ℕ → Estate cf store → Reply Done × Estate cf store
  unfolding erase_in
  erase_connected none e = (ok tt, e)
  erase_connected (some workspace) e =
      let rows = newest_first (select (in_workspace workspace) e.site.db.integrations) in
      if any (λ (r : Integration). is_provisioning r.status) rows
      then (
        reject 409
            "A domain is still being connected; wait for it to complete before deleting the account",
        e,
      )
      else erase_in workspace rows e

  unfoldable pub erase_account : Estate cf store → Reply Done × Estate cf store
  unfolding erase_connected erase_identity_of
  erase_account e = proceed (erase_connected member.workspace_id e) (λ _. erase_identity_of)
