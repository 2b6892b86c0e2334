-- ===== src/Onboarding/Erasure/Outcome.antt =====
-- An account is erased whole or kept: after a success nothing of it is left, after a refusal the
-- identity and the tables that no disconnection writes are as they were.
use mathlib.Core.Path.{subst}
use sicurre.Prelude.{
  ℕ, ◌≡◌, refl, ◌∙◌, Bool, true, false, not, ◌&&◌, Option, none, some, List, [], ◌∷◌, ◌==◌, if_both,
}
use sicurre.Prelude.Lists.{any}
use sicurre.Prelude.Table.{select, delete, select-delete, select-delete_self}
use sicurre.Prelude.Text.{Text, text_eq, lower, strip}
use sicurre.Prelude.Http.{Reply, ok, raised, proceed}
use sicurre.Database.{Db, Integration, SecurityRule, Feedback, AuthUser}
use sicurre.Scan.Journal.{InferenceEvent, Alert}
use sicurre.Notification.{AlertPreference}
use sicurre.Shield.Sync.{ShieldStatus}
use sicurre.Quarantine.Item.{QuarantineItem}
use sicurre.Quarantine.Store.{QuarantineStore}
use sicurre.Gateway.{
  api_error, provider_conflict, http_error, Answer, returned, failed, Done, Cloudflare,
}
use sicurre.Onboarding.{
  Env, Site, has_remote_resources, has_id, is_error, is_provisioning, set_integrations,
}
use sicurre.Onboarding.Listing.{newest_first}
use sicurre.Onboarding.Setup.{of_workspace}
use sicurre.Onboarding.Teardown.{
  in_workspace, chosen, teardown_token, give_back, purge_workspace, remove_row, torn_down,
  tear_down, with_token, teardown_row, teardown_cloudflare,
}
use sicurre.Onboarding.Erasure.{
  Member, Identity, erase_others, Estate, own_copies, drop_copies, erase_identity, erase_rows,
  erase_site, tear_down_each, erase_workspace, erase_identity_of, with_copies, with_site, erase_in,
  erase_connected, erase_account,
}

-- The tables that no disconnection writes.
abbrev pub kept :
    Db
    → List QuarantineItem
      × List SecurityRule
      × List Feedback
      × List InferenceEvent
      × List Alert
      × List AlertPreference
kept db = (db.quarantine, db.security_rules, db.feedback, db.events, db.alerts, db.preferences)

module _ (cf : Cloudflare) (env : Env) where
  abbrev SameMail {ℓ} : {A : Type ℓ} → Site cf → Reply A × Site cf → Type 0
  SameMail s x = kept x.1.db ≡ kept s.db

  purge_workspace-mail :
      (workspace : ℕ) (last : Bool) (s : Site cf)
      → kept (purge_workspace cf workspace last s).db ≡ kept s.db
  unfolding purge_workspace
  purge_workspace-mail workspace true s = refl
  purge_workspace-mail workspace false s = refl

  remove_row-mail :
      (row : Integration) (workspace : ℕ) (withdrew : Bool) (s : Site cf)
      → SameMail s (remove_row cf row workspace withdrew s)
  unfolding remove_row
  remove_row-mail row workspace withdrew s =
      let rows = delete (has_id row.id) s.db.integrations in
      purge_workspace-mail workspace
        (not (any (in_workspace workspace) rows)
          && not (is_error row.status && not (has_remote_resources row)))
        (set_integrations (λ _. rows) s)

  torn_down-mail :
      (row : Integration) (workspace : ℕ) (a : Answer Done) (s : Site cf)
      → SameMail s (torn_down cf row workspace a s)
  unfolding torn_down
  torn_down-mail row workspace (failed http_error) s = refl
  torn_down-mail row workspace (failed (api_error code message)) s = refl
  torn_down-mail row workspace (failed (provider_conflict hosts)) s = refl
  torn_down-mail row workspace (returned u) s =
      remove_row-mail row workspace (give_back cf row s.gateway).0
        (record s { gateway = (give_back cf row s.gateway).1 })

  with_token-mail :
      (row : Integration) (workspace : ℕ) (t : Reply Text) (s : Site cf)
      → SameMail s (with_token cf env row workspace t s)
  unfolding with_token tear_down
  with_token-mail row workspace (raised n d) s = refl
  with_token-mail row workspace (ok token) s = torn_down-mail row workspace _ _

  teardown_row-mail :
      (given : Text) (workspace : ℕ) (row : Option Integration) (s : Site cf)
      → SameMail s (teardown_row cf env given workspace row s)
  unfolding teardown_row
  teardown_row-mail given workspace none s = refl
  teardown_row-mail given workspace (some row) s =
      if_both (SameMail s) (is_provisioning row.status) refl (
        if_both (SameMail s) (has_remote_resources row)
          (with_token-mail row workspace (teardown_token env given row s.config workspace) s)
          (remove_row-mail row workspace true s))

  proceed-mail {ℓ κ} :
      {A : Type ℓ} {B : Type κ} (s : Site cf) (x : Reply A × Site cf)
      (f : A → Site cf → Reply B × Site cf)
      → SameMail s x
      → ((a : A) (t : Site cf) → SameMail t (f a t))
      → SameMail s (proceed x f)
  proceed-mail s (ok a, t) f h k = k a t ∙ h
  proceed-mail s (raised n d, t) f h k = h

module _ (cf : Cloudflare) (store : QuarantineStore) (env : Env) (member : Member) where
  tear_down_each-mail :
      (user : AuthUser) (rows : List Integration) (s : Site cf)
      → SameMail cf env s (tear_down_each cf store env member user rows s)
  unfolding tear_down_each teardown_cloudflare
  tear_down_each-mail user [] s = refl
  tear_down_each-mail user (r ∷ rs) s =
      proceed-mail cf env s
        (teardown_cloudflare cf env (record { integration_id = some r.id; cf_api_token = [] }) user
          s)
        (λ _. tear_down_each cf store env member user rs)
        (teardown_row-mail cf env [] user.workspace_id
          (chosen (some r.id) user.workspace_id s.db.integrations) s)
        (λ _. tear_down_each-mail user rs)

  -- Nothing of the workspace is left.
  abbrev pub Emptied : ℕ → Estate cf store → Type 0
  Emptied workspace e =
      (select (in_workspace workspace) e.site.db.integrations ≡ [])
      × (select (λ (r : QuarantineItem). r.workspace_id == workspace) e.site.db.quarantine ≡ [])
      × (select (λ (r : SecurityRule). r.workspace_id == workspace) e.site.db.security_rules ≡ [])
      × (select (λ (r : Feedback). r.workspace_id == workspace) e.site.db.feedback ≡ [])
      × (select (λ (r : InferenceEvent). r.workspace_id == workspace) e.site.db.events ≡ [])
      × (select (λ (r : Alert). r.workspace_id == workspace) e.site.db.alerts ≡ [])
      × (select (λ (r : AlertPreference). r.workspace_id == workspace) e.site.db.preferences ≡ [])
      × (select (of_workspace workspace) e.site.config ≡ [])
      × (select (λ (r : ShieldStatus). r.workspace_id == workspace) e.site.shield ≡ [])
      × (select (λ w. w == workspace) e.others.app_alert_read ≡ [])
      × (select (λ w. w == workspace) e.others.app_domain_shield_history ≡ [])
      × (select (λ w. w == workspace) e.others.app_dmarc_report_summary ≡ [])
      × (select (λ w. w == workspace) e.others.app_reported_email ≡ [])
      × (select (λ w. w == workspace) e.others.app_support_request ≡ [])
      × (select (λ w. w == workspace) e.others.app_workspace_membership ≡ [])
      × (select (λ w. w == workspace) e.others.app_workspace ≡ [])

  abbrev EmptiedOf : Option ℕ → Estate cf store → Type 0
  EmptiedOf none e = Unit
  EmptiedOf (some workspace) e = Emptied workspace e

  abbrev Untouched : Estate cf store → Estate cf store → Type 0
  Untouched e e' =
      (e'.identity ≡ e.identity) × (e'.others ≡ e.others) × (kept e'.site.db ≡ kept e.site.db)

  -- How the workspace's part ends.
  abbrev Part : Option ℕ → Estate cf store → Reply Done × Estate cf store → Type 0
  Part w e (ok _, e') = (e'.identity ≡ e.identity) × EmptiedOf w e'
  Part w e (raised n d, e') = Untouched e e'

  erase_workspace-Emptied :
      (w : ℕ) (e : Estate cf store) → Emptied w (erase_workspace cf store env member w e)
  unfolding erase_workspace erase_site erase_rows erase_others
  erase_workspace-Emptied w e = (
    select-delete_self _ e.site.db.integrations,
    select-delete_self _ e.site.db.quarantine,
    select-delete_self _ e.site.db.security_rules,
    select-delete_self _ e.site.db.feedback,
    select-delete_self _ e.site.db.events,
    select-delete_self _ e.site.db.alerts,
    select-delete_self _ e.site.db.preferences,
    select-delete_self _ e.site.config,
    select-delete_self _ e.site.shield,
    select-delete_self _ e.others.app_alert_read,
    select-delete_self _ e.others.app_domain_shield_history,
    select-delete_self _ e.others.app_dmarc_report_summary,
    select-delete_self _ e.others.app_reported_email,
    select-delete_self _ e.others.app_support_request,
    select-delete_self _ e.others.app_workspace_membership,
    select-delete_self _ e.others.app_workspace,
  )

  after_copies-Part :
      (w : ℕ) (e e' : Estate cf store) (x : Reply Done × store.State)
      → Untouched e e'
      → Part (some w) e (
          proceed
            (with_copies cf store env member e' x)
            (λ _ e''. (ok tt, erase_workspace cf store env member w e'')))
  unfolding with_copies erase_workspace
  after_copies-Part w e e' (raised n d, copies) h = h
  after_copies-Part w e e' (ok _, copies) (identity, others, mail) =
      (identity, erase_workspace-Emptied w (record e' { copies = copies }))

  after_site-Part :
      (w : ℕ) (e : Estate cf store) (x : Reply Done × Site cf)
      → kept x.1.db ≡ kept e.site.db
      → Part (some w) e (
          proceed (with_site cf store env member e x) (λ _ e'.
            proceed
              (with_copies cf store env member e'
                (drop_copies store (own_copies w e'.site.db.quarantine) e'.copies))
              (λ _ e''. (ok tt, erase_workspace cf store env member w e''))))
  unfolding with_site
  after_site-Part w e (raised n d, site) h = (refl, refl, h)
  after_site-Part w e (ok _, site) h =
      after_copies-Part w e (record e { site = site })
        (drop_copies store (own_copies w site.db.quarantine) e.copies) (refl, refl, h)

  erase_connected-Part :
      (w : Option ℕ) (e : Estate cf store) → Part w e (erase_connected cf store env member w e)
  unfolding erase_connected erase_in
  erase_connected-Part none e = (refl, tt)
  erase_connected-Part (some w) e =
      let rows = newest_first (select (in_workspace w) e.site.db.integrations) in
      let user : AuthUser = record { id = member.id; workspace_id = w } in
      if_both (Part (some w) e) (any (λ (r : Integration). is_provisioning r.status) rows)
        (refl, refl, refl)
        (after_site-Part w e (tear_down_each cf store env member user rows e.site)
          (tear_down_each-mail user rows e.site))

  -- Nothing of the member is left among the identities, and everybody else is.
  abbrev pub Forgotten : Identity → Identity → Type 0
  Forgotten before after =
      (select (λ id. id == member.id) after.users ≡ [])
      × (select (λ id. id == member.id) after.sessions ≡ [])
      × (select (λ id. id == member.id) after.accounts ≡ [])
      × (select (text_eq (lower (strip member.email))) after.verifications ≡ [])
      × (select (λ id. not (id == member.id)) after.users
          ≡ select (λ id. not (id == member.id)) before.users)
      × (select (λ id. not (id == member.id)) after.sessions
          ≡ select (λ id. not (id == member.id)) before.sessions)

  erase_identity-Forgotten : (t : Identity) → Forgotten t (erase_identity member t)
  unfolding erase_identity
  erase_identity-Forgotten t = (
    select-delete_self _ t.users,
    select-delete_self _ t.sessions,
    select-delete_self _ t.accounts,
    select-delete_self _ t.verifications,
    select-delete _ (λ id. id == member.id) (λ id h. rw h refl) t.users,
    select-delete _ (λ id. id == member.id) (λ id h. rw h refl) t.sessions,
  )

  abbrev pub Erasure : Estate cf store → Reply Done × Estate cf store → Type 0
  Erasure e (raised n d, e') = Untouched e e'
  Erasure e (ok _, e') = EmptiedOf member.workspace_id e' × Forgotten e.identity e'.identity

  emptied_still :
      (w : Option ℕ) (e : Estate cf store) (t : Identity)
      → EmptiedOf w e
      → EmptiedOf w (record e { identity = t })
  emptied_still none e t h = tt
  emptied_still (some w) e t h = h

  Part-Erasure :
      (e : Estate cf store) (x : Reply Done × Estate cf store)
      → Part member.workspace_id e x
      → Erasure e (proceed x (λ _. erase_identity_of cf store env member))
  unfolding erase_identity_of
  Part-Erasure e (raised n d, e') h = h
  Part-Erasure e (ok _, e') (identity, emptied) = (
    emptied_still member.workspace_id e' (erase_identity member e'.identity) emptied,
    subst (λ (t : Identity). Forgotten t (erase_identity member e'.identity)) identity
        (erase_identity-Forgotten e'.identity),
  )

  -- An erasure that succeeds leaves no row of the member's workspace in any of its tables and
  -- nothing of the member among the identities, and keeps the other users and sessions; one that
  -- is refused leaves the identities and every table that no disconnection writes as they were: all
  -- but the integrations, the tokens and the shield's states.
  pub erased_whole_or_kept : (e : Estate cf store) → Erasure e (erase_account cf store env member e)
  unfolding erase_account
  erased_whole_or_kept e =
      Part-Erasure e (erase_connected cf store env member member.workspace_id e)
        (erase_connected-Part member.workspace_id e)
