-- ===== src/Onboarding/Setup.antt =====
-- setup_cloudflare and its helpers: connect a domain, or re-apply the consented fixes.
use sicurre.Prelude.{
  ℕ, Bool, true, false, not, ◌&&◌, ◌||◌, Option, none, some, List, [], ◌∷◌, ◌++◌, ◌==◌,
  if◌then◌else◌,
}
use sicurre.Prelude.Lists.{any, find, take}
use sicurre.Prelude.Table.{update, delete}
use sicurre.Prelude.Text.{Text, codes, text_eq, is_empty, or_else}
use sicurre.Prelude.Http.{Reply, ok, raised, reject}
use sicurre.Database.{Db, Integration, IntegrationStatus, provisioning, error, AuthUser}
use sicurre.Shield.Sync.{Provisioner, SyncResult}
use sicurre.Gateway.{
  Failure, api_error, provider_conflict, http_error, Answer, returned, failed, Done, Cloudflare,
  World,
}
use sicurre.Gateway.Rules.{deploy_email_worker}
use sicurre.Onboarding.{
  CloudflareConfig, CloudflareSetupRequest, BackgroundTask, Env, Site, message_of,
  has_remote_resources, has_id, is_error, is_provisioning, set_integrations, add_alert, sync_alert,
  run_sync,
}
pub mod Completion

pub record CloudflareSetupResponse : Type 0 where
  pub integration_id : ℕ
  pub status : IntegrationStatus
  pub zone_name : Text
  pub destination_email : Text
  pub worker_updated : Bool

abbrev pub of_workspace : ℕ → CloudflareConfig → Bool
of_workspace workspace c = c.workspace_id == workspace

-- The token that a row of app_cloudflare_config gives.
unfoldable pub stored_token : Env → Option CloudflareConfig → Reply Text
stored_token env none = ok []
stored_token env (some c) = if is_empty c.api_token then ok [] else elim (env.decrypt c.api_token) [
  | none ↦ reject 500 "Internal Server Error"
  | some t ↦ ok t
]

unfoldable pub required : Reply Text → Reply Text
required (raised n d) = raised n d
required (ok t) = if is_empty t then reject 400 "Cloudflare API token is not configured" else ok t

-- `_resolve_api_token`
unfoldable pub resolve_api_token :
    Env → CloudflareSetupRequest → ℕ → List CloudflareConfig → Reply Text
unfolding stored_token required
resolve_api_token env payload workspace config = required (
    if is_empty payload.cf_api_token
    then stored_token env (find (of_workspace workspace) config)
    else ok payload.cf_api_token)

-- WHERE id = ? AND workspace_id = ?
abbrev pub own_row : ℕ → ℕ → Integration → Bool
own_row id workspace r = r.id == id && r.workspace_id == workspace

-- WHERE workspace_id = ? AND zone_name = ?
abbrev pub own_zone : ℕ → Text → Integration → Bool
own_zone workspace zone_name r = r.workspace_id == workspace && text_eq r.zone_name zone_name

module _ (cf : Cloudflare) where
  -- `_forget_failed_local_attempt`
  unfoldable pub forget_failed_local_attempt :
      Option Integration → ℕ → Site cf → Option Integration × Site cf
  forget_failed_local_attempt none workspace s = (none, s)
  forget_failed_local_attempt (some row) workspace s =
      if is_error row.status && not (has_remote_resources row)
      then (none, set_integrations (delete (own_row row.id workspace)) s)
      else (some row, s)

  -- INSERT ... ON CONFLICT(workspace_id) DO UPDATE SET ...
  unfoldable pub store_workspace_token : Env → ℕ → Text → Site cf → Site cf
  store_workspace_token env workspace token s =
      let c : CloudflareConfig = record {
        workspace_id = workspace;
        api_token = env.encrypt token;
        updated_at = env.now;
      } in
      record s {
        config =
            if any (of_workspace workspace) s.config
            then update (of_workspace workspace) (λ _. c) s.config
            else s.config ++ (c ∷ []);
      }

module _ (cf : Cloudflare) (dns : Provisioner) (env : Env) (payload : CloudflareSetupRequest)
    (workspace : ℕ) (token : Text) where
  unfoldable pub refused_row : Text → Integration → Integration
  refused_row message r = record r {
    error_message = some (take 500 message);
    api_token = some (env.encrypt token);
    updated_at = env.now;
  }

  unfoldable pub resync_done :
      Integration → Bool → Site cf → Reply CloudflareSetupResponse × Site cf
  unfolding store_workspace_token
  resync_done row updated s = (
    ok (record {
      integration_id = row.id;
      status = row.status;
      zone_name = payload.zone_name;
      destination_email = row.destination_email;
      worker_updated = updated;
    }),
    add_alert (sync_alert env workspace payload.zone_name (codes "Configuration DNS appliquée")) (
        store_workspace_token cf env workspace token (
          set_integrations
            (update (has_id row.id) (λ r. record r {
              api_token = some (env.encrypt token);
              error_message = none;
              updated_at = env.now;
            }))
            s)),
  )

  unfoldable pub redeployed :
      Integration → Answer Done → Site cf → Reply CloudflareSetupResponse × Site cf
  unfolding resync_done refused_row
  redeployed row (returned _) s = resync_done row true (
      set_integrations
        (update (has_id row.id) (λ r. record r {
          shared_secret_hash = env.sha256_text env.secret;
          api_token = some (env.encrypt token);
          error_message = none;
          updated_at = env.now;
        }))
        s)
  redeployed row (failed http_error) s = (reject 500 "Internal Server Error", s)
  redeployed row (failed (api_error code message)) s = (
    raised 502 (codes "Cloudflare Worker update failed: " ++ message),
    set_integrations (update (has_id row.id) (refused_row message)) s,
  )
  redeployed row (failed (provider_conflict hosts)) s = (
    raised 502 (codes "Cloudflare Worker update failed: " ++ message_of (provider_conflict hosts)),
    set_integrations (update (has_id row.id) (refused_row (message_of (provider_conflict hosts))))
        s,
  )

  unfoldable pub redeploy : Integration → Site cf → Reply CloudflareSetupResponse × Site cf
  unfolding redeployed
  redeploy row s =
      let (answer, g) =
        deploy_email_worker cf row.account_id row.worker_name env.scan_url env.secret
          row.destination_email env.ingest_key false s.gateway in
      redeployed row answer (record s { gateway = g })

  abbrev pub has_worker : Integration → Bool
  has_worker row =
      not (is_empty row.account_id)
      && (not (is_empty row.worker_name) && not (is_empty row.destination_email))

  unfoldable pub resynced :
      Integration → Option SyncResult × Site cf → Reply CloudflareSetupResponse × Site cf
  unfolding redeploy resync_done refused_row
  resynced row (none, s) = (
    raised 502 (codes "Cloudflare DNS update failed: " ++ env.sync_error),
    set_integrations (update (has_id row.id) (refused_row env.sync_error)) s,
  )
  resynced row (some _, s) = if has_worker row then redeploy row s else resync_done row false s

  -- `_resync_connected_domain`
  unfoldable pub resync_connected_domain :
      Integration → Site cf → Reply CloudflareSetupResponse × Site cf
  unfolding resynced
  resync_connected_domain row s =
      if is_provisioning row.status
      then (
        raised 409 (
            codes "An auto-configuration for "
            ++ payload.zone_name
            ++ codes " is already running in the background. Please wait."),
        s,
      )
      else resynced row (run_sync cf dns env workspace payload.zone_name payload.fix none s)

  unfoldable pub new_row : Text → Integration
  new_row user_email = record {
    id = env.new_id;
    user_email = user_email;
    workspace_id = workspace;
    zone_id = [];
    zone_name = payload.zone_name;
    account_id = [];
    worker_name = [];
    rule_id = codes "unknown";
    destination_email = payload.destination_email;
    api_token = some (env.encrypt token);
    shared_secret_hash = 0;
    status = provisioning;
    error_message = none;
    created_at = env.now;
    updated_at = env.now;
  }

  unfoldable pub started : Option SyncResult × Site cf → Reply CloudflareSetupResponse × Site cf
  started (none, s) = (
    raised 502 (codes "Cloudflare DNS update failed: " ++ env.sync_error),
    set_integrations
        (update (has_id env.new_id) (λ r. record r {
          status = error;
          error_message = some (take 500 env.sync_error);
          updated_at = env.now;
        }))
        s,
  )
  started (some _, s) = (
    ok (record {
      integration_id = env.new_id;
      status = provisioning;
      zone_name = payload.zone_name;
      destination_email = payload.destination_email;
      worker_updated = false;
    }),
    record s {
      tasks =
          s.tasks
          ++ (record {
            api_token = token;
            integration_id = env.new_id;
            workspace_id = workspace;
            zone_name = payload.zone_name;
            destination_email = payload.destination_email;
            fix = payload.fix;
          }
              ∷ []);
    },
  )

  -- `_start_provisioning`
  unfoldable pub start_provisioning : Text → Site cf → Reply CloudflareSetupResponse × Site cf
  unfolding started new_row store_workspace_token
  start_provisioning user_email s = started (
      run_sync cf dns env workspace payload.zone_name payload.fix none (
        store_workspace_token cf env workspace token
          (set_integrations (λ rows. rows ++ (new_row user_email ∷ [])) s)))

  unfoldable pub connect_or_resync :
      Text → Option Integration × Site cf → Reply CloudflareSetupResponse × Site cf
  unfolding resync_connected_domain start_provisioning
  connect_or_resync user_email (some row, s) = resync_connected_domain row s
  connect_or_resync user_email (none, s) = start_provisioning user_email s

module _ (cf : Cloudflare) (dns : Provisioner) (env : Env) (payload : CloudflareSetupRequest)
    (user : AuthUser) (user_email : Text) where
  unfoldable pub set_up :
      Option Integration → Reply Text → Site cf → Reply CloudflareSetupResponse × Site cf
  unfolding connect_or_resync forget_failed_local_attempt
  set_up existing (raised n d) s = (raised n d, s)
  set_up existing (ok token) s =
      connect_or_resync cf dns env payload user.workspace_id token user_email
        (forget_failed_local_attempt cf existing user.workspace_id s)

  unfoldable pub setup_cloudflare : Site cf → Reply CloudflareSetupResponse × Site cf
  unfolding set_up resolve_api_token
  setup_cloudflare s =
      set_up (find (own_zone user.workspace_id payload.zone_name) s.db.integrations)
        (resolve_api_token env payload user.workspace_id s.config) s
