-- ===== src/Onboarding/Setup/Completion.antt =====
-- A domain's setup as the interface sees it: a running one is left alone, and an accepted one is
-- carried to its end by the task that it queues.
use sicurre.Prelude.{◌≡◌, refl, ap, Option, none, some, List, [], ◌∷◌, ◌++◌, ==_refl}
use sicurre.Prelude.Lists.{find, find-append}
use sicurre.Prelude.Text.{Text}
use sicurre.Prelude.Http.{Reply, ok, raised}
use sicurre.Database.{Integration, AuthUser, provisioning}
use sicurre.Shield.Sync.{Provisioner, SyncResult}
use sicurre.Gateway.{Cloudflare}
use sicurre.Onboarding.{CloudflareSetupRequest, BackgroundTask, Env, Site, has_id, run_sync}
use sicurre.Onboarding.Setup.{
  CloudflareSetupResponse, own_zone, resolve_api_token, forget_failed_local_attempt,
  store_workspace_token, resync_connected_domain, new_row, started, start_provisioning,
  connect_or_resync, set_up, setup_cloudflare,
}
use sicurre.Onboarding.Background.{provision_connected_domain}
use sicurre.Onboarding.Background.Settled.{Settled, answer_of, provisioning_ends}

abbrev Refused : {cf : Cloudflare} → Site cf → Reply CloudflareSetupResponse × Site cf → Type 0
Refused s (ok response, s') = ⊥
Refused s (raised n d, s') = s' ≡ s

module _ (cf : Cloudflare) (dns : Provisioner) (env : Env) (payload : CloudflareSetupRequest)
    (user : AuthUser) (user_email : Text) where
  set_up-waits :
      (row : Integration) (t : Reply Text) (s : Site cf)
      → row.status ≡ provisioning
      → Refused s (set_up cf dns env payload user user_email (some row) t s)
  unfolding set_up connect_or_resync forget_failed_local_attempt resync_connected_domain
  set_up-waits row (raised n d) s e = refl
  set_up-waits row (ok token) s e = rw e refl

  -- A setup of a zone whose row is provisioning is refused, and changes nothing.
  pub setup_waits_for_running_one :
      (s : Site cf) (row : Integration)
      → find (own_zone user.workspace_id payload.zone_name) s.db.integrations ≡ some row
      → row.status ≡ provisioning
      → Refused s (setup_cloudflare cf dns env payload user user_email s)
  unfolding setup_cloudflare
  setup_waits_for_running_one s row e h =
      rw e (set_up-waits row (resolve_api_token env payload user.workspace_id s.config) s h)

  -- The queued task brings the new row to an end, in whatever surroundings it runs.
  abbrev pub Carried : Reply Text → Site cf → Reply CloudflareSetupResponse × Site cf → Type 0
  Carried known s (raised n d, s') = Unit
  Carried known s (ok response, s') =
      (t : BackgroundTask) × (s'.tasks ≡ s.tasks ++ (t ∷ []))
      × (known ≡ ok t.api_token)
      × (t.integration_id ≡ env.new_id)
      × (t.workspace_id ≡ user.workspace_id)
      × (t.zone_name ≡ payload.zone_name)
      × (t.destination_email ≡ payload.destination_email)
      × (t.fix ≡ payload.fix)
      × ((later : Env)
          → (r : Integration) × (find (has_id env.new_id)
                (provision_connected_domain cf dns later t s').db.integrations
              ≡ some r)
            × Settled (answer_of cf dns later t s') r)

  started-Carried :
      (token : Text) (s : Site cf) (result : Option SyncResult) (s' : Site cf) (row : Integration)
      → find (has_id env.new_id) s'.db.integrations ≡ some row
      → s'.tasks ≡ s.tasks
      → Carried (ok token) s (started cf dns env payload user.workspace_id token (result, s'))
  unfolding started
  started-Carried token s none s' row e h = tt
  started-Carried token s (some result) s' row e h =
      let t : BackgroundTask = record {
        api_token = token;
        integration_id = env.new_id;
        workspace_id = user.workspace_id;
        zone_name = payload.zone_name;
        destination_email = payload.destination_email;
        fix = payload.fix;
      } in
      (
        t,
        ap (λ (ts : List BackgroundTask). ts ++ (t ∷ [])) h,
        refl,
        refl,
        refl,
        refl,
        refl,
        refl,
        λ later.
            provisioning_ends cf dns later t (record s' { tasks = s'.tasks ++ (t ∷ []) }) row e,
      )

  set_up-Carried :
      (t : Reply Text) (s : Site cf)
      → find (has_id env.new_id) s.db.integrations ≡ none
      → Carried t s (set_up cf dns env payload user user_email none t s)
  unfolding set_up connect_or_resync forget_failed_local_attempt start_provisioning run_sync new_row
      store_workspace_token
  set_up-Carried (raised n d) s h = tt
  set_up-Carried (ok token) s h =
      started-Carried token s _ _ (new_row cf dns env payload user.workspace_id token user_email)
        (find-append (has_id env.new_id) s.db.integrations
          (new_row cf dns env payload user.workspace_id token user_email) h (==_refl env.new_id))
        refl

  -- A setup of a zone that the workspace has no row of, under an unused identifier, that is
  -- accepted queues one task, for the new row, with the zone, the destination and the fixes that
  -- were asked for and the token that was resolved; and that task, run on the tables the setup
  -- left, brings the new row to the end that Cloudflare's answer gives it.
  pub setup_ends_as_answered :
      (s : Site cf)
      → find (own_zone user.workspace_id payload.zone_name) s.db.integrations ≡ none
      → find (has_id env.new_id) s.db.integrations ≡ none
      → Carried
          (resolve_api_token env payload user.workspace_id s.config)
          s
          (setup_cloudflare cf dns env payload user user_email s)
  unfolding setup_cloudflare
  setup_ends_as_answered s e h =
      rw e (set_up-Carried (resolve_api_token env payload user.workspace_id s.config) s h)
