-- ===== src/Onboarding/Teardown/Outcome.antt =====
-- How a disconnection ends, in every case.
use mathlib.Core.Bool.{true≢false}
use mathlib.Core.Path.{subst}
use mathlib.Core.List.{append_assoc}
use sicurre.Prelude.{
  ℕ, ◌≡◌, refl, ap, sym, ◌∙◌, Bool, true, false, not, ◌&&◌, ◌||◌, ◌++◌, ◌∷◌, some, List, ◌==◌,
  if_cases,
}
use sicurre.Prelude.Lists.{any}
use sicurre.Prelude.Table.{select, delete, select-delete}
use sicurre.Prelude.Text.{Text, codes, is_empty, text_eq}
use sicurre.Prelude.Http.{Reply, ok, raised}
use sicurre.Database.{Db, Integration, AuthUser}
use sicurre.Shield.Sync.{ShieldStatus}
use sicurre.Gateway.{
  api_error, provider_conflict, http_error, Answer, returned, failed, Done, Command, remove_rule,
  Cloudflare, World,
}
use sicurre.Gateway.Teardown.{teardown}
use sicurre.Gateway.Teardown.Protection.{teardown_asks}
use sicurre.Onboarding.Teardown.Requests.{give_back-Sends}
use sicurre.Onboarding.{
  CloudflareConfig, Env, Site, has_remote_resources, has_id, is_error, is_provisioning,
  set_integrations,
}
use sicurre.Onboarding.Setup.{of_workspace}
use sicurre.Onboarding.Teardown.{
  TeardownRequest, CloudflareTeardownResponse, in_workspace, chosen, teardown_token, keeps_worker,
  give_back, purge_workspace, remove_row, torn_down, rule_of, tear_down, with_token, teardown_row,
  teardown_cloudflare,
}

not-true : (b : Bool) → not b ≡ true → b ≡ false
not-true false h = refl
not-true true h = absurd cc

module _ (cf : Cloudflare) (env : Env) (workspace : ℕ) where
  -- What other workspaces have.
  abbrev pub others_config : List CloudflareConfig → List CloudflareConfig
  others_config = select (λ c. not (of_workspace workspace c))

  abbrev pub others_shield : List ShieldStatus → List ShieldStatus
  others_shield = select (λ r. not (r.workspace_id == workspace))

  abbrev pub torn_down_remotely : Integration → Site cf → Answer Done
  torn_down_remotely row s =
      (teardown cf row.zone_id row.account_id row.worker_name (rule_of row)
        (keeps_worker env row s.db.integrations) s.gateway).0

  abbrev pub has_rule : Integration → Bool
  has_rule row = not (is_empty (rule_of row) || text_eq (rule_of row) (codes "unknown"))

  -- The next request after those of the site was the removal of the row's rule.
  abbrev pub AsksFirst : Integration → Site cf → World cf → Type 0
  AsksFirst row s g =
      (rest : List Command) × (g.1 ≡ s.gateway.1 ++ (remove_rule row.zone_id (rule_of row) ∷ rest))

  -- A refusal leaves the tables as they were; a success removes this row and nothing of another
  -- workspace, and only after the teardown at Cloudflare returned.
  abbrev pub Ends : Integration → Site cf → Reply CloudflareTeardownResponse × Site cf → Type 0
  Ends row s (raised n d, s') = (s'.db ≡ s.db) × (s'.config ≡ s.config) × (s'.shield ≡ s.shield)
  Ends row s (ok response, s') =
      (is_provisioning row.status ≡ false)
      × (has_remote_resources row ≡ true
          → (torn_down_remotely row s ≡ returned tt)
            × (has_rule row ≡ true → AsksFirst row s s'.gateway))
      × (s'.db.integrations ≡ delete (has_id row.id) s.db.integrations)
      × (others_config s'.config ≡ others_config s.config)
      × (others_shield s'.shield ≡ others_shield s.shield)

  purge_workspace-others :
      (last : Bool) (s : Site cf)
      → ((purge_workspace cf workspace last s).db ≡ s.db)
        × (others_config (purge_workspace cf workspace last s).config ≡ others_config s.config)
        × (others_shield (purge_workspace cf workspace last s).shield ≡ others_shield s.shield)
        × ((purge_workspace cf workspace last s).gateway ≡ s.gateway)
  unfolding purge_workspace
  purge_workspace-others false s = (refl, refl, refl, refl)
  purge_workspace-others true s = (
    refl,
    select-delete _ (of_workspace workspace) (λ c h. rw h refl) s.config,
    select-delete _ (λ (r : ShieldStatus). r.workspace_id == workspace) (λ r h. rw h refl) s.shield,
    refl,
  )

  remove_row-Ends :
      (row : Integration) (s : Site cf) (g : World cf) (withdrew : Bool)
      → is_provisioning row.status ≡ false
      → (has_remote_resources row ≡ true
          → (torn_down_remotely row s ≡ returned tt) × (has_rule row ≡ true → AsksFirst row s g))
      → Ends row s (remove_row cf row workspace withdrew (record s { gateway = g }))
  unfolding remove_row
  remove_row-Ends row s g withdrew h k =
      let rows = delete (has_id row.id) s.db.integrations in
      let (db, config, shield, gateway) =
        purge_workspace-others
          (not (any (in_workspace workspace) rows)
            && not (is_error row.status && not (has_remote_resources row)))
          (set_integrations (λ _. rows) (record s { gateway = g })) in
      (
        h,
        λ e. ((k e).0, λ r. subst (AsksFirst row s) (sym gateway) ((k e).1 r)),
        ap (λ (d : Db). d.integrations) db,
        config,
        shield,
      )

  torn_down-Ends :
      (row : Integration) (a : Answer Done) (s : Site cf) (g : World cf)
      → is_provisioning row.status ≡ false
      → torn_down_remotely row s ≡ a
      → (has_rule row ≡ true → AsksFirst row s g)
      → Ends row s (torn_down cf row workspace a (record s { gateway = g }))
  unfolding torn_down
  torn_down-Ends row (failed http_error) s g h e f = (refl, refl, refl)
  torn_down-Ends row (failed (api_error code message)) s g h e f = (refl, refl, refl)
  torn_down-Ends row (failed (provider_conflict hosts)) s g h e f = (refl, refl, refl)
  torn_down-Ends row (returned u) s g h e f =
      let (added, more, _) = give_back-Sends cf env row s.db.integrations g in
      remove_row-Ends row s (give_back cf row g).1 (give_back cf row g).0 h (λ _. (
        e,
        λ r.
            let (rest, first) = f r in
            (
              rest ++ added,
              more
                  ∙ ap (λ (l : List Command). l ++ added) first
                  ∙ append_assoc s.gateway.1 (remove_rule row.zone_id (rule_of row) ∷ rest) added,
            ),
      ))

  with_token-Ends :
      (row : Integration) (t : Reply Text) (s : Site cf)
      → is_provisioning row.status ≡ false
      → Ends row s (with_token cf env row workspace t s)
  unfolding with_token tear_down
  with_token-Ends row (raised n d) s h = (refl, refl, refl)
  with_token-Ends row (ok token) s h =
      torn_down-Ends row (torn_down_remotely row s) s _ h refl (λ r.
        teardown_asks cf row.zone_id row.account_id row.worker_name (rule_of row)
          (keeps_worker env row s.db.integrations) (not-true _ r) s.gateway)

  teardown_row-Ends :
      (given : Text) (row : Integration) (s : Site cf)
      → Ends row s (teardown_row cf env given workspace (some row) s)
  unfolding teardown_row
  teardown_row-Ends given row s =
      if_cases (Ends row s) (is_provisioning row.status) (λ _. (refl, refl, refl))
        (λ h.
          if_cases (Ends row s) (has_remote_resources row)
            (λ _. with_token-Ends row (teardown_token env given row s.config workspace) s h)
            (λ k. remove_row-Ends row s s.gateway true h (λ e. absurd (true≢false (sym e ∙ k)))))

module _ (cf : Cloudflare) (env : Env) where
  -- A disconnection of the chosen row that is refused leaves every table as it was; one that
  -- succeeds was not asked for while the row was provisioning, had the teardown at Cloudflare return
  -- first if the row names remote resources, with the removal of the row's rule, if it has one, as
  -- the first request (a rule that Cloudflare refuses to remove is left), deletes exactly this row,
  -- and keeps the tokens and the shield rows of other workspaces.
  pub disconnected_only_after_teardown :
      (payload : TeardownRequest) (user : AuthUser) (s : Site cf) (row : Integration)
      → chosen payload.integration_id user.workspace_id s.db.integrations ≡ some row
      → Ends cf env user.workspace_id row s (teardown_cloudflare cf env payload user s)
  unfolding teardown_cloudflare
  disconnected_only_after_teardown payload user s row e =
      rw e (teardown_row-Ends cf env user.workspace_id payload.cf_api_token row s)
