-- ===== src/Onboarding/Teardown/Requests.antt =====
-- What a disconnection asks of Cloudflare, and what it never does.
use mathlib.Core.Path.{subst}
use mathlib.Core.Bool.{true≢false}
use sicurre.Prelude.{
  ℕ, ◌≡◌, refl, ap, sym, ◌∙◌, inl, inr, Bool, true, false, not, ◌&&◌, Option, none, some, List, [],
  ◌∷◌, ◌++◌, ◌==◌, Option-cases, if_cases, if_both,
}
use sicurre.Prelude.Lists.{any, find, find-some, any-found}
use sicurre.Prelude.Table.{delete}
use sicurre.Prelude.Text.{
  Text, codes, text_eq, text_eq_refl, is_empty, lower, strip, strip_chars, rstrip_chars,
  starts_with,
}
use sicurre.Prelude.Http.{Reply, ok, raised}
use sicurre.Database.{Integration, AuthUser}
use sicurre.Dns.Records.{DnsRecord}
use sicurre.Gateway.{
  api_error, provider_conflict, http_error, Answer, returned, failed, Done, Rule, ZoneRecord,
  Command, enable_dns, register_address, put_worker, post_rule, remove_rule, remove_worker,
  put_record, post_record, Cloudflare, World, issue,
}
use sicurre.Gateway.Sends.{Sends, none-Sends, then-Sends, weaken-Sends, issue-Sends, bind-Sends}
use sicurre.Gateway.Paging.{get_dns_records}
use sicurre.Gateway.Rules.{routes, to_literal, to_forward, restore_unless, restore_forwarding}
use sicurre.Gateway.Zone.{replaces, id_of, write_record, deploy_dns_record}
use sicurre.Gateway.Teardown.{remove_rule_of, teardown}
use sicurre.Gateway.Teardown.Protection.{Unprotected, Permitted, protected_worker_stays}
use sicurre.Onboarding.{
  Env, Site, forwarding_to_restore, hosts_sicurre_dmarc_mailbox, has_remote_resources, has_id,
  is_error, set_integrations, is_provisioning,
}
use sicurre.Onboarding.Teardown.{
  TeardownRequest, CloudflareTeardownResponse, in_workspace, chosen, teardown_token, keeps_worker,
  restored, withdraw_to, withdrawn, withdraw_from, give_back, remove_row, purge_workspace,
  is_returned, torn_down, rule_of, tear_down, with_token, teardown_row, teardown_cloudflare,
}

module _ (cf : Cloudflare) (env : Env) (row : Integration) (rows : List Integration) where
  -- A TXT record of the zone at its _dmarc name whose content starts with v=DMARC1, under this
  -- identifier.
  abbrev pub is_dmarc_record : Text → ZoneRecord → Bool
  is_dmarc_record id r =
      text_eq r.id id
      && (text_eq r.entry.type (codes "TXT")
          && (text_eq (rstrip_chars (λ c. c == 46) (lower r.entry.name))
                (rstrip_chars (λ c. c == 46) (lower (codes "_dmarc." ++ row.zone_name)))
              && starts_with (lower (codes "v=DMARC1"))
                  (lower (strip_chars (λ c. c == 34) (strip r.entry.content)))))

  -- Such a record was among those that were read of the zone.
  abbrev pub IsDmarcRecord : Text → Type 0
  IsDmarcRecord id =
      (s : cf.State) × (records : List ZoneRecord) × (get_dns_records cf row.zone_id s
        ≡ returned records)
      × (any (is_dmarc_record id) records ≡ true)

  -- The requests that disconnecting a row may make.
  abbrev pub Disconnects : Command → Type 0
  Disconnects (remove_rule zone_id id) = (zone_id ≡ row.zone_id) × (id ≡ rule_of row)
  Disconnects (remove_worker account_id name) =
      (account_id ≡ row.account_id)
      × (name ≡ row.worker_name)
      × (keeps_worker env row rows ≡ false)
      × (s : cf.State) × Unprotected cf row.zone_id row.account_id row.worker_name (rule_of row)
          false s
  Disconnects (post_rule zone_id m action) =
      (address : Text) × (forward_to : Text) × (forwarding_to_restore row
        ≡ some (address, forward_to))
      × (zone_id ≡ row.zone_id)
      × (m ≡ to_literal address)
      × (action ≡ to_forward forward_to)
  Disconnects (put_record zone_id id r) =
      (zone_id ≡ row.zone_id)
      × (hosts_sicurre_dmarc_mailbox row.zone_name ≡ false)
      × (r.type ≡ codes "TXT")
      × (r.name ≡ codes "_dmarc." ++ row.zone_name)
      × IsDmarcRecord id
  Disconnects (post_record zone_id r) =
      (zone_id ≡ row.zone_id)
      × (hosts_sicurre_dmarc_mailbox row.zone_name ≡ false)
      × (r.type ≡ codes "TXT")
      × (r.name ≡ codes "_dmarc." ++ row.zone_name)
  Disconnects (enable_dns zone_id) = ⊥
  Disconnects (register_address account_id email) = ⊥
  Disconnects (put_worker account_id name bindings) = ⊥

  Permitted-Disconnects :
      (keep : Bool) (s : cf.State) (c : Command)
      → keep ≡ keeps_worker env row rows
      → Permitted cf row.zone_id row.account_id row.worker_name (rule_of row) keep s c
      → Disconnects c
  Permitted-Disconnects keep s c k (inl e) = subst Disconnects (sym e) (refl, refl)
  Permitted-Disconnects keep s c k (inr (e, kept, unprotected)) =
      subst Disconnects (sym e) (refl, refl, sym k ∙ kept, s, unprotected)

  restore_unless-Sends :
      (address forward_to : Text) (routed : Bool) (g : World cf)
      → forwarding_to_restore row ≡ some (address, forward_to)
      → Sends cf Disconnects g (restore_unless cf row.zone_id address forward_to routed g).1
  unfolding restore_unless
  restore_unless-Sends address forward_to true g e = none-Sends cf Disconnects g
  restore_unless-Sends address forward_to false g e =
      let post = post_rule row.zone_id (to_literal address) (to_forward forward_to) in
      bind-Sends cf Disconnects g (issue cf post g) (λ _ v. (returned true, v))
        (issue-Sends cf Disconnects post g (address, forward_to, e, refl, refl, refl))
        (λ _ v _. none-Sends cf Disconnects v)

  restored-Sends :
      (o : Option (Text × Text)) (g : World cf)
      → forwarding_to_restore row ≡ o
      → Sends cf Disconnects g (restored cf row o g)
  unfolding restored restore_forwarding
  restored-Sends none g e = none-Sends cf Disconnects g
  restored-Sends (some (address, forward_to)) (s, log) e =
      bind-Sends cf Disconnects (s, log) (cf.rules row.zone_id s, (s, log)) _
        (none-Sends cf Disconnects (s, log))
        (λ rules v _.
          restore_unless-Sends address forward_to
            (any (λ (r : Rule). any (routes address) r.matchers) rules) v e)

  replaced_record :
      (records : List ZoneRecord)
      → let found =
          find
            (replaces (codes "TXT") (codes "_dmarc." ++ row.zone_name) (some (codes "v=DMARC1")))
            records in
        is_empty (id_of found) ≡ false → any (is_dmarc_record (id_of found)) records ≡ true
  unfolding replaces sicurre.Gateway.Zone.zone_name
  replaced_record records h =
      let p = replaces (codes "TXT") (codes "_dmarc." ++ row.zone_name) (some (codes "v=DMARC1")) in
      elim (Option-cases (find p records)) [
        | inl e ↦ absurd (true≢false (rw e at h))
        | inr (x, e) ↦ rw e (
            any-found p (is_dmarc_record x.id) records e
              (rw (text_eq_refl x.id) (find-some p records e)))
      ]

  write_record-Sends :
      (body : DnsRecord) (id : Text) (g : World cf)
      → hosts_sicurre_dmarc_mailbox row.zone_name ≡ false
      → body.type ≡ codes "TXT"
      → body.name ≡ codes "_dmarc." ++ row.zone_name
      → (is_empty id ≡ false → IsDmarcRecord id)
      → Sends cf Disconnects g (write_record cf row.zone_id body id g).1
  unfolding write_record
  write_record-Sends body [] g h t e k =
      bind-Sends cf Disconnects g (issue cf (post_record row.zone_id body) g) _
        (issue-Sends cf Disconnects (post_record row.zone_id body) g (refl, h, t, e))
        (λ _ v _. none-Sends cf Disconnects v)
  write_record-Sends body (c ∷ id) g h t e k =
      bind-Sends cf Disconnects g (issue cf (put_record row.zone_id (c ∷ id) body) g) _
        (issue-Sends cf Disconnects (put_record row.zone_id (c ∷ id) body) g
          (refl, h, t, e, k refl))
        (λ _ v _. none-Sends cf Disconnects v)

  deploy_dns_record-Sends :
      (content : Text) (g : World cf)
      → hosts_sicurre_dmarc_mailbox row.zone_name ≡ false
      → Sends cf Disconnects g
          (deploy_dns_record cf row.zone_id
            (codes "TXT")
            (codes "_dmarc." ++ row.zone_name)
            content
            (some (codes "v=DMARC1"))
            g).1
  unfolding deploy_dns_record
  deploy_dns_record-Sends content (s, log) h =
      bind-Sends cf Disconnects (s, log) (get_dns_records cf row.zone_id s, (s, log)) _
        (none-Sends cf Disconnects (s, log))
        (λ records v e. write_record-Sends _ _ v h refl refl (λ ne. (
          s,
          records,
          ap (λ (x : Answer (List ZoneRecord) × World cf). x.0) e,
          replaced_record records ne,
        )))

  is_returned-world : (x : Answer Done × World cf) → (is_returned cf x).1 ≡ x.1
  unfolding is_returned
  is_returned-world (returned _, g) = refl
  is_returned-world (failed _, g) = refl

  withdraw_to-Sends :
      (o : Option Text) (g : World cf)
      → hosts_sicurre_dmarc_mailbox row.zone_name ≡ false
      → Sends cf Disconnects g (withdraw_to cf row o g).1
  unfolding withdraw_to
  withdraw_to-Sends none g h = none-Sends cf Disconnects g
  withdraw_to-Sends (some content) g h =
      subst (Sends cf Disconnects g)
        (sym (
          is_returned-world (
            deploy_dns_record cf row.zone_id (codes "TXT") (codes "_dmarc." ++ row.zone_name)
              content (some (codes "v=DMARC1")) g)))
        (deploy_dns_record-Sends content g h)

  withdraw_from-Sends :
      (records : Answer (List ZoneRecord)) (g : World cf)
      → Sends cf Disconnects g (withdraw_from cf row records g).1
  unfolding withdraw_from withdrawn withdraw_to
  withdraw_from-Sends (failed _) g = none-Sends cf Disconnects g
  withdraw_from-Sends (returned records) g =
      if_cases (λ (o : Option Text). Sends cf Disconnects g (withdraw_to cf row o g).1)
        (hosts_sicurre_dmarc_mailbox row.zone_name) (λ _. none-Sends cf Disconnects g)
        (withdraw_to-Sends _ g)

  pub give_back-Sends : (g : World cf) → Sends cf Disconnects g (give_back cf row g).1
  unfolding give_back
  give_back-Sends g =
      let g' = restored cf row (forwarding_to_restore row) g in
      then-Sends cf Disconnects g g' (give_back cf row g).1
        (restored-Sends (forwarding_to_restore row) g refl)
        (withdraw_from-Sends (get_dns_records cf row.zone_id g'.0) g')

  -- From the site's gateway, only such requests were made.
  abbrev Asks : Site cf → Reply CloudflareTeardownResponse × Site cf → Type 0
  Asks s x = Sends cf Disconnects s.gateway x.1.gateway

  purge_workspace-Asks :
      (workspace : ℕ) (last : Bool) (s t : Site cf)
      → Sends cf Disconnects s.gateway t.gateway
      → Sends cf Disconnects s.gateway (purge_workspace cf workspace last t).gateway
  unfolding purge_workspace
  purge_workspace-Asks workspace true s t h = h
  purge_workspace-Asks workspace false s t h = h

  remove_row-Asks :
      (workspace : ℕ) (withdrew : Bool) (s t : Site cf)
      → Sends cf Disconnects s.gateway t.gateway
      → Asks s (remove_row cf row workspace withdrew t)
  unfolding remove_row
  remove_row-Asks workspace withdrew s t h =
      let rows' = delete (has_id row.id) t.db.integrations in
      purge_workspace-Asks workspace
        (not (any (in_workspace workspace) rows')
          && not (is_error row.status && not (has_remote_resources row)))
        s (set_integrations (λ _. rows') t) h

  torn_down-Asks :
      (workspace : ℕ) (a : Answer Done) (s t : Site cf)
      → Sends cf Disconnects s.gateway t.gateway
      → Asks s (torn_down cf row workspace a t)
  unfolding torn_down
  torn_down-Asks workspace (failed http_error) s t h = h
  torn_down-Asks workspace (failed (api_error code message)) s t h = h
  torn_down-Asks workspace (failed (provider_conflict hosts)) s t h = h
  torn_down-Asks workspace (returned u) s t h =
      remove_row-Asks workspace (give_back cf row t.gateway).0 s
        (record t { gateway = (give_back cf row t.gateway).1 })
        (then-Sends cf Disconnects s.gateway t.gateway (give_back cf row t.gateway).1 h
          (give_back-Sends t.gateway))

  with_token-Asks :
      (workspace : ℕ) (t : Reply Text) (s : Site cf)
      → s.db.integrations ≡ rows
      → Asks s (with_token cf env row workspace t s)
  unfolding with_token tear_down
  with_token-Asks workspace (raised n d) s e = none-Sends cf Disconnects s.gateway
  with_token-Asks workspace (ok token) s e =
      let keep = keeps_worker env row s.db.integrations in
      let after =
        teardown cf row.zone_id row.account_id row.worker_name (rule_of row) keep s.gateway in
      let seen = (remove_rule_of cf row.zone_id (rule_of row) s.gateway).1.0 in
      torn_down-Asks workspace after.0 s (record s { gateway = after.1 })
        (weaken-Sends cf
          (Permitted cf row.zone_id row.account_id row.worker_name (rule_of row) keep seen)
          Disconnects s.gateway after.1
          (λ c. Permitted-Disconnects keep seen c (ap (keeps_worker env row) e))
          (protected_worker_stays cf row.zone_id row.account_id row.worker_name (rule_of row) keep
            s.gateway))

  teardown_row-Asks :
      (given : Text) (workspace : ℕ) (s : Site cf)
      → s.db.integrations ≡ rows
      → Asks s (teardown_row cf env given workspace (some row) s)
  unfolding teardown_row
  teardown_row-Asks given workspace s e =
      if_both (Asks s) (is_provisioning row.status) (none-Sends cf Disconnects s.gateway) (
        if_both (Asks s) (has_remote_resources row)
          (with_token-Asks workspace (teardown_token env given row s.config workspace) s e)
          (remove_row-Asks workspace true s s (none-Sends cf Disconnects s.gateway)))

module _ (cf : Cloudflare) (env : Env) where
  -- Disconnecting the chosen row asks Cloudflare for nothing but the removal of its own rule, the
  -- removal of its own Worker if no other row and no setting shares it and the zone's catch-all
  -- was read and names another one, the forward of the protected address to its own destination,
  -- and, if the zone does not host the platform's mailbox, a TXT record at its _dmarc name: in place
  -- of a DMARC record that was read there, or as a new record.
  pub disconnection_spares_the_rest :
      (payload : TeardownRequest) (user : AuthUser) (s : Site cf) (row : Integration)
      → chosen payload.integration_id user.workspace_id s.db.integrations ≡ some row
      → Sends cf
          (Disconnects cf env row s.db.integrations)
          s.gateway
          (teardown_cloudflare cf env payload user s).1.gateway
  unfolding teardown_cloudflare
  disconnection_spares_the_rest payload user s row e =
      rw e (
        teardown_row-Asks cf env row s.db.integrations payload.cf_api_token user.workspace_id s
          refl)
