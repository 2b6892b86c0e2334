-- ===== src/Gateway/Provisioning/Interception.antt =====
-- Mail is rerouted last: no routing rule is touched before the Worker that it names is deployed.
use mathlib.Core.Path.{subst}
use sicurre.Prelude.{
  ℕ, ◌≡◌, refl, ap, sym, ◌++◌, Bool, true, false, List, [], ◌∷◌, Option, none, some, arith, if_both,
}
use sicurre.Prelude.Lists.{All, any, find, take}
use sicurre.Prelude.Text.{Text, codes, is_empty, same_name}
use sicurre.Gateway.{
  api_error, provider_conflict, http_error, Answer, returned, failed, Done, Rule, Address,
  WorkerBinding, ZoneRecord, Command, enable_dns, register_address, put_worker, post_rule,
  remove_rule, remove_worker, put_record, post_record, Cloudflare, World, issue, ◌>>=◌,
}
use sicurre.Gateway.Sends.{Sends, none-Sends, issue-Sends, bind-Sends, bind-returned, weaken-Sends}
use sicurre.Gateway.Paging.{get_dns_records}
use sicurre.Gateway.Routing.{
  is_cloudflare_mx, is_mx, mx_host, mx_hosts, activated, enable_unless, enable_for,
  enable_email_routing, already_enabled,
}
use sicurre.Gateway.Rules.{
  to_worker, to_literal, worker_bindings, conflicting, registered, create_destination_address,
  deploy_email_worker, delete_email_rule, delete_rules, create_email_routing_rule,
}
use sicurre.Gateway.Zone.{get_zone, first_zone}
use sicurre.Gateway.Provisioning.{
  actual_forward_to, gateway_worker, connect, connect_zone, provision,
}

-- The Worker that a zone's gateway has of its own.
abbrev pub own_worker : Text → Text
own_worker zone_id = codes "sicurre-gw-" ++ take 8 zone_id

-- No MX record of the list names a host.
abbrev pub NoMailHost : List ZoneRecord → Type 0
NoMailHost = All (λ (r : ZoneRecord). is_mx r ≡ true → is_empty (mx_host r) ≡ true)

mx_hosts-NoMailHost : (records : List ZoneRecord) → mx_hosts records ≡ [] → NoMailHost records
unfolding mx_hosts
mx_hosts-NoMailHost [] h = tt
mx_hosts-NoMailHost (r ∷ rs) h = (ground arith, mx_hosts-NoMailHost rs (ground arith))

module _ (cf : Cloudflare) (zone_id account target : Text) where
  -- Cloudflare accepted the zone's Worker.
  abbrev pub Deployed : Type 0
  Deployed =
      (bindings : List WorkerBinding) × (s : cf.State) × (tag : Text) × ((cf.send
          (put_worker account (own_worker zone_id) bindings) s).0
        ≡ returned tag)

  -- What has to hold before a request is made for the zone: Email Routing is turned on where the
  -- zone's records were read and no MX record names a host, no Worker but the zone's own is written,
  -- and a rule is removed or written after that Worker was accepted.
  abbrev pub Gated : Command → Type 0
  Gated (post_rule zone m action) =
      (zone ≡ zone_id)
      × Deployed
      × (m ≡ to_literal target)
      × (action ≡ to_worker (own_worker zone_id))
  Gated (remove_rule zone id) = (zone ≡ zone_id) × Deployed
  Gated (remove_worker owner name) = ⊥
  Gated (put_record zone id r) = ⊥
  Gated (post_record zone r) = ⊥
  Gated (enable_dns zone) =
      (zone ≡ zone_id)
      × ((s : cf.State) × (records : List ZoneRecord) × (get_dns_records cf zone_id s
            ≡ returned records)
          × NoMailHost records)
  Gated (register_address owner email) = owner ≡ account
  Gated (put_worker owner name bindings) = (owner ≡ account) × (name ≡ own_worker zone_id)

  pure-Sends {ℓ κ} :
      {A : Type ℓ} {B : Type κ} (w : World cf) (x : Answer A × World cf) (g : A → Answer B)
      → Sends cf Gated w x.1
      → Sends cf Gated w (x >>= λ a v. (g a, v)).1
  pure-Sends w x g h = bind-Sends cf Gated w x (λ a v. (g a, v)) h (λ _ v _. none-Sends cf Gated v)

  activated-world : (x : Answer Text × World cf) → (activated cf zone_id x).1 ≡ x.1
  unfolding activated
  activated-world (returned _, w) = refl
  activated-world (failed (api_error code message), w) =
      if_both (λ (x : Answer Done × World cf). x.1 ≡ w) (already_enabled message) refl refl
  activated-world (failed (provider_conflict hosts), w) = refl
  activated-world (failed http_error, w) = refl

  enable_unless-Sends :
      (hosts : List Text) (w : World cf)
      → (hosts ≡ [] → Gated (enable_dns zone_id))
      → Sends cf Gated w (enable_unless cf zone_id hosts w).1
  unfolding enable_unless
  enable_unless-Sends [] w h =
      subst (Sends cf Gated w) (sym (activated-world (issue cf (enable_dns zone_id) w)))
        (issue-Sends cf Gated (enable_dns zone_id) w (h refl))
  enable_unless-Sends (x ∷ xs) w h =
      if_both (λ (x : Answer Done × World cf). Sends cf Gated w x.1) (any is_cloudflare_mx (x ∷ xs))
        (none-Sends cf Gated w) (none-Sends cf Gated w)

  enable_for-Sends :
      (s : cf.State) (records : Answer (List ZoneRecord)) (w : World cf)
      → get_dns_records cf zone_id s ≡ records
      → Sends cf Gated w (enable_for cf zone_id records w).1
  unfolding enable_for
  enable_for-Sends s (failed f) w e = none-Sends cf Gated w
  enable_for-Sends s (returned records) w e =
      enable_unless-Sends (mx_hosts records) w
        (λ h. (refl, (s, records, e, mx_hosts-NoMailHost records h)))

  enable_email_routing-Sends :
      (w : World cf) → Sends cf Gated w (enable_email_routing cf zone_id w).1
  unfolding enable_email_routing
  enable_email_routing-Sends (s, log) =
      enable_for-Sends s (get_dns_records cf zone_id s) (s, log) refl

  registered-Sends :
      (email : Text) (known : Option Address) (w : World cf)
      → Sends cf Gated w (registered cf account email known w).1
  unfolding registered
  registered-Sends email (some a) w = none-Sends cf Gated w
  registered-Sends email none w =
      pure-Sends w (issue cf (register_address account email) w) _
        (issue-Sends cf Gated (register_address account email) w refl)

  create_destination_address-Sends :
      (email : Text) (w : World cf)
      → Sends cf Gated w (create_destination_address cf account email w).1
  unfolding create_destination_address
  create_destination_address-Sends email (s, log) =
      bind-Sends cf Gated (s, log) (cf.addresses account s, (s, log)) _
        (none-Sends cf Gated (s, log))
        (λ known v _. registered-Sends email (find (λ a. same_name a.email email) known) v)

  delete_rules-Sends :
      (ids : List Text) (w : World cf)
      → Deployed
      → Sends cf Gated w (delete_rules cf zone_id ids w).1
  unfolding delete_rules delete_email_rule
  delete_rules-Sends [] w d = none-Sends cf Gated w
  delete_rules-Sends (id ∷ ids) w d =
      bind-Sends cf Gated w (delete_email_rule cf zone_id id w) (λ _. delete_rules cf zone_id ids)
        (pure-Sends w (issue cf (remove_rule zone_id id) w) (λ _. returned tt)
          (issue-Sends cf Gated (remove_rule zone_id id) w (refl, d)))
        (λ _ v _. delete_rules-Sends ids v d)

  create_email_routing_rule-Sends :
      (w : World cf)
      → Deployed
      → Sends cf Gated w (create_email_routing_rule cf zone_id (own_worker zone_id) target w).1
  unfolding create_email_routing_rule
  create_email_routing_rule-Sends (s, log) d =
      let w : World cf = (s, log) in
      let listed : Answer (List Rule) × World cf = (cf.rules zone_id s, w) in
      let cleaned : Answer Done × World cf =
        listed >>= λ rules. delete_rules cf zone_id (conflicting target rules) in
      let post = post_rule zone_id (to_literal target) (to_worker (own_worker zone_id)) in
      pure-Sends w (cleaned >>= λ _. issue cf post) _ (
        bind-Sends cf Gated w cleaned (λ _. issue cf post)
          (bind-Sends cf Gated w listed _ (none-Sends cf Gated w)
            (λ rules v _. delete_rules-Sends (conflicting target rules) v d))
          (λ _ v _. issue-Sends cf Gated post v (refl, d, refl, refl)))

  worker_accepted :
      (scan_url secret forward_to ingest_key : Text) (scan_disabled : Bool) (w : World cf)
      (u : Done)
      → (deploy_email_worker cf account
          (own_worker zone_id)
          scan_url
          secret
          forward_to
          ingest_key
          scan_disabled
          w).0
        ≡ returned u
      → Deployed
  unfolding deploy_email_worker issue
  worker_accepted scan_url secret forward_to ingest_key scan_disabled w u e =
      let bindings = worker_bindings scan_url secret forward_to ingest_key scan_disabled in
      let (tag, answer, _, _) =
        bind-returned cf (issue cf (put_worker account (own_worker zone_id) bindings) w)
          (λ _ w'. (returned tt, w')) u e in
      (bindings, w.0, tag, answer)

  deploy_email_worker-Sends :
      (scan_url secret forward_to ingest_key : Text) (scan_disabled : Bool) (w : World cf)
      → Sends cf Gated w
          (deploy_email_worker cf account
            (own_worker zone_id)
            scan_url
            secret
            forward_to
            ingest_key
            scan_disabled
            w).1
  unfolding deploy_email_worker
  deploy_email_worker-Sends scan_url secret forward_to ingest_key scan_disabled w =
      let put =
        put_worker account (own_worker zone_id)
          (worker_bindings scan_url secret forward_to ingest_key scan_disabled) in
      pure-Sends w (issue cf put w) _ (issue-Sends cf Gated put w (refl, refl))

  connect-Sends :
      (secret : Text) (sha256_text : Text → ℕ) (ingest_key zone_name scan_url forward_to : Text)
      (w : World cf)
      → Sends cf Gated w
          (connect cf secret sha256_text ingest_key zone_name target scan_url zone_id account
            forward_to w).1
  unfolding connect gateway_worker
  connect-Sends secret sha256_text ingest_key zone_name scan_url forward_to w =
      let name = own_worker zone_id in
      let named = create_destination_address cf account forward_to w in
      let deploy =
        deploy_email_worker cf account name scan_url secret forward_to ingest_key false in
      let rule = create_email_routing_rule cf zone_id name target in
      let worker = named >>= λ _. deploy in
      bind-Sends cf Gated w (worker >>= λ _. rule) _
        (bind-Sends cf Gated w worker (λ _. rule)
          (bind-Sends cf Gated w named (λ _. deploy) (create_destination_address-Sends forward_to w)
            (λ _ v _. deploy_email_worker-Sends scan_url secret forward_to ingest_key false v))
          (λ u v e.
            let (_, _, accepted, _) =
              bind-returned cf named (λ _. deploy) u (ap (λ (x : Answer Done × World cf). x.0) e) in
            create_email_routing_rule-Sends v
              (worker_accepted scan_url secret forward_to ingest_key false named.1 u accepted)))
        (λ _ v _. none-Sends cf Gated v)

  connect_zone-Sends :
      (secret : Text) (sha256_text : Text → ℕ) (ingest_key zone_name scan_url : Text) (w : World cf)
      → Sends cf Gated w
          (connect_zone cf secret sha256_text ingest_key zone_name target scan_url
            (zone_id, account)
            w).1
  unfolding connect_zone
  connect_zone-Sends secret sha256_text ingest_key zone_name scan_url w =
      bind-Sends cf Gated w (enable_email_routing cf zone_id w) _ (enable_email_routing-Sends w)
        (λ _ v _.
          connect-Sends secret sha256_text ingest_key zone_name scan_url
            (actual_forward_to target (cf.rules zone_id v.0) (cf.addresses account v.0)) v)

module _ (cf : Cloudflare) (zone_name destination_email : Text) where
  -- A request for the first zone that Cloudflare lists under the name.
  abbrev pub Connects : cf.State → Command → Type 0
  Connects s c =
      (zone_id : Text) × (account : Text) × (rest : List (Text × Text)) × (cf.zones zone_name s
        ≡ returned ((zone_id, account) ∷ rest))
      × Gated cf zone_id account destination_email c

  get_zone-listed :
      (a : Answer (List (Text × Text))) (w v : World cf) (zone : Text × Text)
      → ((a, w) >>= λ zones u. (first_zone zone_name zones, u)) ≡ (returned zone, v)
      → (rest : List (Text × Text)) × (a ≡ returned (zone ∷ rest))
  unfolding first_zone
  get_zone-listed (failed f) w v zone e = absurd cc
  get_zone-listed (returned []) w v zone e = absurd cc
  get_zone-listed (returned (z ∷ rest)) w v zone e = (rest, cc)

module _ (cf : Cloudflare) (secret : Text) (sha256_text : Text → ℕ) (ingest_key : Text)
    (zone_name destination_email scan_url : Text) where
  -- Whatever Cloudflare answers to the provisioning of a domain, and wherever it stops, every request
  -- is for the first zone that Cloudflare lists under the name. Email Routing is turned on only after
  -- the zone's records were read and no MX record among them named a host. The only Worker that is
  -- written is the zone's own; a routing rule is removed or written only after Cloudflare accepted
  -- that Worker, and the rule that is written sends the mail for the address to it. No record is
  -- written and no Worker removed.
  pub intercepted_after_deployment :
      (w : World cf)
      → Sends cf
          (Connects cf zone_name destination_email w.0)
          w
          (provision cf secret sha256_text ingest_key zone_name destination_email scan_url w).1
  unfolding provision get_zone
  intercepted_after_deployment (s, log) =
      let P = Connects cf zone_name destination_email s in
      bind-Sends cf P (s, log) (get_zone cf zone_name (s, log)) _
        (bind-Sends cf P (s, log) (cf.zones zone_name s, (s, log)) _ (none-Sends cf P (s, log))
          (λ _ v _. none-Sends cf P v))
        (λ zone v e.
          let (rest, listed) =
            get_zone-listed cf zone_name destination_email (cf.zones zone_name s) (s, log) v zone
              e in
          weaken-Sends cf (Gated cf zone.0 zone.1 destination_email) P v
            (connect_zone cf secret sha256_text ingest_key zone_name destination_email scan_url zone
              v).1
            (λ c h. (zone.0, zone.1, rest, listed, h))
            (connect_zone-Sends cf zone.0 zone.1 destination_email secret sha256_text ingest_key
              zone_name scan_url v))
