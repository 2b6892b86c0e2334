-- ===== src/Gateway/Teardown/Protection.antt =====
-- A Worker that others rely on outlives a disconnected domain.
use mathlib.Core.Path.{subst}
use mathlib.Core.List.{append_assoc}
use sicurre.Prelude.{
  ◌≡◌, refl, ap, sym, ◌∙◌, ◌++◌, [], ◌∷◌, ◌⊎◌, inl, inr, Bool, true, false, List, ◌||◌, ◌==◌,
  if_both, if_cases,
}
use sicurre.Prelude.Text.{Text, codes, text_eq, is_empty}
use sicurre.Gateway.{
  api_error, provider_conflict, http_error, Answer, returned, failed, Done, RuleAction, Command,
  remove_rule, remove_worker, Cloudflare, World, issue, ◌>>=◌,
}
use sicurre.Gateway.Sends.{Sends, none-Sends, issue-Sends, bind-Sends}
use sicurre.Gateway.Rules.{delete_email_rule}
use sicurre.Gateway.Rules.Replacement.{delete_email_rule-log}
use sicurre.Gateway.Teardown.{
  worker_of, is_named, forgiven, delete_worker, catch_all_worker, tolerated, remove_rule_of,
  remove_unless, remove_worker_of, teardown,
}

module _ (cf : Cloudflare) (zone_id account_id worker_name rule_id : Text) (keep : Bool) where
  -- The zone's catch-all was read, and it sends its mail elsewhere.
  abbrev pub Unprotected : cf.State → Type 0
  Unprotected s =
      (actions : List RuleAction) × (cf.catch_all zone_id s ≡ returned actions)
      × (is_named worker_name (worker_of actions) ≡ false)

  abbrev pub Permitted : cf.State → Command → Type 0
  Permitted s c =
      (c ≡ remove_rule zone_id rule_id)
      ⊎ ((c ≡ remove_worker account_id worker_name) × (keep ≡ false) × Unprotected s)

  forgiven-world : (x : Answer Text × World cf) → (forgiven cf x).1 ≡ x.1
  unfolding forgiven
  forgiven-world (returned _, w) = refl
  forgiven-world (failed (api_error code message), w) =
      if_both (λ (x : Answer Done × World cf). x.1 ≡ w) (code == 404) refl refl
  forgiven-world (failed (provider_conflict hosts), w) = refl
  forgiven-world (failed http_error, w) = refl

  tolerated-world : (x : Answer Done × World cf) → (tolerated cf x).1 ≡ x.1
  unfolding tolerated
  tolerated-world (returned _, w) = refl
  tolerated-world (failed (api_error code message), w) = refl
  tolerated-world (failed (provider_conflict hosts), w) = refl
  tolerated-world (failed http_error, w) = refl

  delete_email_rule-Sends :
      (P : Command → Type 0) (w : World cf)
      → P (remove_rule zone_id rule_id)
      → Sends cf P w (delete_email_rule cf zone_id rule_id w).1
  unfolding delete_email_rule
  delete_email_rule-Sends P w h =
      bind-Sends cf P w (issue cf (remove_rule zone_id rule_id) w) (λ _ v. (returned tt, v))
        (issue-Sends cf P (remove_rule zone_id rule_id) w h) (λ _ v _. none-Sends cf P v)

  remove_rule_of-Sends :
      (P : Command → Type 0) (w : World cf)
      → P (remove_rule zone_id rule_id)
      → Sends cf P w (remove_rule_of cf zone_id rule_id w).1
  unfolding remove_rule_of
  remove_rule_of-Sends P w h =
      if_both (λ (x : Answer Done × World cf). Sends cf P w x.1)
        (is_empty rule_id || text_eq rule_id (codes "unknown")) (none-Sends cf P w)
        (subst (Sends cf P w) (sym (tolerated-world (delete_email_rule cf zone_id rule_id w)))
          (delete_email_rule-Sends P w h))

  remove_unless-Sends :
      (P : Command → Type 0) (w : World cf) (actions : Answer (List RuleAction))
      → ((as' : List RuleAction)
          → actions ≡ returned as'
          → is_named worker_name (worker_of as') ≡ false
          → P (remove_worker account_id worker_name))
      → Sends cf P w
          (remove_unless cf account_id worker_name
            ((actions, w) >>= λ acts v. (returned (worker_of acts), v))).1
  unfolding remove_unless delete_worker
  remove_unless-Sends P w (failed f) h = none-Sends cf P w
  remove_unless-Sends P w (returned acts) h =
      if_cases (λ (x : Answer Done × World cf). Sends cf P w x.1)
        (is_named worker_name (worker_of acts)) (λ _. none-Sends cf P w)
        (λ e.
          subst (Sends cf P w)
            (sym (forgiven-world (issue cf (remove_worker account_id worker_name) w)))
            (issue-Sends cf P (remove_worker account_id worker_name) w (h acts refl e)))

  remove_worker_of-Sends :
      (P : Command → Type 0) (k : Bool) (w : World cf)
      → (k ≡ false → Unprotected w.0 → P (remove_worker account_id worker_name))
      → Sends cf P w (remove_worker_of cf zone_id account_id worker_name k w).1
  unfolding remove_worker_of catch_all_worker
  remove_worker_of-Sends P true w h = none-Sends cf P w
  remove_worker_of-Sends P false (s, log) h =
      remove_unless-Sends P (s, log) (cf.catch_all zone_id s) (λ acts e f. h refl (acts, e, f))

  -- A teardown asks for the removal of its rule, and of its Worker where that is permitted.
  pub protected_worker_stays :
      (w : World cf)
      → Sends cf
          (Permitted (remove_rule_of cf zone_id rule_id w).1.0)
          w
          (teardown cf zone_id account_id worker_name rule_id keep w).1
  unfolding teardown
  protected_worker_stays w =
      let s = (remove_rule_of cf zone_id rule_id w).1.0 in
      bind-Sends cf (Permitted s) w (remove_rule_of cf zone_id rule_id w)
        (λ _. remove_worker_of cf zone_id account_id worker_name keep)
        (remove_rule_of-Sends (Permitted s) w (inl refl))
        (λ _ v e. remove_worker_of-Sends (Permitted s) keep v (λ k u.
          inr (refl, k, subst Unprotected (sym (ap (λ (x : Answer Done × World cf). x.1.0) e)) u)))

  remove_rule_of-log :
      (is_empty rule_id || text_eq rule_id (codes "unknown")) ≡ false
      → (w : World cf)
      → (remove_rule_of cf zone_id rule_id w).1.1 ≡ w.1 ++ (remove_rule zone_id rule_id ∷ [])
  unfolding remove_rule_of
  remove_rule_of-log named w = rw named (
      ap (λ (v : World cf). v.1) (tolerated-world (delete_email_rule cf zone_id rule_id w))
      ∙ delete_email_rule-log cf zone_id rule_id w)

  -- The first request of a teardown is the removal of its rule, where it has one.
  pub teardown_asks :
      (is_empty rule_id || text_eq rule_id (codes "unknown")) ≡ false
      → (w : World cf)
      → (rest : List Command) × ((teardown cf zone_id account_id worker_name rule_id keep w).1.1
          ≡ w.1 ++ (remove_rule zone_id rule_id ∷ rest))
  unfolding teardown
  teardown_asks named w =
      let P : Command → Type 0 = λ _. Unit in
      let x = remove_rule_of cf zone_id rule_id w in
      let (added, e, _) =
        bind-Sends cf P x.1 x (λ _. remove_worker_of cf zone_id account_id worker_name keep)
          (none-Sends cf P x.1) (λ _ v _. remove_worker_of-Sends P keep v (λ _ _. tt)) in
      (
        added,
        e
            ∙ ap (λ (l : List Command). l ++ added) (remove_rule_of-log named w)
            ∙ append_assoc w.1 (remove_rule zone_id rule_id ∷ []) added,
      )
