-- ===== src/Gateway/Rules/Replacement.antt =====
-- A protected address has one route: its interception rule stands behind the removal of every other
-- rule for it, and a forward is given back only where no rule is left.
use mathlib.Core.List.{append_assoc, append-nil}
use sicurre.Prelude.{
  ◌≡◌, refl, ap, sym, ◌∙◌, ◌&&◌, Bool, true, false, List, [], ◌∷◌, ◌++◌, map, if◌then◌else◌,
  Bool-cases, inl, inr,
}
use sicurre.Prelude.Table.{select}
use sicurre.Prelude.Lists.{any}
use sicurre.Prelude.Text.{Text, codes, text_eq, same_name}
use sicurre.Gateway.{
  Answer, returned, Done, Rule, Matcher, Command, remove_rule, post_rule, Cloudflare, World, issue,
  ◌>>=◌,
}
use sicurre.Gateway.Sends.{bind-returned, bind-pure, issue-log}
use sicurre.Gateway.Rules.{
  value_text, literal, conflicts, conflicts_of, routes, to_literal, to_worker, to_forward,
  or_unknown, conflicting, delete_email_rule, delete_rules, create_email_routing_rule,
  restore_unless, restore_forwarding,
}

-- A literal matcher for the address.
abbrev pub is_literal_for : Text → Matcher → Bool
is_literal_for target m = text_eq m.type (codes "literal") && same_name (value_text m.value) target

-- The identifiers of the rules with literal matchers for the address, once for each of them.
abbrev pub literal_ids : Text → List Rule → List Text
literal_ids target [] = []
literal_ids target (r ∷ rs) =
    map (λ _. r.id) (select (is_literal_for target) r.matchers) ++ literal_ids target rs

module _ (cf : Cloudflare) (zone_id : Text) where
  pub delete_email_rule-log :
      (id : Text) (w : World cf)
      → (delete_email_rule cf zone_id id w).1.1 ≡ w.1 ++ (remove_rule zone_id id ∷ [])
  unfolding delete_email_rule
  delete_email_rule-log id w =
      ap (λ (v : World cf). v.1)
        (bind-pure cf (issue cf (remove_rule zone_id id) w) (λ _. returned tt))
      ∙ issue-log cf (remove_rule zone_id id) w

  delete_rules-log :
      (ids : List Text) (w : World cf)
      → (delete_rules cf zone_id ids w).0 ≡ returned tt
      → (delete_rules cf zone_id ids w).1.1 ≡ w.1 ++ map (remove_rule zone_id) ids
  unfolding delete_rules
  delete_rules-log [] w h = sym (append-nil w.1)
  delete_rules-log (id ∷ ids) w h =
      let one = delete_email_rule cf zone_id id w in
      let (_, _, rest, after) = bind-returned cf one (λ _. delete_rules cf zone_id ids) tt h in
      ap (λ (v : World cf). v.1) after
      ∙ delete_rules-log ids one.1 rest
      ∙ ap (λ (l : List Command). l ++ map (remove_rule zone_id) ids) (delete_email_rule-log id w)
      ∙ append_assoc w.1 (remove_rule zone_id id ∷ []) (map (remove_rule zone_id) ids)

  conflicts_of-literal :
      (target id : Text) (ms : List Matcher)
      → conflicts_of target id ms ≡ map (λ _. id) (select (is_literal_for target) ms)
  unfolding conflicts_of conflicts literal
  conflicts_of-literal target id [] = refl
  conflicts_of-literal target id (m ∷ ms) = elim (Bool-cases (is_literal_for target m)) [
    | inl h ↦ rw (h, conflicts_of-literal target id ms) refl
    | inr h ↦ rw (h, conflicts_of-literal target id ms) refl
  ]

  conflicting-literal :
      (target : Text) (rules : List Rule) → conflicting target rules ≡ literal_ids target rules
  unfolding conflicting
  conflicting-literal target [] = refl
  conflicting-literal target (r ∷ rs) =
      rw (conflicts_of-literal target r.id r.matchers, conflicting-literal target rs) refl

  removed_then_posted :
      (worker_name target id : Text) (s : cf.State) (log : List Command) (rules : List Rule)
      → cf.rules zone_id s ≡ returned rules
      → (create_email_routing_rule cf zone_id worker_name target (s, log)).0 ≡ returned id
      → (create_email_routing_rule cf zone_id worker_name target (s, log)).1.1
        ≡ log
          ++ map (remove_rule zone_id) (conflicting target rules)
          ++ (post_rule zone_id (to_literal target) (to_worker worker_name) ∷ [])
  unfolding create_email_routing_rule
  removed_then_posted worker_name target id s log rules e h =
      let post = post_rule zone_id (to_literal target) (to_worker worker_name) in
      let removed = delete_rules cf zone_id (conflicting target rules) (s, log) in
      let listed : Answer (List Rule) → Answer Done × World cf =
        λ a. ((a, (s, log)) >>= λ rs. delete_rules cf zone_id (conflicting target rs)) in
      let (_, first, _, second) =
        bind-returned cf (listed (cf.rules zone_id s) >>= λ _. issue cf post)
          (λ i w. (returned (or_unknown i), w)) id h in
      let (_, gone, _, third) =
        bind-returned cf (listed (cf.rules zone_id s)) (λ _. issue cf post) _ first in
      ap (λ (v : World cf). v.1) (second ∙ third)
      ∙ issue-log cf post (listed (cf.rules zone_id s)).1
      ∙ ap (λ (l : List Command). l ++ (post ∷ []))
          (ap (λ a. (listed a).1.1) e
            ∙ delete_rules-log (conflicting target rules) (s, log)
                (sym (ap (λ a. (listed a).0) e) ∙ gone))

  -- Where the zone's rules can be read, a call of create_email_routing_rule that returns has asked for
  -- the removal of every rule with a literal matcher for the address, once for each such matcher
  -- and in order, and then for the rule that sends the address to the Worker, and nothing else.
  pub rule_replaces_conflicts :
      (worker_name target id : Text) (s : cf.State) (log : List Command) (rules : List Rule)
      → cf.rules zone_id s ≡ returned rules
      → (create_email_routing_rule cf zone_id worker_name target (s, log)).0 ≡ returned id
      → (create_email_routing_rule cf zone_id worker_name target (s, log)).1.1
        ≡ log
          ++ map (remove_rule zone_id) (literal_ids target rules)
          ++ (post_rule zone_id (to_literal target) (to_worker worker_name) ∷ [])
  rule_replaces_conflicts worker_name target id s log rules e h =
      removed_then_posted worker_name target id s log rules e h
      ∙ ap
          (λ (ids : List Text).
            log
            ++ map (remove_rule zone_id) ids
            ++ (post_rule zone_id (to_literal target) (to_worker worker_name) ∷ []))
          (conflicting-literal target rules)

  restore_unless-log :
      (address forward_to : Text) (routed : Bool) (w : World cf)
      → (restore_unless cf zone_id address forward_to routed w).1.1
        ≡ w.1
          ++ (if routed
              then []
              else post_rule zone_id (to_literal address) (to_forward forward_to) ∷ [])
  unfolding restore_unless
  restore_unless-log address forward_to true w = sym (append-nil w.1)
  restore_unless-log address forward_to false w =
      let post = post_rule zone_id (to_literal address) (to_forward forward_to) in
      ap (λ (v : World cf). v.1) (bind-pure cf (issue cf post w) (λ _. returned true))
      ∙ issue-log cf post w

  -- A forward is given back exactly where no rule is left for the address.
  pub restored_only_if_unrouted :
      (address forward_to : Text) (s : cf.State) (log : List Command) (rules : List Rule)
      → cf.rules zone_id s ≡ returned rules
      → (restore_forwarding cf zone_id address forward_to (s, log)).1.1
        ≡ log
          ++ (if any (λ r. any (routes address) r.matchers) rules
              then []
              else post_rule zone_id (to_literal address) (to_forward forward_to) ∷ [])
  unfolding restore_forwarding
  restored_only_if_unrouted address forward_to s log rules e = rw e (
      restore_unless-log address forward_to (any (λ r. any (routes address) r.matchers) rules)
        (s, log))
