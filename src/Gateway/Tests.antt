-- ===== src/Gateway/Tests.antt =====
-- The gateway's theorems on a zone in memory.
use sicurre.Prelude.{
  ℕ, ◌+◌, ◌-◌, ◌*◌, ◌/◌, ◌≡◌, refl, ap, Bool, true, false, Option, none, some, List, [], ◌∷◌, ◌++◌,
  arith, map, if◌then◌else◌,
}
use sicurre.Prelude.Lists.{length, take, drop, any}
use sicurre.Prelude.Text.{Text, codes}
use sicurre.Gateway.{
  Answer, returned, failed, Done, provider_conflict, ZoneRecord, Page, Matcher, RuleAction, Rule,
  Address, Command, remove_rule, post_rule, put_record, Cloudflare,
}
use sicurre.Gateway.Sample.{dmarc_record, records, forward_rule, zone, account}
use sicurre.Gateway.Sends.{Sends}
use sicurre.Gateway.Paging.{read_pages, get_dns_records}
use sicurre.Gateway.Paging.Complete.{Lists, get_dns_records_ends, get_dns_records_complete}
use sicurre.Gateway.Routing.{
  is_cloudflare_mx, cloudflare_mx_suffix, mx_host, mx_hosts, sorted_set, enable_email_routing,
}
use sicurre.Gateway.Routing.Takeover.{routing_never_taken_over}
use sicurre.Gateway.Rules.{
  literal, conflicts, to_literal, to_worker, conflicts_of, conflicting, delete_rules,
  create_email_routing_rule,
}
use sicurre.Gateway.Rules.Replacement.{literal_ids, rule_replaces_conflicts}
use sicurre.Gateway.Zone.{replaces, content_clean, zone_name, deploy_dns_record}
use sicurre.Gateway.Zone.Single.{owned_record_replaced}
use sicurre.Gateway.Provisioning.{provision}
use sicurre.Gateway.Provisioning.Interception.{Connects, intercepted_after_deployment}

account-Lists : (z : Text) → Lists account z tt records
account-Lists z k =
    let e : k + 1 - 1 ≡ k = omega arith in
    ap
      (λ (n : ℕ). returned (record {
        batch = some (take 100 (drop (n * 100) records));
        total_pages = some ((length records + 99) / 100);
      }))
      e

get_dns_records_ends_example :
    read_pages account zone tt 60 1 [] ≡ some (get_dns_records account zone tt)
get_dns_records_ends_example = get_dns_records_ends account zone tt 60 (omega arith)

get_dns_records_complete_example : get_dns_records account zone tt ≡ returned records
get_dns_records_complete_example =
    get_dns_records_complete account zone tt records (account-Lists zone) (omega arith)

routing_never_taken_over_example : enable_email_routing account zone (tt, []) ≡ (
  if any is_cloudflare_mx (mx_hosts records)
      then returned tt
      else failed (provider_conflict (sorted_set (mx_hosts records))),
  (tt, []),
)
unfolding mx_host sicurre.Prelude.Text.rstrip_chars sicurre.Prelude.Text.lower
    sicurre.Prelude.Text.strip_chars sicurre.Prelude.Text.strip
routing_never_taken_over_example =
    routing_never_taken_over account zone tt [] records (account-Lists zone) (omega arith) refl

abbrev refused_for_mx : Answer Done
refused_for_mx = failed (provider_conflict (codes "mx1.mail.fr" ∷ []))

-- The zone's own provider is named in the refusal.
conflict_named :
    (if any is_cloudflare_mx (mx_hosts records)
      then returned tt
      else failed (provider_conflict (sorted_set (mx_hosts records))))
    ≡ refused_for_mx
unfolding mx_hosts mx_host sorted_set is_cloudflare_mx cloudflare_mx_suffix
    sicurre.Prelude.Text.rstrip_chars sicurre.Prelude.Text.lower sicurre.Prelude.Text.strip_chars
    sicurre.Prelude.Text.strip sicurre.Prelude.Text.ends_with
conflict_named = refl

rule_replaces_conflicts_example :
    (create_email_routing_rule account zone (codes "w") (codes "me@vinse.app") (tt, [])).1.1
    ≡ []
      ++ map (remove_rule zone) (literal_ids (codes "me@vinse.app") (forward_rule ∷ []))
      ++ (post_rule zone (to_literal (codes "me@vinse.app")) (to_worker (codes "w")) ∷ [])
unfolding create_email_routing_rule delete_rules conflicting literal sicurre.Prelude.Text.same_name
    sicurre.Prelude.Text.lower sicurre.Gateway.issue
rule_replaces_conflicts_example =
    rule_replaces_conflicts account zone (codes "w") (codes "me@vinse.app") (codes "new") tt []
      (forward_rule ∷ []) refl refl

one_conflict : conflicting (codes "me@vinse.app") (forward_rule ∷ []) ≡ codes "old" ∷ []
unfolding conflicting conflicts_of conflicts literal sicurre.Prelude.Text.same_name
    sicurre.Prelude.Text.lower
one_conflict = refl

owned_record_replaced_example :
    (deploy_dns_record account zone
      (codes "TXT")
      (codes "_dmarc.vinse.app")
      (codes "v=DMARC1; p=reject")
      (some (codes "v=DMARC1"))
      (tt, [])).1.1
    ≡ []
      ++ (put_record zone (codes "r1") (record {
        type = codes "TXT";
        name = codes "_dmarc.vinse.app";
        content = content_clean (codes "v=DMARC1; p=reject");
      })
          ∷ [])
unfolding replaces zone_name sicurre.Prelude.Text.rstrip_chars sicurre.Prelude.Text.lower
    sicurre.Prelude.Text.strip_chars sicurre.Prelude.Text.strip
owned_record_replaced_example =
    owned_record_replaced account zone (codes "TXT") (codes "_dmarc.vinse.app")
      (codes "v=DMARC1; p=reject") (some (codes "v=DMARC1")) tt [] records dmarc_record
      (account-Lists zone) (omega arith) refl refl

intercepted_after_deployment_example :
    Sends account
      (Connects account (codes "vinse.app") (codes "me@vinse.app") tt)
      (tt, [])
      (provision account
        (codes "s")
        length
        []
        (codes "vinse.app")
        (codes "me@vinse.app")
        (codes "https://api/v1/email/scan")
        (tt, [])).1
intercepted_after_deployment_example =
    intercepted_after_deployment account (codes "s") length [] (codes "vinse.app")
      (codes "me@vinse.app") (codes "https://api/v1/email/scan") (tt, [])
