-- ===== src/Dns/Tests.antt =====
-- Inputs that exercise the theorems of src/data_platform/services/dns_records.py.
use sicurre.Prelude.{◌≡◌, refl, List}
use sicurre.Prelude.Table.{select}
use sicurre.Prelude.Text.{Text, codes, strip, split}
use sicurre.Dns.Records.{
  clean_str, unquote_bytes, rebuilt, rebuilt_tag, kept_uris, mentions_sicurre,
  withdraw_dmarc_reporting, merge_dmarc, with_reporting, set_policy, add_reporting,
}
use sicurre.Dns.Records.Withdrawal.{Embeds, is_other, tags_of, withdrawal_keeps_tags}
use sicurre.Dns.Spf.{
  words, tokens, merge_spf, merge_parts, among, is_all, is_withdrawn, spf_version, take_mechanisms,
  take_mechanism, with_routing, routing_include, default_all, render,
}
use sicurre.Dns.Spf.Rendering.{merge_spf_idempotent}
use sicurre.Dns.Spf.Contract.{IsMerged, merge_spf_shape}

abbrev published : Text
published = codes " v=spf1 include:sicurre.com include:_spf.google.com -all"

-- What the merge makes of it.
merged :
    merge_spf published ≡ codes "v=spf1 include:_spf.google.com include:_spf.mx.cloudflare.net -all"
unfolding merge_spf merge_parts clean_str unquote_bytes strip tokens spf_version render
    take_mechanisms take_mechanism with_routing routing_include is_all is_withdrawn among
    default_all
merged = refl

merge_spf_idempotent_example : merge_spf (merge_spf published) ≡ merge_spf published
merge_spf_idempotent_example = merge_spf_idempotent published

merge_spf_shape_example : IsMerged (words (clean_str (merge_spf published)))
merge_spf_shape_example = merge_spf_shape published

abbrev reporting : Text
reporting = codes "v=DMARC1; p=none; rua=mailto:me@vinse.app,mailto:dmarc@sicurre.com"

abbrev withdrawn : Text
withdrawn = codes "v=DMARC1; p=none; rua=mailto:me@vinse.app"

withdrawal_keeps_tags_example :
    Embeds (select is_other (tags_of (clean_str reporting))) (tags_of withdrawn)
unfolding withdraw_dmarc_reporting rebuilt rebuilt_tag clean_str unquote_bytes strip kept_uris
    mentions_sicurre sicurre.Prelude.Text.lower
withdrawal_keeps_tags_example = withdrawal_keeps_tags reporting withdrawn refl

-- A record that leaves subdomains alone: the merge tightens them as well.
subdomains_tightened :
    merge_dmarc (codes "v=DMARC1; p=none; sp=none; rua=mailto:a@b.c")
    ≡ codes "v=DMARC1; p=quarantine; sp=quarantine; rua=mailto:a@b.c,mailto:dmarc@sicurre.com"
unfolding merge_dmarc clean_str unquote_bytes strip with_reporting set_policy add_reporting
subdomains_tightened = refl
