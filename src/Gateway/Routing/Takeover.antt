-- ===== src/Gateway/Routing/Takeover.antt =====
-- A domain that receives its mail elsewhere keeps it: composed with the complete listing of the
-- zone's records.
use sicurre.Prelude.{
  ◌≤◌, ◌≡◌, refl, Bool, true, not, ◌&&◌, List, [], ◌∷◌, arith, if◌then◌else◌, Bool-cases, inl, inr,
}
use sicurre.Prelude.Lists.{any, length}
use sicurre.Prelude.Text.{Text, is_empty}
use sicurre.Gateway.{returned, failed, provider_conflict, ZoneRecord, Command, Cloudflare}
use sicurre.Gateway.Paging.Complete.{Lists, get_dns_records_complete}
use sicurre.Gateway.Routing.{
  is_mx, mx_host, mx_hosts, sorted_set, is_cloudflare_mx, enable_unless, enable_for,
  enable_email_routing,
}

-- A record that names a host for the domain's mail.
abbrev pub receives : ZoneRecord → Bool
receives r = is_mx r && not (is_empty (mx_host r))

mx_hosts-receives :
    (records : List ZoneRecord)
    → any receives records ≡ true
    → (h : Text) × (hs : List Text) × (mx_hosts records ≡ h ∷ hs)
unfolding mx_hosts
mx_hosts-receives [] e = absurd cc
mx_hosts-receives (r ∷ rs) e = elim (Bool-cases (receives r)) [
  | inl h ↦ rw h (mx_host r, mx_hosts rs, refl)
  | inr h ↦ rw h (mx_hosts-receives rs (ground (arith, e, h)))
]

module _ (cf : Cloudflare) (zone_id : Text) where
  -- In a zone of at most 5000 records, listed with its number of pages, in which some MX record
  -- names a host, enable_email_routing makes no request: it returns if one of the hosts is
  -- Cloudflare's, and otherwise refuses with the sorted hosts.
  pub routing_never_taken_over :
      (s : cf.State) (log : List Command) (records : List ZoneRecord)
      → Lists cf zone_id s records
      → length records ≤ 5000
      → any receives records ≡ true
      → enable_email_routing cf zone_id (s, log) ≡ (
        if any is_cloudflare_mx (mx_hosts records)
            then returned tt
            else failed (provider_conflict (sorted_set (mx_hosts records))),
        (s, log),
      )
  unfolding enable_email_routing enable_for enable_unless
  routing_never_taken_over s log records served small e =
      let (h, hs, hosts) = mx_hosts-receives records e in
      rw (get_dns_records_complete cf zone_id s records served small, hosts)
        (elim (Bool-cases (any is_cloudflare_mx (h ∷ hs))) [
          | inl k ↦ rw k refl
          | inr k ↦ rw k refl
        ])
