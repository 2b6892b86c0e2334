-- ===== src/Gateway/Zone.antt =====
-- A zone and its records: get_zone and deploy_dns_record.
use sicurre.Prelude.{
  ℕ, Bool, true, false, not, ◌&&◌, ◌||◌, Option, none, some, List, [], ◌∷◌, ◌++◌, ◌==◌,
  if◌then◌else◌,
}
use sicurre.Prelude.Lists.{find}
use sicurre.Prelude.Text.{
  Text, codes, text_eq, is_empty, lower, strip, strip_chars, rstrip_chars, starts_with,
}
use sicurre.Dns.Records.{DnsRecord}
use sicurre.Gateway.{
  Failure, api_error, Answer, returned, failed, Done, ZoneRecord, put_record, post_record,
  Cloudflare, World, issue, ◌>>=◌,
}
use sicurre.Gateway.Paging.{get_dns_records}
pub mod Single

unfoldable zone_missing : Text → Text
zone_missing name =
    codes "Zone '"
    ++ name
    ++ codes
        "' not found. Verify the domain is on this Cloudflare account and the token has DNS/Email read access."

unfoldable pub first_zone : Text → List (Text × Text) → Answer (Text × Text)
unfolding zone_missing
first_zone name [] = failed (api_error 0 (zone_missing name))
first_zone name (z ∷ _) = returned z

-- `content[2:-1]`
abbrev all_but_last : Text → Text
all_but_last [] = []
all_but_last (c ∷ s) = elim s [ [] ↦ [] | _ ∷ _ ↦ c ∷ all_but_last s ]

abbrev unquoted : Text → Text
unquoted [] = []
unquoted (_ ∷ []) = []
unquoted (_ ∷ _ ∷ s) = all_but_last s

unfoldable pub content_clean : Text → Text
content_clean content =
    if starts_with (codes "b'") content || starts_with (98 ∷ 34 ∷ []) content
    then unquoted content
    else content

unfoldable pub zone_name : Text → Text
zone_name name = rstrip_chars (λ c. c == 46) (lower name)

abbrev has_prefix : Option Text → Text → Bool
has_prefix none content = true
has_prefix (some p) content =
    starts_with (lower p) (lower (strip_chars (λ c. c == 34) (strip content)))

-- The record that a deployment replaces.
unfoldable pub replaces : Text → Text → Option Text → ZoneRecord → Bool
unfolding zone_name
replaces type name match_prefix r =
    text_eq r.entry.type type
    && (text_eq (zone_name r.entry.name) (zone_name name)
        && has_prefix match_prefix r.entry.content)

abbrev pub id_of : Option ZoneRecord → Text
id_of none = []
id_of (some r) = r.id

module _ (cf : Cloudflare) where
  unfoldable pub get_zone : Text → World cf → Answer (Text × Text) × World cf
  unfolding first_zone
  get_zone name (s, log) = (cf.zones name s, (s, log)) >>= λ zones w. (first_zone name zones, w)

  unfoldable pub write_record : Text → DnsRecord → Text → World cf → Answer Done × World cf
  write_record zone_id body [] w =
      issue cf (post_record zone_id body) w >>= λ _ w'. (returned tt, w')
  write_record zone_id body (c ∷ id) w =
      issue cf (put_record zone_id (c ∷ id) body) w >>= λ _ w'. (returned tt, w')

  unfoldable pub deploy_dns_record :
      Text → Text → Text → Text → Option Text → World cf → Answer Done × World cf
  unfolding write_record
  deploy_dns_record zone_id rec_type name content match_prefix (s, log) =
      (get_dns_records cf zone_id s, (s, log)) >>= λ records.
      write_record zone_id
        (record { type = rec_type; name = name; content = content_clean content })
        (id_of (find (replaces rec_type name match_prefix) records))
