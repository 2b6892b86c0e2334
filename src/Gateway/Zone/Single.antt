-- ===== src/Gateway/Zone/Single.antt =====
-- A deployment never adds a second record beside the one that it owns.
use sicurre.Prelude.{◌≤◌, ◌≡◌, ap, ◌∙◌, false, Option, some, List, [], ◌∷◌, ◌++◌}
use sicurre.Prelude.Lists.{find, length}
use sicurre.Prelude.Text.{Text, is_empty}
use sicurre.Dns.Records.{DnsRecord}
use sicurre.Gateway.{returned, ZoneRecord, Command, put_record, Cloudflare, World, issue}
use sicurre.Gateway.Sends.{bind-pure, issue-log}
use sicurre.Gateway.Paging.Complete.{Lists, get_dns_records_complete}
use sicurre.Gateway.Zone.{replaces, content_clean, write_record, deploy_dns_record}

module _ (cf : Cloudflare) (zone_id : Text) where
  write_record-put :
      (body : DnsRecord) (id : Text) (w : World cf)
      → is_empty id ≡ false
      → (write_record cf zone_id body id w).1.1 ≡ w.1 ++ (put_record zone_id id body ∷ [])
  unfolding write_record
  write_record-put body [] w h = absurd cc
  write_record-put body (c ∷ id) w h =
      ap (λ (v : World cf). v.1)
        (bind-pure cf (issue cf (put_record zone_id (c ∷ id) body) w) (λ _. returned tt))
      ∙ issue-log cf (put_record zone_id (c ∷ id) body) w

  -- In a zone of at most 5000 records, listed with its number of pages, in which some record has
  -- the type, the name and the prefix of a deployment, and an identifier, the only request of
  -- deploy_dns_record is the replacement of the first such record: no second record is added.
  pub owned_record_replaced :
      (type name content : Text) (prefix : Option Text) (s : cf.State) (log : List Command)
      (records : List ZoneRecord) (r : ZoneRecord)
      → Lists cf zone_id s records
      → length records ≤ 5000
      → find (replaces type name prefix) records ≡ some r
      → is_empty r.id ≡ false
      → (deploy_dns_record cf zone_id type name content prefix (s, log)).1.1
        ≡ log
          ++ (put_record zone_id r.id
                (record { type = type; name = name; content = content_clean content })
              ∷ [])
  unfolding deploy_dns_record
  owned_record_replaced type name content prefix s log records r served small e h =
      rw (get_dns_records_complete cf zone_id s records served small, e)
        (write_record-put (record { type = type; name = name; content = content_clean content })
          r.id (s, log) h)
