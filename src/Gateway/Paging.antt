-- ===== src/Gateway/Paging.antt =====
-- get_dns_records: every page of a zone's records, with the guard against an API that never stops.
use sicurre.Prelude.{
  ℕ, zero, suc, ◌+◌, Bool, true, false, Option, none, some, List, [], ◌∷◌, ◌++◌, if◌then◌else◌, leb,
  ltb,
}
use sicurre.Prelude.Lists.{length}
use sicurre.Prelude.Text.{Text}
use sicurre.Gateway.{Failure, Answer, returned, failed, ZoneRecord, Page, Cloudflare}
pub mod Complete

unfoldable pub dns_page_size : ℕ
dns_page_size = 100

unfoldable pub dns_page_limit : ℕ
dns_page_limit = 50

-- Whether the page is the last one.
unfoldable pub is_last : ℕ → List ZoneRecord → Option ℕ → Bool
unfolding dns_page_size
is_last page batch none = ltb (length batch) dns_page_size
is_last page batch (some zero) = ltb (length batch) dns_page_size
is_last page batch (some (suc n)) = leb (suc n) page

module _ (cf : Cloudflare) (zone_id : Text) (s : cf.State) where
  -- The loop's body, with the rest of the loop for the next page.
  unfoldable pub with_batch :
      ℕ
      → List ZoneRecord
      → (List ZoneRecord → Option (Answer (List ZoneRecord)))
      → Option (List ZoneRecord)
      → Option ℕ
      → Option (Answer (List ZoneRecord))
  unfolding dns_page_limit
  with_batch page records next none total = some (returned records)
  with_batch page records next (some b) total =
      if is_last page b total
      then some (returned (records ++ b))
      else if ltb dns_page_limit (page + 1)
      then some (returned (records ++ b))
      else next (records ++ b)

  unfoldable pub turn :
      ℕ
      → List ZoneRecord
      → (List ZoneRecord → Option (Answer (List ZoneRecord)))
      → Answer Page
      → Option (Answer (List ZoneRecord))
  unfolding with_batch
  turn page records next (failed f) = some (failed f)
  turn page records next (returned p) = with_batch page records next p.batch p.total_pages

  -- The loop on fuel, `none` when it runs out of it.
  unfoldable pub read_pages : ℕ → ℕ → List ZoneRecord → Option (Answer (List ZoneRecord))
  unfolding turn
  read_pages zero page records = none
  read_pages (suc n) page records =
      turn page records (λ rs. read_pages n (page + 1) rs) (cf.dns_page zone_id page s)

  abbrev pub or_stuck : Option (Answer (List ZoneRecord)) → Answer (List ZoneRecord)
  or_stuck none = returned []
  or_stuck (some a) = a

  unfoldable pub get_dns_records : Answer (List ZoneRecord)
  unfolding read_pages dns_page_limit
  get_dns_records = or_stuck (read_pages dns_page_limit 1 [])
