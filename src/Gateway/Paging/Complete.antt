-- ===== src/Gateway/Paging/Complete.antt =====
-- The reading of a zone's records ends, and it is complete.
use sicurre.Prelude.{
  ℕ, zero, suc, ◌+◌, ◌*◌, ◌/◌, ◌≤◌, ◌≡◌, refl, ap, ◌∙◌, true, false, Option, none, some, List, [],
  ◌++◌, arith, if_both, if_cases, ltb, Bool-cases, inl, inr,
}
use sicurre.Prelude.Lists.{length, take, drop, take_add, take_whole}
use sicurre.Prelude.Text.{Text}
use sicurre.Gateway.{Answer, returned, failed, ZoneRecord, Page, Cloudflare}
use sicurre.Gateway.Paging.{
  dns_page_size, dns_page_limit, is_last, with_batch, turn, read_pages, get_dns_records, or_stuck,
}

module _ (cf : Cloudflare) (zone_id : Text) (s : cf.State) where
  abbrev Ends : Option (Answer (List ZoneRecord)) → Type 0
  Ends o = (a : Answer (List ZoneRecord)) × (o ≡ some a)

  with_batch-Ends :
      (page : ℕ) (records : List ZoneRecord)
      (next : List ZoneRecord → Option (Answer (List ZoneRecord))) (b : Option (List ZoneRecord))
      (total : Option ℕ)
      → (ltb dns_page_limit (page + 1) ≡ false → (rs : List ZoneRecord) → Ends (next rs))
      → Ends (with_batch cf zone_id s page records next b total)
  unfolding with_batch
  with_batch-Ends page records next none total h = (_, refl)
  with_batch-Ends page records next (some b) total h =
      if_both Ends (is_last page b total) (_, refl)
        (if_cases Ends (ltb dns_page_limit (page + 1)) (λ _. (_, refl)) (λ e. h e (records ++ b)))

  turn-Ends :
      (page : ℕ) (records : List ZoneRecord)
      (next : List ZoneRecord → Option (Answer (List ZoneRecord))) (p : Answer Page)
      → (ltb dns_page_limit (page + 1) ≡ false → (rs : List ZoneRecord) → Ends (next rs))
      → Ends (turn cf zone_id s page records next p)
  unfolding turn
  turn-Ends page records next (failed f) h = (_, refl)
  turn-Ends page records next (returned p) h =
      with_batch-Ends page records next p.batch p.total_pages h

  -- Fuel that reaches past the last page is enough.
  pub read_pages_end :
      (fuel page : ℕ) (records : List ZoneRecord)
      → 1 ≤ page
      → 51 ≤ fuel + page
      → 1 ≤ fuel
      → (a : Answer (List ZoneRecord)) × (read_pages cf zone_id s fuel page records ≡ some a)
  unfolding read_pages dns_page_limit
  read_pages_end zero page records h k l = absurd (omega (arith, l))
  read_pages_end (suc n) page records h k l =
      turn-Ends page records (λ rs. read_pages cf zone_id s n (page + 1) rs)
        (cf.dns_page zone_id page s)
        (λ e rs. read_pages_end n (page + 1) rs (omega arith) (omega arith) (ground (arith, e, k)))

  with_batch-cong :
      (page : ℕ) (records : List ZoneRecord)
      (f g : List ZoneRecord → Option (Answer (List ZoneRecord))) (b : Option (List ZoneRecord))
      (total : Option ℕ)
      → (ltb dns_page_limit (page + 1) ≡ false → (rs : List ZoneRecord) → f rs ≡ g rs)
      → with_batch cf zone_id s page records f b total
        ≡ with_batch cf zone_id s page records g b total
  unfolding with_batch
  with_batch-cong page records f g none total h = refl
  with_batch-cong page records f g (some b) total h = elim (Bool-cases (is_last page b total)) [
    | inl k ↦ rw k refl
    | inr k ↦ rw k (elim (Bool-cases (ltb dns_page_limit (page + 1))) [
      | inl e ↦ rw e refl
      | inr e ↦ rw e (h e (records ++ b))
    ])
  ]

  turn-cong :
      (page : ℕ) (records : List ZoneRecord)
      (f g : List ZoneRecord → Option (Answer (List ZoneRecord))) (p : Answer Page)
      → (ltb dns_page_limit (page + 1) ≡ false → (rs : List ZoneRecord) → f rs ≡ g rs)
      → turn cf zone_id s page records f p ≡ turn cf zone_id s page records g p
  unfolding turn
  turn-cong page records f g (failed e) h = refl
  turn-cong page records f g (returned p) h =
      with_batch-cong page records f g p.batch p.total_pages h

  -- Fuel for the fifty pages is enough: more of it changes nothing.
  fuel_irrelevant :
      (n m page : ℕ) (records : List ZoneRecord)
      → 51 ≤ n + page
      → 51 ≤ m + page
      → 1 ≤ n
      → 1 ≤ m
      → read_pages cf zone_id s n page records ≡ read_pages cf zone_id s m page records
  unfolding read_pages dns_page_limit
  fuel_irrelevant zero m page records h k l o = absurd (omega (arith, l))
  fuel_irrelevant (suc n) zero page records h k l o = absurd (omega (arith, o))
  fuel_irrelevant (suc n) (suc m) page records h k l o =
      turn-cong page records (λ rs. read_pages cf zone_id s n (page + 1) rs)
        (λ rs. read_pages cf zone_id s m (page + 1) rs) (cf.dns_page zone_id page s)
        (λ e rs.
          fuel_irrelevant n m (page + 1) rs (omega arith) (omega arith) (ground (arith, e, h))
            (ground (arith, e, k)))

  -- Whatever pages Cloudflare answers with, the reading of a zone's records ends within fifty
  -- pages: every fuel of at least fifty gives the result of get_dns_records.
  pub get_dns_records_ends :
      (fuel : ℕ)
      → 50 ≤ fuel
      → read_pages cf zone_id s fuel 1 [] ≡ some (get_dns_records cf zone_id s)
  unfolding get_dns_records dns_page_limit
  get_dns_records_ends fuel h =
      let (a, e) = read_pages_end 50 1 [] (omega arith) (omega arith) (omega arith) in
      fuel_irrelevant fuel 50 1 [] (omega arith) (omega arith) (omega arith) (omega arith)
      ∙ rw e refl

-- A zone of these records, listed a hundred to a page, with the number of pages given on each.
abbrev pub Lists : (cf : Cloudflare) → Text → cf.State → List ZoneRecord → Type 0
Lists cf zone_id s records =
    (k : ℕ)
    → cf.dns_page zone_id (k + 1) s
      ≡ returned (record {
        batch = some (take 100 (drop (k * 100) records));
        total_pages = some ((length records + 99) / 100);
      })

module _ (cf : Cloudflare) (zone_id : Text) (s : cf.State) (records : List ZoneRecord) where
  last_covers :
      (k total : ℕ) (b : List ZoneRecord)
      → total ≡ (length records + 99) / 100
      → is_last (k + 1) b (some total) ≡ true
      → length records ≤ (k + 1) * 100
  unfolding is_last dns_page_size
  last_covers k zero b e h = omega (arith, e)
  last_covers k (suc n) b e h = ground (arith, e, h)

  window_grows :
      (k : ℕ)
      → take (k * 100) records ++ take 100 (drop (k * 100) records) ≡ take ((k + 1) * 100) records
  window_grows k = take_add (k * 100) 100 records ∙ ap (λ n. take n records) (omega arith)

  read_rest :
      (n k : ℕ)
      → Lists cf zone_id s records
      → n + k ≡ 50
      → 1 ≤ n
      → length records ≤ 5000
      → read_pages cf zone_id s n (k + 1) (take (k * 100) records) ≡ some (returned records)
  unfolding read_pages turn with_batch dns_page_limit
  read_rest zero k served h l small = absurd (omega (arith, l))
  read_rest (suc n) k served h l small =
      ap
        (turn cf zone_id s (k + 1) (take (k * 100) records)
          (λ rs. read_pages cf zone_id s n (k + 1 + 1) rs))
        (served k)
      ∙ elim (Bool-cases (
          is_last (k + 1) (take 100 (drop (k * 100) records))
            (some ((length records + 99) / 100)))) [
              | inl e ↦ rw e (
                  ap (λ rs. some (returned rs))
                    (window_grows k
                      ∙ take_whole ((k + 1) * 100) records (
                          last_covers k ((length records + 99) / 100)
                            (take 100 (drop (k * 100) records)) refl e)))
              | inr e ↦ rw e (elim (Bool-cases (ltb 50 (k + 1 + 1))) [
                | inl f ↦ rw f (
                    ap (λ rs. some (returned rs))
                      (window_grows k
                        ∙ take_whole ((k + 1) * 100) records (ground (arith, f, h, small))))
                | inr f ↦ rw f (
                    ap (λ rs. read_pages cf zone_id s n (k + 1 + 1) rs) (window_grows k)
                    ∙ read_rest n (k + 1) served (omega (arith, h)) (ground (arith, f, h)) small)
              ])
            ]

  -- For a zone of at most 5000 records that is listed a hundred to a page with its number of
  -- pages, get_dns_records returns exactly the zone's records, in order.
  pub get_dns_records_complete :
      Lists cf zone_id s records
      → length records ≤ 5000
      → get_dns_records cf zone_id s ≡ returned records
  unfolding get_dns_records dns_page_limit
  get_dns_records_complete served small =
      ap (or_stuck cf zone_id s) (read_rest 50 0 served (omega arith) (omega arith) small)
