-- ===== src/Shield/Sync/Grading.antt =====
-- The grade that sync_domain_shield_dns of src/data_platform/services/domain_shield_sync.py stores.
use sicurre.Prelude.{ℕ, ◌≡◌, ◌↔◌, ◌≤◌, refl, Bool, true, false, ◌&&◌, Option, [], ◌∷◌, arith}
use sicurre.Prelude.Text.{Text, is_empty}
use sicurre.Dns.Records.{DnsState}
use sicurre.Shield.Sync.{
  A, reputation, grade_of, Shield, shield_after, score_of, status_row, reporting_enabled,
  is_present, or_none,
}

-- The best grade wants all three records, and nothing else.
best_grade :
    (spf dkim dmarc reporting : Bool)
    → (grade_of (reputation spf dkim dmarc reporting) ≡ A) ↔ ((spf && (dkim && dmarc)) ≡ true)
unfolding grade_of reputation
best_grade true true true true = (λ _. refl, λ _. refl)
best_grade true true true false = (λ _. refl, λ _. refl)
best_grade true true false r = (λ h. absurd cc, λ h. absurd cc)
best_grade true false true true = (λ h. absurd cc, λ h. absurd cc)
best_grade true false true false = (λ h. absurd cc, λ h. absurd cc)
best_grade true false false r = (λ h. absurd cc, λ h. absurd cc)
best_grade false d m r = (λ h. absurd (ground arith), λ h. absurd cc)

reputation-bounds :
    (spf dkim dmarc reporting : Bool)
    → (35 ≤ reputation spf dkim dmarc reporting) × (reputation spf dkim dmarc reporting ≤ 100)
unfolding reputation
reputation-bounds spf dkim dmarc reporting = (ground arith, ground arith)

present_iff :
    (t : Text) → ((true && (is_present (or_none t) && true)) ≡ true) ↔ (is_empty t ≡ false)
present_iff [] = (λ h. absurd cc, λ h. absurd cc)
present_iff (_ ∷ _) = (λ _. refl, λ _. refl)

-- When both fixes are made, the stored grade is the best one exactly when a usable DKIM record was
-- read from the zone.
pub fixed_zone_grade :
    (zone_name : Text) (workspace : ℕ) (s : DnsState) (ssl : Option ℕ) (timestamp : ℕ)
    → ((status_row zone_name workspace
          (shield_after (record { spf = true; dmarc = true }) s)
          ssl
          timestamp).score_grade
        ≡ A)
      ↔ (is_empty s.dkim ≡ false)
unfolding status_row score_of shield_after
fixed_zone_grade zone_name workspace s ssl timestamp =
    let h = shield_after (record { spf = true; dmarc = true }) s in
    let best = best_grade true (is_present (or_none s.dkim)) true (reporting_enabled h) in
    (λ g. (present_iff s.dkim).0 (best.0 g), λ k. best.1 ((present_iff s.dkim).1 k))

-- A stored reputation score lies between 35 and 100.
pub score_bounds : (h : Shield) → (35 ≤ score_of h) × (score_of h ≤ 100)
unfolding score_of
score_bounds h = reputation-bounds h.spf_valid _ h.dmarc_valid _
