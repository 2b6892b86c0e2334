-- ===== src/Dns/Spf/Contract.antt =====
-- What merge_spf of src/data_platform/services/dns_records.py promises the customer and Sicurre.
use sicurre.Prelude.{
  ◌≡◌, refl, ◌∙◌, ap, true, false, List, [], ◌∷◌, ◌++◌, arith, Bool-cases, inl, inr, or-right,
  if_both,
}
use sicurre.Prelude.Text.{Text, text_eq, text_eq_refl, eq_of_text_eq, is_empty}
use sicurre.Dns.Records.{clean_str, planned_change, keep}
use sicurre.Dns.Spf.{
  words, routing_include, default_all, spf_version, is_withdrawn, is_all, among, take_mechanism,
  take_mechanisms, with_routing, merge_spf, tokens,
}
use sicurre.Dns.Spf.Merging.{IsClean, with_routing-lem}
use sicurre.Dns.Spf.Rendering.{words-render, collected, merge_spf-render, merge_spf_idempotent}

-- The mechanisms of a merged record, between the version and the last all.
abbrev pub IsMerged : List Text → Type 0
IsMerged ws =
    (ms : List Text) × (a : Text) × (ws ≡ spf_version ∷ (ms ++ (a ∷ [])))
    × IsClean ms
    × (among routing_include ms ≡ true)
    × (is_all a ≡ true)

-- Whatever the record was, the merged one is the version, then mechanisms that are all different,
-- that contain Cloudflare's routing include and none that Sicurre withdraws, then one all.
pub merge_spf_shape : (current : Text) → IsMerged (words (clean_str (merge_spf current)))
merge_spf_shape current =
    let (e, (c, h)) = merge_spf-render current in
    let acc = collected (words (clean_str current)) in
    let (clean, present) = with_routing-lem acc.0 c in
    (
      with_routing acc.0,
      acc.1,
      ap (λ (t : Text). words (clean_str t)) e ∙ words-render acc (c, h),
      clean,
      present,
      h,
    )

among-append : (m : Text) (xs ys : List Text) → among m xs ≡ true → among m (xs ++ ys) ≡ true
unfolding among
among-append m [] ys h = absurd cc
among-append m (x ∷ xs) ys h = ground (arith, among-append m xs ys)

among-cons : (m x : Text) (xs : List Text) → among m xs ≡ true → among m (x ∷ xs) ≡ true
unfolding among
among-cons m x xs h = ground (arith)

among-last : (m : Text) (xs : List Text) → among m (xs ++ (m ∷ [])) ≡ true
unfolding among
among-last m [] = rw (text_eq_refl m) refl
among-last m (x ∷ xs) = ground (arith, among-last m xs)

among-take_mechanism :
    (m x : Text) (ms : List Text) (a : Text)
    → among m ms ≡ true
    → among m (take_mechanism x (ms, a)).0 ≡ true
unfolding take_mechanism
among-take_mechanism m x ms a h = ground (arith, among-append m ms (x ∷ []))

take_mechanism-adds :
    (m : Text) (ms : List Text) (a : Text)
    → is_all m ≡ false
    → is_withdrawn m ≡ false
    → among m (take_mechanism m (ms, a)).0 ≡ true
unfolding take_mechanism
take_mechanism-adds m ms a t u = elim (Bool-cases (among m ms)) [
  | inl v ↦ rw (t, u, v) v
  | inr v ↦ rw (t, u, v) (among-last m ms)
]

among-take_mechanisms :
    (m : Text) (parts ms : List Text) (a : Text)
    → among m ms ≡ true
    → among m (take_mechanisms parts (ms, a)).0 ≡ true
unfolding take_mechanisms
among-take_mechanisms m [] ms a h = h
among-take_mechanisms m (x ∷ parts) ms a h =
    among-take_mechanisms m parts _ _ (among-take_mechanism m x ms a h)

take_mechanisms-adds :
    (m : Text) (parts ms : List Text) (a : Text)
    → is_all m ≡ false
    → is_withdrawn m ≡ false
    → among m parts ≡ true
    → among m (take_mechanisms parts (ms, a)).0 ≡ true
unfolding take_mechanisms among
take_mechanisms-adds m [] ms a t u h = absurd cc
take_mechanisms-adds m (x ∷ parts) ms a t u h = elim (Bool-cases (text_eq x m)) [
  | inl v ↦
      among-take_mechanisms m parts _ _ (rw (eq_of_text_eq x m v) (take_mechanism-adds m ms a t u))
  | inr v ↦ take_mechanisms-adds m parts _ _ t u (or-right (text_eq x m) _ v h)
]

among-with_routing :
    (m : Text) (ms : List Text) → among m ms ≡ true → among m (with_routing ms) ≡ true
unfolding with_routing
among-with_routing m ms h =
    if_both (λ (us : List Text). among m us ≡ true) (among routing_include ms) h
      (among-append m ms (routing_include ∷ []) h)

among-collected :
    (m : Text) (parts : List Text)
    → is_all m ≡ false
    → is_withdrawn m ≡ false
    → among m parts ≡ true
    → among m (collected (spf_version ∷ parts)).0 ≡ true
unfolding collected
among-collected m parts t u h =
    rw (text_eq_refl spf_version) (take_mechanisms-adds m parts [] default_all t u h)

-- A mechanism of an SPF record that is no all and is not one that Sicurre withdraws is still in
-- the merged record.
pub merge_spf_keeps :
    (current m : Text) (parts : List Text)
    → words (clean_str current) ≡ spf_version ∷ parts
    → is_all m ≡ false
    → is_withdrawn m ≡ false
    → among m parts ≡ true
    → among m (words (clean_str (merge_spf current))) ≡ true
merge_spf_keeps current m parts e t u h =
    let (r, (c, l)) = merge_spf-render current in
    let acc = collected (words (clean_str current)) in
    ap (among m) (ap (λ (x : Text). words (clean_str x)) r ∙ words-render acc (c, l))
    ∙ among-cons m spf_version _ (
        among-append m (with_routing acc.0) (acc.1 ∷ []) (
          among-with_routing m acc.0
            (ap (λ (ws : List Text). among m (collected ws).0) e ∙ among-collected m parts t u h)))

not_empty-words : (t x : Text) (xs : List Text) → words t ≡ x ∷ xs → is_empty t ≡ false
unfolding tokens
not_empty-words [] x xs h = absurd cc
not_empty-words (c ∷ t) x xs h = refl

-- Once a merged record is published, the preview of another merge says that the record is kept.
pub planned_change_settles :
    (current : Text) → planned_change (merge_spf current) (merge_spf (merge_spf current)) ≡ keep
unfolding planned_change
planned_change_settles current =
    let (ms, a, e, _, _, _) = merge_spf_shape current in
    rw
      (
        merge_spf_idempotent current,
        not_empty-words (clean_str (merge_spf current)) _ _ e,
        text_eq_refl (clean_str (merge_spf current)),
      )
      refl
