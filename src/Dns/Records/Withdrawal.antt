-- ===== src/Dns/Records/Withdrawal.antt =====
-- What withdraw_dmarc_reporting of src/data_platform/services/dns_records.py leaves of a record.
use mathlib.Core.Path.{subst}
use mathlib.Core.List.{append_assoc}
use mathlib.Core.Option.{some-injective, none-ne-some}
use sicurre.Prelude.{
  ◌≡◌, refl, ap, sym, ◌∙◌, if_cases, Option, some, Bool, true, false, not, ◌&&◌, ◌||◌, List, [],
  ◌∷◌, ◌++◌, Bool-cases, inl, inr, or-false,
}
use sicurre.Prelude.Table.{select}
use sicurre.Prelude.Lists.{All}
use sicurre.Prelude.Text.{Text, codes, strip, is_empty, split_at, split, join, has_char}
use sicurre.Dns.Records.{
  clean_str, withdraw_dmarc_reporting, mentions_sicurre, kept_uris, reports, rebuilt_tag, rebuilt,
}
use sicurre.Dns.Records.Tags.{
  stripped, stripped-append, split-append, split_whole, split-free, stripped-blank, strip-free,
  strip_idem,
}

-- The tags of a record that report to nobody: those that a withdrawal must not touch.
abbrev pub is_other : Text → Bool
is_other tag = not (is_empty tag) && not (reports (split_at 61 tag))

abbrev pub IsOther : Text → Type 0
IsOther t = is_other t ≡ true

-- Every address that a reporting tag keeps is somebody else's.
pub kept_uris_foreign : (uris : List Text) → All (λ u. mentions_sicurre u ≡ false) (kept_uris uris)
unfolding kept_uris
kept_uris_foreign [] = tt
kept_uris_foreign (u ∷ us) = elim (Bool-cases (is_empty (strip u) || mentions_sicurre (strip u))) [
  | inl t ↦ rw t (kept_uris_foreign us)
  | inr t ↦
      rw t ((or-false (is_empty (strip u)) (mentions_sicurre (strip u)) t).1, kept_uris_foreign us)
]

-- The first list is what remains of the second when some elements are left out.
pub data Embeds : List Text → List Text → Type 0 where
  done : (ys : List Text) → Embeds [] ys
  both : (x : Text) {xs ys : List Text} → Embeds xs ys → Embeds (x ∷ xs) (x ∷ ys)
  skip : (y : Text) {xs ys : List Text} → Embeds xs ys → Embeds xs (y ∷ ys)

skip_all : (zs : List Text) {xs ys : List Text} → Embeds xs ys → Embeds xs (zs ++ ys)
skip_all [] e = e
skip_all (z ∷ zs) e = skip z (skip_all zs e)

other-cases : (a b : Bool) → (not a && not b) ≡ true → (a ≡ false) × (b ≡ false)
other-cases true b h = absurd cc
other-cases false true h = absurd cc
other-cases false false h = (refl, refl)

rebuilt_tag-other : (tag : Text) → is_other tag ≡ true → rebuilt_tag tag ≡ tag ∷ []
unfolding rebuilt_tag
rebuilt_tag-other tag h =
    let (p, q) = other-cases (is_empty tag) (reports (split_at 61 tag)) h in rw (p, q) refl

rebuilt-keeps : (tags : List Text) → Embeds (select is_other (stripped tags)) (rebuilt tags)
unfolding rebuilt
rebuilt-keeps [] = done []
rebuilt-keeps (t ∷ ts) = elim (Bool-cases (is_other (strip t))) [
  | inl h ↦ rw (h, rebuilt_tag-other (strip t) h) (both (strip t) (rebuilt-keeps ts))
  | inr h ↦ rw h (skip_all (rebuilt_tag (strip t)) (rebuilt-keeps ts))
]

-- A tag that a record is split into again: it has no semicolon and no blank at its ends.
abbrev IsTag : Text → Type 0
IsTag t = (has_char 59 t ≡ false) × (strip t ≡ t)

stripped-IsTag :
    (ts : List Text) → All (λ (t : Text). has_char 59 t ≡ false) ts → All IsTag (stripped ts)
stripped-IsTag [] h = tt
stripped-IsTag (t ∷ ts) (h, hs) = ((strip-free 59 t h, strip_idem t), stripped-IsTag ts hs)

select-All : (P : Text → Type 0) (p : Text → Bool) (ts : List Text) → All P ts → All P (select p ts)
select-All P p [] h = tt
select-All P p (t ∷ ts) (h, hs) = elim (Bool-cases (p t)) [
  | inl e ↦ rw e (h, select-All P p ts hs)
  | inr e ↦ rw e (select-All P p ts hs)
]

-- The tags of a record: what it is split into, stripped.
abbrev pub tags_of : Text → List Text
tags_of record_ = stripped (split 59 record_)

tags_of-whole : (t : Text) → IsTag t → tags_of t ≡ t ∷ []
tags_of-whole t (h, e) = rw (split_whole 59 t h, e) refl

tags_of-append : (a b : Text) → tags_of (a ++ 59 ∷ 32 ∷ b) ≡ tags_of a ++ tags_of b
tags_of-append a b =
    ap stripped (split-append 59 a (32 ∷ b))
    ∙ stripped-append (split 59 a) (split 59 (32 ∷ b))
    ∙ ap (λ (ts : List Text). tags_of a ++ ts) (stripped-blank b)

tags_of-joined : (a b : Text) → tags_of (a ++ codes "; " ++ b) ≡ tags_of a ++ tags_of b
tags_of-joined a b = ap tags_of (append_assoc a (codes "; ") b) ∙ tags_of-append a b

Embeds-nil : {xs : List Text} (ys : List Text) → Embeds xs [] → Embeds xs ys
Embeds-nil ys (done _) = done ys

-- What is embedded in a list of tags is embedded in the tags of the record that joins them.
tags_of-join :
    (xs ys : List Text) → All IsTag xs → Embeds xs ys → Embeds xs (tags_of (join (codes "; ") ys))
tags_of-join [] ys h e = done _
tags_of-join (x ∷ xs) [] h e = elim e [ ]
tags_of-join (x ∷ xs) (_ ∷ []) (t, h) (both _ e) = rw (tags_of-whole x t) (both x e)
tags_of-join (x ∷ xs) (_ ∷ y ∷ ys) (t, h) (both _ e) =
    let rest = join (codes "; ") (y ∷ ys) in
    subst (Embeds (x ∷ xs))
      (sym
        (tags_of-joined x rest ∙ ap (λ (ts : List Text). ts ++ tags_of rest) (tags_of-whole x t)))
      (both x (tags_of-join xs (y ∷ ys) h e))
tags_of-join (x ∷ xs) (z ∷ []) h (skip _ e) = Embeds-nil _ e
tags_of-join (x ∷ xs) (z ∷ y ∷ ys) h (skip _ e) =
    subst (Embeds (x ∷ xs)) (sym (tags_of-joined z (join (codes "; ") (y ∷ ys))))
      (skip_all (tags_of z) (tags_of-join (x ∷ xs) (y ∷ ys) h e))

-- Where a withdrawal gives a record, every tag of the published one that is not blank and not a
-- reporting one is still a tag of that record, stripped but otherwise as it was, and in the order
-- of the published one.
pub withdrawal_keeps_tags :
    (current withdrawn : Text)
    → withdraw_dmarc_reporting current ≡ some withdrawn
    → Embeds (select is_other (tags_of (clean_str current))) (tags_of withdrawn)
unfolding withdraw_dmarc_reporting
withdrawal_keeps_tags current withdrawn h =
    let tags = split 59 (clean_str current) in
    let kept : Embeds (select is_other (stripped tags))
        (tags_of (join (codes "; ") (rebuilt tags))) =
      tags_of-join _ (rebuilt tags)
        (select-All IsTag is_other (stripped tags)
          (stripped-IsTag tags (split-free 59 (clean_str current))))
        (rebuilt-keeps tags) in
    if_cases
      (λ (o : Option Text).
        o ≡ some withdrawn → Embeds (select is_other (stripped tags)) (tags_of withdrawn))
      (is_empty (clean_str current) || not (mentions_sicurre (clean_str current)))
      (λ _ e. absurd (none-ne-some _ e))
      (λ _ e.
        subst (λ (t : Text). Embeds (select is_other (stripped tags)) (tags_of t))
          (some-injective _ withdrawn e) kept)
      h
