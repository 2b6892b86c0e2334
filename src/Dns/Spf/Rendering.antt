-- ===== src/Dns/Spf/Rendering.antt =====
-- The record that merge_spf of src/data_platform/services/dns_records.py writes, read again.
use sicurre.Prelude.{
  ◌≡◌, refl, sym, ◌∙◌, ap, Bool, true, ◌||◌, List, [], ◌∷◌, ◌++◌, if◌then◌else◌, Bool-cases, inl,
  inr, or-right, if_both,
}
use mathlib.Core.List.{append_assoc, reverse, reverse-append, reverse-reverse}
use sicurre.Prelude.Lists.{All}
use sicurre.Prelude.Text.{
  Text, codes, text_eq, text_eq_refl, eq_of_text_eq, join, strip, rstrip, lstrip,
}
use sicurre.Dns.Records.{clean_str, unquote_bytes}
use sicurre.Dns.Spf.{
  words, routing_include, default_all, spf_version, is_all, among, take_mechanisms, with_routing,
  render, merge_parts, merge_spf,
}
use sicurre.Dns.Spf.Words.{IsWord, words-cons, words-one, words-join, words-IsWord}
use sicurre.Dns.Spf.Merging.{
  IsKept, IsClean, Collected, take_mechanisms-Collected, take_mechanisms-clean, with_routing-lem,
  with_routing_idem,
}

-- The four forms of all are words that end with an l.
abbrev EndsInL : Text → Type 0
EndsInL a = IsWord a × ((u : Text) × (a ≡ u ++ (108 ∷ [])))

of_form :
    (s a : Text) (rest : Bool)
    → EndsInL a
    → (rest ≡ true → EndsInL s)
    → (text_eq s a || rest) ≡ true
    → EndsInL s
of_form s a rest e f h = elim (Bool-cases (text_eq s a)) [
  | inl t ↦ rw (eq_of_text_eq s a t) e
  | inr t ↦ f (or-right (text_eq s a) rest t h)
]

is_all-EndsInL : (a : Text) → is_all a ≡ true → EndsInL a
unfolding is_all
is_all-EndsInL a =
    of_form a (codes "-all") _ ((refl, refl), (codes "-al", refl))
      (of_form a (codes "~all") _ ((refl, refl), (codes "~al", refl))
        (of_form a (codes "?all") _ ((refl, refl), (codes "?al", refl))
          (λ h. rw (eq_of_text_eq a (codes "+all") h) ((refl, refl), (codes "+al", refl)))))

rstrip-last : (t : Text) → rstrip (t ++ (108 ∷ [])) ≡ t ++ (108 ∷ [])
unfolding rstrip
rstrip-last t =
    ap (λ (u : Text). reverse (lstrip u)) (reverse-append t (108 ∷ []))
    ∙ ap reverse (sym (reverse-append t (108 ∷ [])))
    ∙ reverse-reverse (t ++ (108 ∷ []))

-- The last letter of a line.
line-eq :
    (t u : Text)
    → spf_version ++ 32 ∷ (t ++ 32 ∷ (u ++ (108 ∷ [])))
      ≡ (spf_version ++ 32 ∷ (t ++ 32 ∷ u)) ++ (108 ∷ [])
unfolding spf_version
line-eq t u = ap (λ (x : Text). codes "v=spf1" ++ 32 ∷ x) (sym (append_assoc t (32 ∷ u) (108 ∷ [])))

clean_str-front :
    (t u : Text)
    → clean_str ((spf_version ++ 32 ∷ (t ++ 32 ∷ u)) ++ (108 ∷ []))
      ≡ (spf_version ++ 32 ∷ (t ++ 32 ∷ u)) ++ (108 ∷ [])
unfolding clean_str strip spf_version unquote_bytes
clean_str-front t u = ap unquote_bytes (rstrip-last (spf_version ++ 32 ∷ (t ++ 32 ∷ u)))

-- A line that starts with the version and ends with an all is clean.
clean_str-line :
    (t a : Text)
    → is_all a ≡ true
    → clean_str (spf_version ++ 32 ∷ (t ++ 32 ∷ a)) ≡ spf_version ++ 32 ∷ (t ++ 32 ∷ a)
clean_str-line t a h =
    let (w, (u, e)) = is_all-EndsInL a h in
    let eq = ap (λ (x : Text). spf_version ++ 32 ∷ (t ++ 32 ∷ x)) e ∙ line-eq t u in
    ap clean_str eq ∙ clean_str-front t u ∙ sym eq

words_of : (xs : List Text) → All IsKept xs → All IsWord xs
words_of [] a = tt
words_of (x ∷ xs) (p, a) = (p.0, words_of xs a)

join-words :
    (ms : List Text) (a : Text)
    → All IsKept ms
    → among routing_include ms ≡ true
    → IsWord a
    → words (join (32 ∷ []) ms ++ 32 ∷ a) ≡ ms ++ (a ∷ [])
unfolding among
join-words [] a k h w = absurd cc
join-words (m ∷ ms) a (k, ks) h w =
    words-join m ms a k.0 (words_of ms ks) ∙ ap (λ (us : List Text). (m ∷ ms) ++ us) (words-one a w)

version-IsWord : IsWord spf_version
unfolding spf_version
version-IsWord = (refl, refl)

-- The words of a rendered record.
pub words-render :
    (acc : List Text × Text)
    → Collected acc
    → words (clean_str (render acc)) ≡ spf_version ∷ (with_routing acc.0 ++ (acc.1 ∷ []))
unfolding render
words-render (ms, a) (c, h) =
    let (clean, present) = with_routing-lem ms c in
    ap words (clean_str-line (join (32 ∷ []) (with_routing ms)) a h)
    ∙ words-cons spf_version (join (32 ∷ []) (with_routing ms) ++ 32 ∷ a) version-IsWord
    ∙ ap (λ (us : List Text). spf_version ∷ us)
        (join-words (with_routing ms) a clean.kept present (is_all-EndsInL a h).0)

-- What merge_spf renders.
unfoldable pub collected : List Text → List Text × Text
collected [] = ([], default_all)
collected (version ∷ parts) =
    if text_eq version spf_version
    then take_mechanisms parts ([], default_all)
    else ([], default_all)

nothing-Collected : Collected ([], default_all)
unfolding default_all is_all
nothing-Collected = (record { kept = tt; distinct = tt }, refl)

collected-Collected : (parts : List Text) → All IsWord parts → Collected (collected parts)
unfolding collected
collected-Collected [] a = nothing-Collected
collected-Collected (version ∷ parts) (w, a) =
    if_both Collected (text_eq version spf_version)
      (take_mechanisms-Collected parts ([], default_all) a nothing-Collected) nothing-Collected

merge_parts-render : (parts : List Text) → merge_parts parts ≡ render (collected parts)
unfolding merge_parts collected render with_routing among
merge_parts-render [] = refl
merge_parts-render (version ∷ parts) = elim (Bool-cases (text_eq version spf_version)) [
  | inl t ↦ rw t refl
  | inr t ↦ rw t refl
]

pub merge_spf-render :
    (s : Text)
    → (merge_spf s ≡ render (collected (words (clean_str s))))
      × Collected (collected (words (clean_str s)))
unfolding merge_spf
merge_spf-render s =
    (merge_parts-render (words (clean_str s)), collected-Collected _ (words-IsWord (clean_str s)))

collected-clean :
    (ms : List Text) (a : Text)
    → IsClean ms
    → is_all a ≡ true
    → collected (spf_version ∷ (ms ++ (a ∷ []))) ≡ (ms, a)
unfolding collected
collected-clean ms a c h =
    rw (text_eq_refl spf_version) (take_mechanisms-clean [] ms a default_all c.kept c.distinct h)

-- Merging what is rendered renders it again.
merge_spf-again : (acc : List Text × Text) → Collected acc → merge_spf (render acc) ≡ render acc
unfolding merge_spf render
merge_spf-again (ms, a) (c, h) =
    let (clean, present) = with_routing-lem ms c in
    ap merge_parts (words-render (ms, a) (c, h))
    ∙ merge_parts-render (spf_version ∷ (with_routing ms ++ (a ∷ [])))
    ∙ ap render (collected-clean (with_routing ms) a clean h)
    ∙ ap (λ (us : List Text). spf_version ++ 32 ∷ (join (32 ∷ []) us ++ 32 ∷ a))
        (with_routing_idem ms)

-- A record that was merged once is a fixed point of the merge.
pub merge_spf_idempotent : (current : Text) → merge_spf (merge_spf current) ≡ merge_spf current
merge_spf_idempotent current =
    let (e, c) = merge_spf-render current in ap merge_spf e ∙ merge_spf-again _ c ∙ sym e
