-- ===== src/Dns/Spf/Merging.antt =====
-- The mechanisms that merge_spf of src/data_platform/services/dns_records.py collects.
use sicurre.Prelude.{
  ◌≡◌, refl, sym, ◌∙◌, ap, true, false, List, [], ◌∷◌, ◌++◌, arith, Bool-cases, inl, inr,
}
use mathlib.Core.List.{append_assoc, append-nil}
use sicurre.Prelude.Lists.{All}
use sicurre.Prelude.Text.{Text, text_eq_refl}
use sicurre.Dns.Spf.{
  routing_include, is_withdrawn, is_all, among, take_mechanism, take_mechanisms, with_routing,
}
use sicurre.Dns.Spf.Words.{IsWord}

-- A mechanism that stays: a word, no all, and none that Sicurre withdraws.
abbrev pub IsKept : Text → Type 0
IsKept m = (IsWord m) × (is_all m ≡ false) × (is_withdrawn m ≡ false)

-- Every element of the second list is new after those before it and the first list.
abbrev pub Distinct : List Text → List Text → Type 0
Distinct ys [] = Unit
Distinct ys (x ∷ xs) = (among x ys ≡ false) × Distinct (ys ++ (x ∷ [])) xs

pub record IsClean (ms : List Text) : Type 0 where
  pub kept : All IsKept ms
  pub distinct : Distinct [] ms

Distinct-snoc :
    (ys xs : List Text) (m : Text)
    → Distinct ys xs
    → among m (ys ++ xs) ≡ false
    → Distinct ys (xs ++ (m ∷ []))
Distinct-snoc ys [] m d h = (ap (among m) (sym (append-nil ys)) ∙ h, tt)
Distinct-snoc ys (x ∷ xs) m (p, d) h =
    (p, Distinct-snoc (ys ++ (x ∷ [])) xs m d (ap (among m) (append_assoc ys (x ∷ []) xs) ∙ h))

All-snoc : (ms : List Text) (m : Text) → All IsKept ms → IsKept m → All IsKept (ms ++ (m ∷ []))
All-snoc [] m a k = (k, tt)
All-snoc (x ∷ ms) m (p, a) k = (p, All-snoc ms m a k)

pub IsClean-snoc :
    (ms : List Text) (m : Text)
    → IsClean ms
    → IsKept m
    → among m ms ≡ false
    → IsClean (ms ++ (m ∷ []))
IsClean-snoc ms m c k h = record {
  kept = All-snoc ms m c.kept k;
  distinct = Distinct-snoc [] ms m c.distinct h;
}

abbrev pub Collected : List Text × Text → Type 0
Collected (ms, a) = IsClean ms × (is_all a ≡ true)

take_mechanism-Collected :
    (m : Text) (acc : List Text × Text)
    → IsWord m
    → Collected acc
    → Collected (take_mechanism m acc)
unfolding take_mechanism
take_mechanism-Collected m (ms, a) w (c, l) = elim (Bool-cases (is_all m)) [
  | inl t ↦ rw t (c, t)
  | inr t ↦ elim (Bool-cases (is_withdrawn m)) [
    | inl u ↦ rw (t, u) (c, l)
    | inr u ↦ elim (Bool-cases (among m ms)) [
      | inl v ↦ rw (t, u, v) (c, l)
      | inr v ↦ rw (t, u, v) (IsClean-snoc ms m c (w, t, u) v, l)
    ]
  ]
]

pub take_mechanisms-Collected :
    (parts : List Text) (acc : List Text × Text)
    → All IsWord parts
    → Collected acc
    → Collected (take_mechanisms parts acc)
unfolding take_mechanisms
take_mechanisms-Collected [] acc a c = c
take_mechanisms-Collected (m ∷ parts) acc (w, a) c =
    take_mechanisms-Collected parts (take_mechanism m acc) a (take_mechanism-Collected m acc w c)

take_mechanism-kept :
    (m : Text) (ms : List Text) (a : Text)
    → IsKept m
    → among m ms ≡ false
    → take_mechanism m (ms, a) ≡ (ms ++ (m ∷ []), a)
unfolding take_mechanism
take_mechanism-kept m ms a (w, t, u) v = rw (t, u, v) refl

take_mechanism-all :
    (m : Text) (ms : List Text) (a : Text) → is_all m ≡ true → take_mechanism m (ms, a) ≡ (ms, m)
unfolding take_mechanism
take_mechanism-all m ms a t = rw t refl

-- A clean list that ends with an all is collected as it is.
pub take_mechanisms-clean :
    (ys xs : List Text) (a b : Text)
    → All IsKept xs
    → Distinct ys xs
    → is_all a ≡ true
    → take_mechanisms (xs ++ (a ∷ [])) (ys, b) ≡ (ys ++ xs, a)
unfolding take_mechanisms
take_mechanisms-clean ys [] a b k d h =
    take_mechanism-all a ys b h ∙ ap (λ (u : List Text). (u, a)) (sym (append-nil ys))
take_mechanisms-clean ys (x ∷ xs) a b (p, k) (q, d) h =
    ap (take_mechanisms (xs ++ (a ∷ []))) (take_mechanism-kept x ys b p q)
    ∙ take_mechanisms-clean (ys ++ (x ∷ [])) xs a b k d h
    ∙ ap (λ (u : List Text). (u, a)) (append_assoc ys (x ∷ []) xs)

routing_include-IsKept : IsKept routing_include
unfolding routing_include is_all is_withdrawn
routing_include-IsKept = ((refl, refl), refl, refl)

among-snoc : (m : Text) (ms : List Text) → among m (ms ++ (m ∷ [])) ≡ true
unfolding among
among-snoc m [] = rw (text_eq_refl m) refl
among-snoc m (x ∷ ms) = ground (arith, among-snoc m ms)

pub with_routing-lem :
    (ms : List Text)
    → IsClean ms
    → IsClean (with_routing ms) × (among routing_include (with_routing ms) ≡ true)
unfolding with_routing
with_routing-lem ms c = elim (Bool-cases (among routing_include ms)) [
  | inl t ↦ rw t (c, t)
  | inr t ↦ rw t (IsClean-snoc ms routing_include c routing_include-IsKept t, among-snoc _ ms)
]

pub with_routing_idem : (ms : List Text) → with_routing (with_routing ms) ≡ with_routing ms
unfolding with_routing
with_routing_idem ms = elim (Bool-cases (among routing_include ms)) [
  | inl t ↦ rw (t, t) refl
  | inr t ↦ rw (t, among-snoc routing_include ms) refl
]
