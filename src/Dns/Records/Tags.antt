-- ===== src/Dns/Records/Tags.antt =====
-- Splitting a record at its semicolons, and what stripping the pieces changes.
use mathlib.Core.List.{reverse, reverse-append, reverse-reverse}
use sicurre.Prelude.{
  ℕ, ◌≡◌, refl, ap, sym, ◌∙◌, false, ◌||◌, List, [], ◌∷◌, ◌++◌, ◌==◌, arith, ==_refl, if◌then◌else◌,
  Bool-cases, inl, inr, or-false,
}
use sicurre.Prelude.Lists.{All}
use sicurre.Prelude.Text.{Text, is_space, lstrip, rstrip, strip, has_char, split}

abbrev pub stripped : List Text → List Text
stripped [] = []
stripped (t ∷ ts) = strip t ∷ stripped ts

pub stripped-append : (xs ys : List Text) → stripped (xs ++ ys) ≡ stripped xs ++ stripped ys
stripped-append [] ys = refl
stripped-append (x ∷ xs) ys = ap (λ (ts : List Text). strip x ∷ ts) (stripped-append xs ys)

step : ℕ → ℕ → List Text → List Text
step c d ps = elim ps [ [] ↦ (d ∷ []) ∷ [] | w ∷ ws ↦ if d == c then [] ∷ w ∷ ws else (d ∷ w) ∷ ws ]

step-cons : (c d : ℕ) (ps : List Text) → (w : Text) × (ws : List Text) × (step c d ps ≡ w ∷ ws)
unfolding step
step-cons c d [] = (d ∷ [], [], refl)
step-cons c d (w ∷ ws) = elim (Bool-cases (d == c)) [
  | inl h ↦ ([], w ∷ ws, rw h refl)
  | inr h ↦ (d ∷ w, ws, rw h refl)
]

split-cons : (c : ℕ) (t : Text) → (w : Text) × (ws : List Text) × (split c t ≡ w ∷ ws)
unfolding step
split-cons c [] = ([], [], refl)
split-cons c (d ∷ t) = step-cons c d (split c t)

step-append :
    (c d : ℕ) (w : Text) (ws ys : List Text) → step c d (w ∷ ws ++ ys) ≡ step c d (w ∷ ws) ++ ys
unfolding step
step-append c d w ws ys = elim (Bool-cases (d == c)) [ inl h ↦ rw h refl | inr h ↦ rw h refl ]

pub split-append : (c : ℕ) (a b : Text) → split c (a ++ c ∷ b) ≡ split c a ++ split c b
unfolding step
split-append c [] b = let (w, ws, e) = split-cons c b in rw (e, ==_refl c) refl
split-append c (d ∷ a) b =
    let (w, ws, e) = split-cons c a in
    ap (step c d) (split-append c a b ∙ ap (λ ps. ps ++ split c b) e)
    ∙ step-append c d w ws (split c b)
    ∙ ap (λ ps. step c d ps ++ split c b) (sym e)

pub split_whole : (c : ℕ) (t : Text) → has_char c t ≡ false → split c t ≡ t ∷ []
split_whole c [] h = refl
split_whole c (d ∷ t) h =
    let (p, q) = or-false (d == c) (has_char c t) h in rw (split_whole c t q, p) refl

step-free :
    (c d : ℕ) (ps : List Text)
    → All (λ (w : Text). has_char c w ≡ false) ps
    → ((d == c) ≡ false → All (λ (w : Text). has_char c w ≡ false) (step c d ps))
unfolding step
step-free c d [] h e = (rw e refl, tt)
step-free c d (w ∷ ws) (h, hs) e = rw (e, e) (rw h refl, hs)

pub split-free : (c : ℕ) (t : Text) → All (λ (w : Text). has_char c w ≡ false) (split c t)
unfolding step
split-free c [] = (refl, tt)
split-free c (d ∷ t) =
    let (w, ws, e) = split-cons c t in
    elim (Bool-cases (d == c)) [
      | inl h ↦ rw (e, h) (refl, rw e at (split-free c t))
      | inr h ↦ step-free c d (split c t) (split-free c t) h
    ]

-- A blank at the front is lost when the pieces are stripped.
pub stripped-blank : (t : Text) → stripped (split 59 (32 ∷ t)) ≡ stripped (split 59 t)
unfolding strip
stripped-blank t = let (w, ws, e) = split-cons 59 t in rw e refl

lstrip_suffix : (s : Text) → (a : Text) × (s ≡ a ++ lstrip s)
lstrip_suffix [] = ([], refl)
lstrip_suffix (c ∷ s) = elim (Bool-cases (is_space c)) [
  | inl h ↦ let (a, e) = lstrip_suffix s in (c ∷ a, rw h (ap (λ (u : Text). c ∷ u) e))
  | inr h ↦ ([], rw h refl)
]

rstrip_prefix : (s : Text) → (b : Text) × (s ≡ rstrip s ++ b)
unfolding rstrip
rstrip_prefix s =
    let (a, e) = lstrip_suffix (reverse s) in
    (reverse a, sym (reverse-reverse s) ∙ ap reverse e ∙ reverse-append a (lstrip (reverse s)))

has_char-append : (c : ℕ) (a b : Text) → has_char c (a ++ b) ≡ (has_char c a || has_char c b)
has_char-append c [] b = refl
has_char-append c (d ∷ a) b = ground (arith, has_char-append c a b)

pub strip-free : (c : ℕ) (t : Text) → has_char c t ≡ false → has_char c (strip t) ≡ false
unfolding strip
strip-free c t h =
    let (a, e) = lstrip_suffix t in
    let (b, f) = rstrip_prefix (lstrip t) in
    let front =
      or-false (has_char c a) (has_char c (lstrip t))
        (sym (has_char-append c a (lstrip t)) ∙ ap (has_char c) (sym e) ∙ h) in
    (or-false (has_char c (rstrip (lstrip t))) (has_char c b)
      (sym (has_char-append c (rstrip (lstrip t)) b) ∙ ap (has_char c) (sym f) ∙ front.1)).0

lstrip-head : (s : Text) (d : ℕ) (r : Text) → lstrip s ≡ d ∷ r → is_space d ≡ false
lstrip-head [] d r h = absurd cc
lstrip-head (c ∷ s) d r h = elim (Bool-cases (is_space c)) [
  | inl e ↦ lstrip-head s d r (rw e at h)
  | inr e ↦ let f : c ∷ s ≡ d ∷ r = rw e at h in let g : c ≡ d = cc in rw (sym g) e
]

lstrip-prefix : (s p b : Text) → lstrip s ≡ p ++ b → lstrip p ≡ p
lstrip-prefix s [] b h = refl
lstrip-prefix s (d ∷ p) b h = rw (lstrip-head s d (p ++ b) h) refl

lstrip_idem : (s : Text) → lstrip (lstrip s) ≡ lstrip s
lstrip_idem [] = refl
lstrip_idem (c ∷ s) = elim (Bool-cases (is_space c)) [
  | inl e ↦ rw e (lstrip_idem s)
  | inr e ↦ rw (e, e) refl
]

rstrip_idem : (s : Text) → rstrip (rstrip s) ≡ rstrip s
unfolding rstrip
rstrip_idem s =
    ap (λ (u : Text). reverse (lstrip u)) (reverse-reverse (lstrip (reverse s)))
    ∙ ap reverse (lstrip_idem (reverse s))

pub strip_idem : (s : Text) → strip (strip s) ≡ strip s
unfolding strip
strip_idem s =
    let (b, e) = rstrip_prefix (lstrip s) in
    ap rstrip (lstrip-prefix s (rstrip (lstrip s)) b e) ∙ rstrip_idem (lstrip s)
