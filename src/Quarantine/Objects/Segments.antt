-- ===== src/Quarantine/Objects/Segments.antt =====
-- Pure POSIX paths, as src/data_platform/services/quarantine_storage.py builds and takes apart its
-- object keys with `PurePosixPath`: `/` separates, empty and `.` segments do not count.
use mathlib.Core.Path.{subst}
use mathlib.Core.List.{append_assoc, reverse, reverse-append, reverse-reverse}
use sicurre.Prelude.{
  ℕ, ◌≡◌, refl, ap, sym, ◌∙◌, Bool, true, false, not, ◌&&◌, ◌||◌, List, [], ◌∷◌, ◌++◌, arith, ◌==◌,
  if◌then◌else◌, Bool-cases, inl, inr,
}
use sicurre.Prelude.Lists.{All, any}
use sicurre.Prelude.Table.{select}
use sicurre.Prelude.Text.{
  Text, text_eq, is_empty, has_char, split, join, starts_with, drop_while, rstrip_chars,
  strip_chars, Text-cases,
}

abbrev pub slash : ℕ
slash = 47

abbrev pub counts : Text → Bool
counts s = not (is_empty s) && not (text_eq s (46 ∷ []))

unfoldable pub segments : Text → List Text
segments t = select counts (split slash t)

-- The root of an absolute path; two slashes are a root of their own, three are not.
unfoldable pub root : Text → Text
root t =
    if starts_with (slash ∷ slash ∷ slash ∷ []) t
    then slash ∷ []
    else if starts_with (slash ∷ slash ∷ []) t
    then slash ∷ slash ∷ []
    else if starts_with (slash ∷ []) t
    then slash ∷ []
    else []

-- `path.parts`
unfoldable pub parts : Text → List Text
unfolding root segments
parts t = if is_empty (root t) then segments t else root t ∷ segments t

-- `path.as_posix()`
unfoldable pub posix : Text → Text
unfolding root segments
posix t =
    if is_empty (root t ++ join (slash ∷ []) (segments t))
    then 46 ∷ []
    else root t ++ join (slash ∷ []) (segments t)

-- `PurePosixPath(a, b)`, for a `b` that is not absolute
abbrev pub path_join : Text → Text → Text
path_join [] b = b
path_join (c ∷ a) b = (c ∷ a) ++ slash ∷ b

-- A segment that stands for itself.
abbrev pub Plain : Text → Type 0
Plain w = (has_char slash w ≡ false) × (counts w ≡ true)

split_nonempty : (c : ℕ) (s : Text) → (w : Text) × (ws : List Text) × (split c s ≡ w ∷ ws)
split_nonempty c [] = ([], [], refl)
split_nonempty c (d ∷ s) =
    let (w, ws, e) = split_nonempty c s in
    rw e (elim (Bool-cases (d == c)) [
      | inl h ↦ rw h ([], w ∷ ws, refl)
      | inr h ↦ rw h (d ∷ w, ws, refl)
    ])

split-append : (c : ℕ) (a b : Text) → split c (a ++ c ∷ b) ≡ split c a ++ split c b
split-append c [] b = let (w, ws, e) = split_nonempty c b in ground (arith, e)
split-append c (d ∷ a) b =
    let (w, ws, e) = split_nonempty c a in
    rw (split-append c a b, e)
      (elim (Bool-cases (d == c)) [ inl h ↦ rw h refl | inr h ↦ rw h refl ])

split_whole : (c : ℕ) (w : Text) → has_char c w ≡ false → split c w ≡ w ∷ []
split_whole c [] h = refl
split_whole c (d ∷ w) h = ground (arith, split_whole c w)

select-append :
    {A : Type 0} (p : A → Bool) (xs ys : List A) → select p (xs ++ ys) ≡ select p xs ++ select p ys
select-append p [] ys = refl
select-append p (x ∷ xs) ys = ground (arith, select-append p xs ys)

pub any-append_lists :
    {A : Type 0} (p : A → Bool) (xs ys : List A) → any p (xs ++ ys) ≡ (any p xs || any p ys)
any-append_lists p [] ys = refl
any-append_lists p (x ∷ xs) ys = ground (arith, any-append_lists p xs ys)

pub segments-append : (a b : Text) → segments (a ++ slash ∷ b) ≡ segments a ++ segments b
unfolding segments
segments-append a b =
    ap (select counts) (split-append slash a b)
    ∙ select-append counts (split slash a) (split slash b)

pub segments-Plain : (w : Text) → Plain w → segments w ≡ w ∷ []
unfolding segments
segments-Plain w (h, k) = ap (select counts) (split_whole slash w h) ∙ rw k refl

pub segments-join : (ws : List Text) → All Plain ws → segments (join (slash ∷ []) ws) ≡ ws
unfolding segments
segments-join [] h = refl
segments-join (w ∷ []) (h, _) = segments-Plain w h
segments-join (w ∷ v ∷ ws) (h, hs) =
    ap segments (append_assoc w (slash ∷ []) (join (slash ∷ []) (v ∷ ws)))
    ∙ segments-append w (join (slash ∷ []) (v ∷ ws))
    ∙ rw (segments-Plain w h, segments-join (v ∷ ws) hs) refl

no_slash : (c : ℕ) (s : Text) → All (λ w. has_char c w ≡ false) (split c s)
no_slash c [] = (refl, tt)
no_slash c (d ∷ s) =
    let (w, ws, e) = split_nonempty c s in
    let (h, hs) = subst (All (λ v. has_char c v ≡ false)) e (no_slash c s) in
    rw e (elim (Bool-cases (d == c)) [
      | inl k ↦ rw k (refl, (h, hs))
      | inr k ↦ rw k (ground arith, hs)
    ])

selected-Plain :
    (ws : List Text) → All (λ w. has_char slash w ≡ false) ws → All Plain (select counts ws)
selected-Plain [] h = tt
selected-Plain (w ∷ ws) (h, hs) = elim (Bool-cases (counts w)) [
  | inl k ↦ rw k ((h, k), selected-Plain ws hs)
  | inr k ↦ rw k (selected-Plain ws hs)
]

pub segments-AllPlain : (t : Text) → All Plain (segments t)
unfolding segments
segments-AllPlain t = selected-Plain (split slash t) (no_slash slash t)

-- A path that starts with another character than a slash is relative.
pub root_relative : (c : ℕ) (s : Text) → (c == slash) ≡ false → root (c ∷ s) ≡ []
unfolding root
root_relative c s h = ground (arith, h)

-- What is stripped of slashes is relative.
drop_while_head :
    (p : ℕ → Bool) (s : Text) (c : ℕ) (t : Text) → drop_while p s ≡ c ∷ t → p c ≡ false
drop_while_head p [] c t h = ground arith
drop_while_head p (d ∷ s) c t h = ground (arith, drop_while_head p s c t)

drop_while_split : (p : ℕ → Bool) (s : Text) → (a : Text) × (s ≡ a ++ drop_while p s)
drop_while_split p [] = ([], refl)
drop_while_split p (d ∷ s) =
    let (a, e) = drop_while_split p s in
    elim (Bool-cases (p d)) [
      | inl h ↦ rw h (d ∷ a, ap (λ (t : Text). d ∷ t) e)
      | inr h ↦ rw h ([], refl)
    ]

rstrip_chars_split : (p : ℕ → Bool) (s : Text) → (b : Text) × (s ≡ rstrip_chars p s ++ b)
unfolding rstrip_chars
rstrip_chars_split p s =
    let (a, e) = drop_while_split p (reverse s) in
    (
      reverse a,
      sym (reverse-reverse s) ∙ ap reverse e ∙ reverse-append a (drop_while p (reverse s)),
    )

pub strip_chars_head :
    (p : ℕ → Bool) (s : Text) (c : ℕ) (t : Text) → strip_chars p s ≡ c ∷ t → p c ≡ false
unfolding strip_chars
strip_chars_head p s c t h =
    let (b, e) = rstrip_chars_split p (drop_while p s) in
    drop_while_head p s c (t ++ b) (e ∙ ap (λ (u : Text). u ++ b) h)

pub root-strip_chars : (s : Text) → root (strip_chars (λ c. c == slash) s) ≡ []
unfolding root
root-strip_chars s = elim (Text-cases (strip_chars (λ c. c == slash) s)) [
  | inl e ↦ rw e refl
  | inr (c, t, e) ↦ rw e (root_relative c t (strip_chars_head (λ c. c == slash) s c t e))
]
