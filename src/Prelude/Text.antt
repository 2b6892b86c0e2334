-- ===== src/Prelude/Text.antt =====
-- Texts as code points, and the methods of Python's `str` that the program uses. `lower` and
-- `strip` are those of ASCII: another code point is left alone, and is not a space.
use Prim.Native.Nat.{ℕ, ◌+◌}
use Prim.Native.Char.{code}
use Prim.Native.String.{String}
use mathlib.Core.Path.{◌≡◌, refl, ap, sym, ◌∙◌}
use mathlib.Core.Logic.{◌↔◌, ◌⊎◌, inl, inr}
use mathlib.Core.Bool.{Bool, true, false, ◌&&◌, ◌||◌}
use mathlib.Core.Option.{Option, none, some}
use mathlib.Core.List.{List, [], ◌∷◌, ◌++◌, map, reverse, reverse-append, reverse-reverse}
use native.Mathlib.Omega.{arith}
use sicurre.Prelude.Tests.{leb, ◌==◌, if◌then◌else◌}

abbrev pub Text : Type 0
Text = List ℕ

abbrev pub codes : String → Text
codes String.[] = []
codes (String.◌∷◌ c s) = code c ∷ codes s

abbrev pub text_eq : Text → Text → Bool
text_eq [] [] = true
text_eq [] (_ ∷ _) = false
text_eq (_ ∷ _) [] = false
text_eq (a ∷ s) (b ∷ t) = a == b && text_eq s t

pub text_eq_refl : (s : Text) → text_eq s s ≡ true
text_eq_refl [] = refl
text_eq_refl (a ∷ s) = ground (arith, text_eq_refl s)

pub eq_of_text_eq : (s t : Text) → text_eq s t ≡ true → s ≡ t
eq_of_text_eq [] [] h = refl
eq_of_text_eq [] (_ ∷ _) h = ground arith
eq_of_text_eq (_ ∷ _) [] h = ground arith
eq_of_text_eq (a ∷ s) (b ∷ t) h = ground (arith, eq_of_text_eq s t)

pub text_eq_iff : (s t : Text) → (text_eq s t ≡ true) ↔ (s ≡ t)
text_eq_iff s t = (eq_of_text_eq s t, λ e. rw e (text_eq_refl t))

-- `not s`
abbrev pub is_empty : Text → Bool
is_empty [] = true
is_empty (_ ∷ _) = false

pub Text-cases : (s : Text) → (s ≡ []) ⊎ ((c : ℕ) × (t : Text) × (s ≡ c ∷ t))
Text-cases [] = inl refl
Text-cases (c ∷ s) = inr (c, s, refl)

abbrev pub or_else : Text → Text → Text
or_else [] t = t
or_else (c ∷ s) _ = c ∷ s

unfoldable pub lower_char : ℕ → ℕ
lower_char c = if leb 65 c && leb c 90 then c + 32 else c

unfoldable pub lower : Text → Text
unfolding lower_char
lower = map lower_char

pub lower_char_idem : (c : ℕ) → lower_char (lower_char c) ≡ lower_char c
unfolding lower_char
lower_char_idem c = ground arith

map-lower_char_idem : (s : Text) → map lower_char (map lower_char s) ≡ map lower_char s
map-lower_char_idem [] = refl
map-lower_char_idem (c ∷ s) = cc (lower_char_idem c, map-lower_char_idem s)

pub lower_idem : (s : Text) → lower (lower s) ≡ lower s
unfolding lower
lower_idem s = map-lower_char_idem s

-- `lower(a) = lower(b)` in a statement
unfoldable pub same_name : Text → Text → Bool
same_name a b = text_eq (lower a) (lower b)

pub same_name_refl : (a : Text) → same_name a a ≡ true
unfolding same_name
same_name_refl a = text_eq_refl (lower a)

abbrev pub is_space : ℕ → Bool
is_space c = c == 32 || (leb 9 c && leb c 13 || leb 28 c && leb c 31)

abbrev pub lstrip : Text → Text
lstrip [] = []
lstrip (c ∷ s) = if is_space c then lstrip s else c ∷ s

unfoldable pub rstrip : Text → Text
rstrip s = reverse (lstrip (reverse s))

unfoldable pub strip : Text → Text
unfolding rstrip
strip s = rstrip (lstrip s)

-- `s.strip(chars)`, for the characters that pass
abbrev pub drop_while : (ℕ → Bool) → Text → Text
drop_while p [] = []
drop_while p (c ∷ s) = if p c then drop_while p s else c ∷ s

unfoldable pub rstrip_chars : (ℕ → Bool) → Text → Text
rstrip_chars p s = reverse (drop_while p (reverse s))

unfoldable pub strip_chars : (ℕ → Bool) → Text → Text
unfolding rstrip_chars
strip_chars p s = rstrip_chars p (drop_while p s)

-- `s.startswith(p)`
abbrev pub starts_with : Text → Text → Bool
starts_with [] s = true
starts_with (_ ∷ _) [] = false
starts_with (a ∷ p) (b ∷ s) = a == b && starts_with p s

-- `s.endswith(p)`
unfoldable pub ends_with : Text → Text → Bool
ends_with p s = starts_with (reverse p) (reverse s)

-- `p in s`
abbrev pub has_infix : Text → Text → Bool
has_infix p [] = is_empty p
has_infix p (c ∷ s) = starts_with p (c ∷ s) || has_infix p s

-- `c in s`, for one character
abbrev pub has_char : ℕ → Text → Bool
has_char c [] = false
has_char c (d ∷ s) = d == c || has_char c s

-- The text up to the first `c` and the text behind it; `none` if there is no `c`.
abbrev pub split_at : ℕ → Text → Option (Text × Text)
split_at c [] = none
split_at c (d ∷ s) =
    if d == c
    then some ([], s)
    else elim (split_at c s) [ none ↦ none | some (a, b) ↦ some (d ∷ a, b) ]

-- The text up to the last `c` and the text behind it.
abbrev pub rsplit_at : ℕ → Text → Option (Text × Text)
rsplit_at c [] = none
rsplit_at c (d ∷ s) = elim (rsplit_at c s) [
  | some (a, b) ↦ some (d ∷ a, b)
  | none ↦ if d == c then some ([], s) else none
]

-- `s.split(c)`
abbrev pub split : ℕ → Text → List Text
split c [] = [] ∷ []
split c (d ∷ s) = elim (split c s) [
  | [] ↦ (d ∷ []) ∷ []
  | w ∷ ws ↦ if d == c then [] ∷ w ∷ ws else (d ∷ w) ∷ ws
]

-- `sep.join(ws)`
abbrev pub join : Text → List Text → Text
join sep [] = []
join sep (w ∷ ws) = elim ws [ [] ↦ w | _ ∷ _ ↦ w ++ sep ++ join sep ws ]

pub starts_with-append : (p s : Text) → starts_with p (p ++ s) ≡ true
starts_with-append [] s = refl
starts_with-append (a ∷ p) s = ground (arith, starts_with-append p s)

pub starts_with_elim : (p s : Text) → starts_with p s ≡ true → (t : Text) × (s ≡ p ++ t)
starts_with_elim [] s h = (s, refl)
starts_with_elim (a ∷ p) [] h = absurd (ground arith)
starts_with_elim (a ∷ p) (b ∷ s) h =
    let (t, e) = starts_with_elim p s (ground arith) in (t, ground arith)

pub ends_with-append : (s p : Text) → ends_with p (s ++ p) ≡ true
unfolding ends_with
ends_with-append s p = rw reverse-append (starts_with-append (reverse p) (reverse s))

pub ends_with_elim : (p s : Text) → ends_with p s ≡ true → (t : Text) × (s ≡ t ++ p)
unfolding ends_with
ends_with_elim p s h =
    let (t, e) = starts_with_elim (reverse p) (reverse s) h in
    (
      reverse t,
      sym (reverse-reverse s)
          ∙ ap reverse e
          ∙ reverse-append (reverse p) t
          ∙ ap (λ (u : Text). reverse t ++ u) (reverse-reverse p),
    )

pub split_at_elim : (c : ℕ) (s : Text) (a b : Text) → split_at c s ≡ some (a, b) → s ≡ a ++ c ∷ b
split_at_elim c [] a b h = ground arith
split_at_elim c (d ∷ s) a b h = grind (arith, split_at_elim c s)

-- Names that are the same are interchangeable.
pub same_name-eq : (a b c : Text) → same_name a b ≡ true → same_name a c ≡ same_name b c
unfolding same_name
same_name-eq a b c h = ap (λ (t : Text). text_eq t (lower c)) (eq_of_text_eq (lower a) (lower b) h)

pub lower-same_name : (a b : Text) → same_name a b ≡ true → lower a ≡ lower b
unfolding same_name
lower-same_name a b h = eq_of_text_eq (lower a) (lower b) h

pub same_name-join :
    (a b c : Text) → same_name a c ≡ true → same_name b c ≡ true → same_name a b ≡ true
unfolding same_name
same_name-join a b c h k =
    rw (eq_of_text_eq (lower a) (lower c) h, eq_of_text_eq (lower b) (lower c) k)
      (text_eq_refl (lower c))
