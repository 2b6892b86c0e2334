-- ===== src/Quarantine/Objects/Keys.antt =====
-- The keys of the R2 custody store: what a key is made of, that its URI parses back to it, and that
-- two messages never share one.
use mathlib.Core.Option.{some-injective}
use mathlib.Core.List.{append_assoc, append_cancel_left, append_cancel_right}
use sicurre.Prelude.{
  ℕ, ◌≡◌, refl, ap, sym, ◌∙◌, true, false, ◌||◌, Option, none, some, List, [], ◌∷◌, ◌++◌, arith,
  ◌==◌, Bool-cases, inl, inr,
}
use sicurre.Prelude.Lists.{All, All-append, all, any, length, take}
use sicurre.Prelude.Text.{Text, codes, text_eq_refl, has_char, join, starts_with-append, Text-cases}
use sicurre.Quarantine.Objects.{
  R2Settings, key_of, r2_prefix, r2_key, safe_identifier, matches_id, id_char, eml, dots, texts_eq,
  scheme, drop_prefix, escapes, parse_uri,
}
use sicurre.Quarantine.Objects.Segments.{
  slash, Plain, segments, segments-append, segments-Plain, segments-join, segments-AllPlain,
  any-append_lists, root, root_relative, root-strip_chars, strip_chars_head, parts, posix,
  path_join,
}

has_char-append : (c : ℕ) (a b : Text) → has_char c (a ++ b) ≡ (has_char c a || has_char c b)
has_char-append c [] b = refl
has_char-append c (d ∷ a) b = ground (arith, has_char-append c a b)

id_chars_plain : (s : Text) → all id_char s ≡ true → has_char slash s ≡ false
id_chars_plain [] h = refl
id_chars_plain (c ∷ s) h = ground (arith, id_chars_plain s)

-- An identifier and the file that is named by it are path segments of their own.
pub matches_id-Plain : (w : Text) → matches_id w ≡ true → Plain w
unfolding matches_id
matches_id-Plain [] h = absurd cc
matches_id-Plain (c ∷ s) h = (ground (arith, id_chars_plain s), ground arith)

pub eml-Plain : (w : Text) → matches_id w ≡ true → Plain (eml w)
unfolding matches_id
eml-Plain [] h = absurd cc
eml-Plain (c ∷ s) h = (
  has_char-append slash (c ∷ s) (codes ".eml") ∙ rw ((matches_id-Plain (c ∷ s) h).0) refl,
  ground arith,
)

id_dots_whole : (w : Text) → matches_id w ≡ true → dots w ≡ false
unfolding matches_id
id_dots_whole [] h = absurd cc
id_dots_whole (c ∷ s) h = ground arith

id_dots : (w t : Text) → matches_id w ≡ true → dots (w ++ t) ≡ false
unfolding matches_id
id_dots [] t h = absurd cc
id_dots (c ∷ s) t h = ground arith

join_head :
    (w : Text) (ws : List Text)
    → Plain w
    → (c : ℕ) × (t : Text) × (join (slash ∷ []) (w ∷ ws) ≡ c ∷ t) × ((c == slash) ≡ false)
join_head [] ws (h, k) = absurd cc
join_head (c ∷ w) [] (h, k) = (c, w, refl, ground arith)
join_head (c ∷ w) (v ∷ ws) (h, k) = (c, _, refl, ground arith)

-- The segments of a message's key.
abbrev pub key_segments : R2Settings → Text → Text → List Text
key_segments settings workspace item = segments (r2_prefix settings) ++ (workspace ∷ eml item ∷ [])

segments-path_join : (a b : Text) → segments (path_join a b) ≡ segments a ++ segments b
unfolding segments
segments-path_join [] b = refl
segments-path_join (c ∷ a) b = segments-append (c ∷ a) b

segments_path :
    (p : Text) (w f : Text)
    → Plain w
    → Plain f
    → segments (path_join (path_join p w) f) ≡ segments p ++ (w ∷ f ∷ [])
segments_path p w f h k =
    segments-path_join (path_join p w) f
    ∙ ap (λ (t : List Text). t ++ segments f) (segments-path_join p w)
    ∙ rw (segments-Plain w h, segments-Plain f k) (append_assoc (segments p) (w ∷ []) (f ∷ []))

root_path :
    (settings : R2Settings) (w f : Text)
    → Plain w
    → root (path_join (path_join (r2_prefix settings) w) f) ≡ []
unfolding r2_prefix
root_path settings [] f (h, k) = absurd cc
root_path settings (d ∷ w) f (h, k) = elim (Text-cases (r2_prefix settings)) [
  | inl e ↦ rw e (root_relative d _ (ground arith))
  | inr (c, t, e) ↦
      rw e
        (root_relative c _ (strip_chars_head (λ x. x == slash) settings.quarantine_r2_prefix c t e))
]

head-Plain :
    (xs : List Text) (w : Text) (ws : List Text)
    → All Plain xs
    → Plain w
    → (v : Text) × (vs : List Text) × (xs ++ w ∷ ws ≡ v ∷ vs) × Plain v
head-Plain [] w ws hs h = (w, ws, refl, h)
head-Plain (x ∷ xs) w ws (k, hs) h = (x, xs ++ w ∷ ws, refl, k)

key_segments-Plain :
    (settings : R2Settings) (w i : Text)
    → matches_id w ≡ true
    → matches_id i ≡ true
    → All Plain (key_segments settings w i)
key_segments-Plain settings w i h k =
    All-append Plain (segments (r2_prefix settings)) (w ∷ eml i ∷ [])
      (segments-AllPlain (r2_prefix settings)) (matches_id-Plain w h, (eml-Plain i k, tt))

-- The key of a message that has one, written out.
abbrev pub plain_key : R2Settings → Text → Text → Text
plain_key settings w i = join (slash ∷ []) (key_segments settings w i)

plain_key_head :
    (settings : R2Settings) (w i : Text)
    → matches_id w ≡ true
    → matches_id i ≡ true
    → (c : ℕ) × (t : Text) × (plain_key settings w i ≡ c ∷ t) × ((c == slash) ≡ false)
plain_key_head settings w i h k =
    let (v, vs, e, plain) =
      head-Plain (segments (r2_prefix settings)) w (eml i ∷ [])
        (segments-AllPlain (r2_prefix settings)) (matches_id-Plain w h) in
    rw e (join_head v vs plain)

posix_key :
    (settings : R2Settings) (w i : Text)
    → matches_id w ≡ true
    → matches_id i ≡ true
    → posix (path_join (path_join (r2_prefix settings) w) (eml i)) ≡ plain_key settings w i
unfolding posix
posix_key settings w i h k =
    let (c, t, e, _) = plain_key_head settings w i h k in
    rw
      (
        root_path settings w (eml i) (matches_id-Plain w h),
        segments_path (r2_prefix settings) w (eml i) (matches_id-Plain w h) (eml-Plain i k),
        e,
      )
      refl

safe_identifier-some : (v s : Text) → safe_identifier v ≡ some s → (matches_id v ≡ true) × (s ≡ v)
unfolding safe_identifier
safe_identifier-some v s e = elim (Bool-cases (matches_id v)) [
  | inl h ↦ (h, ground (arith, e))
  | inr h ↦ absurd (ground (arith, e, h))
]

key_of-some :
    (settings : R2Settings) (a b : Option Text) (key : Text)
    → key_of settings a b ≡ some key
    → (w : Text) × (i : Text) × (a ≡ some w)
      × (b ≡ some i)
      × (posix (path_join (path_join (r2_prefix settings) w) (eml i)) ≡ key)
unfolding key_of
key_of-some settings none b key e = absurd cc
key_of-some settings (some w) none key e = absurd cc
key_of-some settings (some w) (some i) key e = (w, i, refl, refl, some-injective _ key e)

pub r2_key-plain :
    (settings : R2Settings) (w i : Text) (key : Text)
    → r2_key settings w i ≡ some key
    → (matches_id w ≡ true) × (matches_id i ≡ true) × (key ≡ plain_key settings w i)
unfolding r2_key
r2_key-plain settings w i key e =
    let (w', i', ew, ei, ek) = key_of-some settings (safe_identifier w) (safe_identifier i) key e in
    let (h, same_w) = safe_identifier-some w w' ew in
    let (k, same_i) = safe_identifier-some i i' ei in
    (h, k, sym ek ∙ rw (same_w, same_i) refl ∙ posix_key settings w i h k)

parts_key :
    (settings : R2Settings) (w i : Text)
    → matches_id w ≡ true
    → matches_id i ≡ true
    → parts (plain_key settings w i) ≡ key_segments settings w i
unfolding parts
parts_key settings w i h k =
    let (c, t, e, relative) = plain_key_head settings w i h k in
    rw (ap root e ∙ root_relative c t relative)
      (segments-join (key_segments settings w i) (key_segments-Plain settings w i h k))

parts_prefix : (settings : R2Settings) → parts (r2_prefix settings) ≡ segments (r2_prefix settings)
unfolding parts r2_prefix
parts_prefix settings = rw (root-strip_chars settings.quarantine_r2_prefix) refl

take-append : {A : Type 0} (xs ys : List A) → take (length xs) (xs ++ ys) ≡ xs
take-append [] ys = refl
take-append (x ∷ xs) ys = ap (λ zs. x ∷ zs) (take-append xs ys)

texts_eq_refl : (xs : List Text) → texts_eq xs xs ≡ true
texts_eq_refl [] = refl
texts_eq_refl (x ∷ xs) = rw (text_eq_refl x, texts_eq_refl xs) refl

drop_prefix-append : (p s : Text) → drop_prefix p (p ++ s) ≡ s
drop_prefix-append [] s = refl
drop_prefix-append (c ∷ p) s = drop_prefix-append p s

key_stays :
    (settings : R2Settings) (w i : Text)
    → any dots (segments (r2_prefix settings)) ≡ false
    → matches_id w ≡ true
    → matches_id i ≡ true
    → escapes (r2_prefix settings) (plain_key settings w i) ≡ false
unfolding escapes
key_stays settings w i inside h k =
    rw
      (
        parts_key settings w i h k,
        parts_prefix settings,
        any-append_lists dots (segments (r2_prefix settings)) (w ∷ eml i ∷ []),
        inside,
        take-append (segments (r2_prefix settings)) (w ∷ eml i ∷ []),
        texts_eq_refl (segments (r2_prefix settings)),
      )
      (rw (id_dots_whole w h, id_dots i (codes ".eml") k) refl)

-- The URI of a key that was written parses back to it.
pub parse_uri-r2_key :
    (settings : R2Settings) (w i key : Text)
    → any dots (segments (r2_prefix settings)) ≡ false
    → r2_key settings w i ≡ some key
    → parse_uri settings (scheme settings ++ key) ≡ some key
unfolding parse_uri
parse_uri-r2_key settings w i key inside e =
    let (h, k, plain) = r2_key-plain settings w i key e in
    rw
      (
        starts_with-append (scheme settings) key,
        drop_prefix-append (scheme settings) key,
        ap (escapes (r2_prefix settings)) plain ∙ key_stays settings w i inside h k,
      )
      refl

abbrev head_or : Text → List Text → Text
head_or w [] = w
head_or w (v ∷ _) = v

abbrev rest : List Text → List Text
rest [] = []
rest (_ ∷ vs) = vs

-- Two messages never share a key.
pub r2_key_injective :
    (settings : R2Settings) (w i w' i' key : Text)
    → r2_key settings w i ≡ some key
    → r2_key settings w' i' ≡ some key
    → (w ≡ w') × (i ≡ i')
r2_key_injective settings w i w' i' key e e' =
    let (h, k, plain) = r2_key-plain settings w i key e in
    let (h', k', plain') = r2_key-plain settings w' i' key e' in
    let same =
      sym (parts_key settings w i h k)
      ∙ ap parts (sym plain ∙ plain')
      ∙ parts_key settings w' i' h' k' in
    let tails =
      append_cancel_left (segments (r2_prefix settings)) (w ∷ eml i ∷ []) (w' ∷ eml i' ∷ []) same in
    (
      ap (λ (ws : List Text). head_or [] ws) tails,
      append_cancel_right i i' (codes ".eml") (ap (λ (ws : List Text). head_or [] (rest ws)) tails),
    )
