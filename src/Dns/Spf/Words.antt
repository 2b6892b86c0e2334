-- ===== src/Dns/Spf/Words.antt =====
-- Words of a text and back, for src/data_platform/services/dns_records.py.
use sicurre.Prelude.{
  ℕ, ◌≡◌, refl, sym, ◌∙◌, ap, false, List, [], ◌∷◌, ◌++◌, Bool-cases, inl, inr, or-false,
}
use mathlib.Core.List.{append_assoc, append-nil}
use sicurre.Prelude.Lists.{any, All}
use sicurre.Prelude.Text.{Text, is_space, is_empty, join}
use sicurre.Dns.Spf.{tokens, words, flush}

-- A text without spaces that is not empty.
abbrev pub IsWord : Text → Type 0
IsWord w = (is_empty w ≡ false) × (any is_space w ≡ false)

tokens-append :
    (word w s : Text) → any is_space w ≡ false → tokens word (w ++ s) ≡ tokens (word ++ w) s
unfolding tokens
tokens-append word [] s h = ap (λ (u : Text). tokens u s) (sym (append-nil word))
tokens-append word (c ∷ w) s h =
    let (p, q) = or-false (is_space c) (any is_space w) h in
    rw p (
      tokens-append (word ++ (c ∷ [])) w s q
      ∙ ap (λ (u : Text). tokens u s) (append_assoc word (c ∷ []) w))

flush-word : (w : Text) (ws : List Text) → is_empty w ≡ false → flush w ws ≡ w ∷ ws
flush-word [] ws h = absurd cc
flush-word (c ∷ w) ws h = refl

pub words-cons : (w s : Text) → IsWord w → words (w ++ 32 ∷ s) ≡ w ∷ words s
unfolding tokens
words-cons w s (p, q) = tokens-append [] w (32 ∷ s) q ∙ flush-word w (tokens [] s) p

pub words-one : (w : Text) → IsWord w → words w ≡ w ∷ []
unfolding tokens
words-one w (p, q) =
    ap (λ (u : Text). tokens [] u) (sym (append-nil w))
    ∙ tokens-append [] w [] q
    ∙ flush-word w [] p

-- The words of a line that is made of words are these words.
pub words-join :
    (w : Text) (ws : List Text) (s : Text)
    → IsWord w
    → All IsWord ws
    → words (join (32 ∷ []) (w ∷ ws) ++ 32 ∷ s) ≡ (w ∷ ws) ++ words s
words-join w [] s h a = words-cons w s h
words-join w (x ∷ ws) s h (p, a) =
    ap words (
      append_assoc (w ++ (32 ∷ [])) (join (32 ∷ []) (x ∷ ws)) (32 ∷ s)
      ∙ append_assoc w (32 ∷ []) (join (32 ∷ []) (x ∷ ws) ++ 32 ∷ s))
    ∙ words-cons w (join (32 ∷ []) (x ∷ ws) ++ 32 ∷ s) h
    ∙ ap (λ (us : List Text). w ∷ us) (words-join x ws s p a)

any-append :
    (p q : Text) → any is_space p ≡ false → any is_space q ≡ false → any is_space (p ++ q) ≡ false
any-append [] q h k = k
any-append (c ∷ p) q h k =
    let (a, b) = or-false (is_space c) (any is_space p) h in rw a (any-append p q b k)

snoc-not_empty : (w : Text) (c : ℕ) → is_empty (w ++ (c ∷ [])) ≡ false
snoc-not_empty [] c = refl
snoc-not_empty (x ∷ w) c = refl

flush-IsWord :
    (w : Text) (ws : List Text) → any is_space w ≡ false → All IsWord ws → All IsWord (flush w ws)
flush-IsWord [] ws h a = a
flush-IsWord (c ∷ w) ws h a = ((refl, h), a)

-- What is read as a word is one.
tokens-IsWord : (word s : Text) → any is_space word ≡ false → All IsWord (tokens word s)
unfolding tokens
tokens-IsWord word [] h = flush-IsWord word [] h tt
tokens-IsWord word (c ∷ s) h = elim (Bool-cases (is_space c)) [
  | inl t ↦ rw t (flush-IsWord word (tokens [] s) h (tokens-IsWord [] s refl))
  | inr t ↦ rw t (tokens-IsWord (word ++ (c ∷ [])) s (any-append word (c ∷ []) h (rw t refl)))
]

pub words-IsWord : (s : Text) → All IsWord (words s)
words-IsWord s = tokens-IsWord [] s refl
