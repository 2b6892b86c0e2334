-- ===== src/Gateway/Sends.antt =====
-- The write requests that a call makes: what it adds to the log, and only that.
use mathlib.Core.List.{append_assoc, append-nil}
use sicurre.Prelude.{◌≡◌, refl, ap, sym, ◌∙◌, List, [], ◌∷◌, ◌++◌}
use sicurre.Prelude.Lists.{All, All-append, All-map}
use sicurre.Gateway.{Answer, returned, failed, Command, Cloudflare, World, issue, ◌>>=◌}

module _ (cf : Cloudflare) where
  -- From one world to the other, only such requests were made.
  abbrev pub Sends : (Command → Type 0) → World cf → World cf → Type 0
  Sends P w w' = (added : List Command) × (w'.1 ≡ w.1 ++ added) × All P added

  pub none-Sends : (P : Command → Type 0) (w : World cf) → Sends P w w
  none-Sends P w = ([], sym (append-nil w.1), tt)

  pub then-Sends :
      (P : Command → Type 0) (u v w : World cf) → Sends P u v → Sends P v w → Sends P u w
  then-Sends P u v w (a, e, h) (b, f, k) =
      (a ++ b, f ∙ ap (λ (t : List Command). t ++ b) e ∙ append_assoc u.1 a b, All-append P a b h k)

  pub issue-Sends :
      (P : Command → Type 0) (c : Command) (w : World cf) → P c → Sends P w (issue cf c w).1
  unfolding issue
  issue-Sends P c w h = (c ∷ [], refl, (h, tt))

  pub bind-Sends {ℓ κ} :
      {A : Type ℓ} {B : Type κ} (P : Command → Type 0) (w : World cf) (x : Answer A × World cf)
      (f : A → World cf → Answer B × World cf)
      → Sends P w x.1
      → ((a : A) (v : World cf) → x ≡ (returned a, v) → Sends P v (f a v).1)
      → Sends P w (x >>= f).1
  bind-Sends P w (returned a, v) f h k = then-Sends P w v (f a v).1 h (k a v refl)
  bind-Sends P w (failed e, v) f h k = h

  -- A sequence that returns has returned from its first call.
  pub bind-returned {ℓ κ} :
      {A : Type ℓ} {B : Type κ} (x : Answer A × World cf) (f : A → World cf → Answer B × World cf)
      (b : B)
      → (x >>= f).0 ≡ returned b
      → (a : A) × (x.0 ≡ returned a) × ((f a x.1).0 ≡ returned b) × ((x >>= f).1 ≡ (f a x.1).1)
  bind-returned (returned a, v) f b h = (a, refl, h, refl)
  bind-returned (failed e, v) f b h = absurd cc

  pub issue-log : (c : Command) (w : World cf) → (issue cf c w).1.1 ≡ w.1 ++ (c ∷ [])
  unfolding issue
  issue-log c w = refl

  -- What only looks at the answer makes no request.
  pub bind-pure {ℓ κ} :
      {A : Type ℓ} {B : Type κ} (x : Answer A × World cf) (g : A → Answer B)
      → (x >>= λ a v. (g a, v)).1 ≡ x.1
  bind-pure (returned a, v) g = refl
  bind-pure (failed e, v) g = refl

  pub weaken-Sends :
      (P Q : Command → Type 0) (w w' : World cf)
      → ((c : Command) → P c → Q c)
      → Sends P w w'
      → Sends Q w w'
  weaken-Sends P Q w w' h (added, e, all) = (added, e, All-map P Q h added all)
