-- ===== src/Prelude/Table.antt =====
-- Database tables as lists of rows, and the statements that the program runs on them.
use mathlib.Core.Path.{◌≡◌, refl}
use mathlib.Core.Bool.{Bool, true, false}
use mathlib.Core.Option.{none, some}
use mathlib.Core.Option.{none, some}
use mathlib.Core.List.{List, [], ◌∷◌}
use native.Mathlib.Omega.{arith}
use sicurre.Prelude.Tests.{if◌then◌else◌}
use sicurre.Prelude.Lists.{any, find}

module _ {ℓ} {A : Type ℓ} where
  -- SELECT ... WHERE p
  abbrev pub select : (A → Bool) → List A → List A
  select p [] = []
  select p (r ∷ rs) = if p r then r ∷ select p rs else select p rs

  -- UPDATE ... SET f WHERE p
  abbrev pub update : (A → Bool) → (A → A) → List A → List A
  update p f [] = []
  update p f (r ∷ rs) = (if p r then f r else r) ∷ update p f rs

  -- DELETE FROM ... WHERE p
  abbrev pub delete : (A → Bool) → List A → List A
  delete p [] = []
  delete p (r ∷ rs) = if p r then delete p rs else r ∷ delete p rs

  -- An update outside of a view leaves the view alone.
  pub select-update :
      (v p : A → Bool) (f : A → A)
      → ((r : A) → p r ≡ true → (v r ≡ false) × (v (f r) ≡ false))
      → (rs : List A) → select v (update p f rs) ≡ select v rs
  select-update v p f h [] = refl
  select-update v p f h (r ∷ rs) = ground (arith, h r, select-update v p f h rs)

  pub select-delete_self : (p : A → Bool) (rs : List A) → select p (delete p rs) ≡ []
  select-delete_self p [] = refl
  select-delete_self p (r ∷ rs) = ground (arith, select-delete_self p rs)

  pub select-delete :
      (v p : A → Bool)
      → ((r : A) → p r ≡ true → v r ≡ false)
      → (rs : List A) → select v (delete p rs) ≡ select v rs
  select-delete v p h [] = refl
  select-delete v p h (r ∷ rs) = ground (arith, h r, select-delete v p h rs)

  pub find-update_self :
      (p : A → Bool) (f : A → A)
      → ((r : A) → p r ≡ true → p (f r) ≡ true)
      → (rs : List A) {r : A} → find p rs ≡ some r
      → find p (update p f rs) ≡ some (f r)
  find-update_self p f h [] e = ground arith
  find-update_self p f h (r ∷ rs) {r = x} e = ground (arith, h r, find-update_self p f h rs {r = x})

  pub find-update_ne :
      (q p : A → Bool) (f : A → A)
      → ((r : A) → p r ≡ true → (q r ≡ false) × (q (f r) ≡ false))
      → (rs : List A) → find q (update p f rs) ≡ find q rs
  find-update_ne q p f h [] = refl
  find-update_ne q p f h (r ∷ rs) = ground (arith, h r, find-update_ne q p f h rs)

  pub any-find : (p : A → Bool) (rs : List A) {r : A} → find p rs ≡ some r → any p rs ≡ true
  any-find p [] e = ground arith
  any-find p (r ∷ rs) {r = x} e = ground (arith, any-find p rs {r = x})

  -- What a search finds after an update that keeps its test.
  pub find-update :
      (p q : A → Bool) (f : A → A)
      → ((r : A) → p (f r) ≡ p r)
      → (rs : List A)
      → find p (update q f rs)
        ≡ (elim (find p rs) [ none ↦ none | some r ↦ some (if q r then f r else r) ])
  find-update p q f h [] = refl
  find-update p q f h (r ∷ rs) = ground (arith, h r, find-update p q f h rs)
