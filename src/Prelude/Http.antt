-- ===== src/Prelude/Http.antt =====
-- What a route ends with: a response, or an `HTTPException` with its status code and detail.
use Prim.Native.Nat.{ℕ}
use Prim.Native.String.{String}
use sicurre.Prelude.Text.{Text, codes}

pub data Reply {ℓ} (A : Type ℓ) : Type ℓ where
  ok : A → Reply A
  raised : ℕ → Text → Reply A

abbrev pub reject {ℓ} : {A : Type ℓ} → ℕ → String → Reply A
reject status detail = raised status (codes detail)

infixl 5 ◌>>=◌
abbrev pub ◌>>=◌ {ℓ κ} : {A : Type ℓ} {B : Type κ} → Reply A → (A → Reply B) → Reply B
ok a >>= f = f a
raised n d >>= f = raised n d

-- The same for requests that change a state: an exception leaves the state as it was reached.
abbrev pub proceed {ℓ κ μ} :
    {A : Type ℓ} {B : Type κ} {W : Type μ} → Reply A × W → (A → W → Reply B × W) → Reply B × W
proceed (ok a, w) f = f a w
proceed (raised n d, w) f = (raised n d, w)
