-- ===== src/Prelude/Outcome.antt =====
-- Rust's `Result<A, E>`, with `?` as the bind of a `do` block.
use mathlib.Core.Path.{◌≡◌, refl}
use mathlib.Core.Option.{Option, none, some}

pub data Result {ℓ} (A E : Type ℓ) : Type ℓ where
  ok : A → Result A E
  err : E → Result A E

module _ {ℓ} {A B E : Type ℓ} where
  infixl 5 ◌>>=◌
  abbrev pub ◌>>=◌ : Result A E → (A → Result B E) → Result B E
  ok a >>= f = f a
  err e >>= f = err e

  infixl 5 ◌>>◌
  abbrev pub ◌>>◌ : Result A E → Result B E → Result B E
  m >> k = m >>= λ _. k

-- `ok_or_else`.
abbrev pub ok_or {ℓ} : {A E : Type ℓ} → E → Option A → Result A E
ok_or e none = err e
ok_or e (some a) = ok a

-- A `?` that went through.
pub bind_inverse :
    {A B E : Type 0} (r : Result A E) (f : A → Result B E) (b : B)
    → (r >>= f) ≡ ok b
    → (a : A) × (r ≡ ok a) × (f a ≡ ok b)
bind_inverse (ok a) f b h = (a, refl, h)
bind_inverse (err e) f b h = cc
