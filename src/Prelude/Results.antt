-- ===== src/Prelude/Results.antt =====
-- `Result<A, E>`.
use mathlib.Core.Path.{◌≡◌, refl}
use mathlib.Core.Logic.{◌⊎◌, inl, inr}

pub data Result {ℓ κ} (E : Type ℓ) (A : Type κ) : Type (ℓ ⊔ κ) where
  ok : A → Result E A
  err : E → Result E A

-- `e?; …`
infixl 5 ◌>>=◌
abbrev pub ◌>>=◌ {ℓ κ μ} :
    {E : Type ℓ} {A : Type κ} {B : Type μ} → Result E A → (A → Result E B) → Result E B
ok a >>= f = f a
err e >>= f = err e

module _ {ℓ κ} {E : Type ℓ} {A : Type κ} where
  pub ok-injective : {a b : A} → ◌≡◌ {A = Result E A} (ok a) (ok b) → a ≡ b
  ok-injective h = cc

  pub err-injective : {a b : E} → ◌≡◌ {A = Result E A} (err a) (err b) → a ≡ b
  err-injective h = cc

  pub Result-cases : (r : Result E A) → ((a : A) × (r ≡ ok a)) ⊎ ((e : E) × (r ≡ err e))
  Result-cases (ok a) = inl (a, refl)
  Result-cases (err e) = inr (e, refl)

-- A chain that succeeds is of steps that do.
pub bind-ok :
    {E A B : Type 0} (m : Result E A) (f : A → Result E B) (b : B)
    → (m >>= f) ≡ ok b
    → (a : A) × (m ≡ ok a) × (f a ≡ ok b)
bind-ok (ok a) f b h = (a, refl, h)
bind-ok (err x) f b h = cc

-- What two steps that succeed make.
pub bind-bind-ok :
    {E A B C : Type 0} (m : Result E A) (n : Result E B) (f : A → B → C) (c : C)
    → (m >>= λ a. n >>= λ b. ok (f a b)) ≡ ok c
    → (a : A) × (b : B) × (f a b ≡ c)
bind-bind-ok (ok a) (ok b) f c h = (a, b, ok-injective h)
bind-bind-ok (ok a) (err x) f c h = cc
bind-bind-ok (err x) n f c h = cc
