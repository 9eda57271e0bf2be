-- ===== src/Prelude/Results.antt =====
-- The `?` of a `Result`, and what is known of a chain that succeeds.
use mathlib.Core.Path.{◌≡◌, refl}
use open_ark.Prelude.Tests.{Result, ok, err}

infixl 5 ◌>>=◌ ◌>>◌
abbrev pub ◌>>=◌ {ℓ κ ν} :
    {E : Type ν} {A : Type ℓ} {B : Type κ} → Result E A → (A → Result E B) → Result E B
ok a >>= f = f a
err e >>= f = err e

abbrev pub ◌>>◌ {ν κ} : {E : Type ν} {B : Type κ} → Result E (Unit {0}) → Result E B → Result E B
m >> rest = m >>= λ _. rest

module _ {ℓ κ ν} {E : Type ν} {A : Type ℓ} {B : Type κ} where
  pub >>=-eq-ok :
      (m : Result E A) (f : A → Result E B) (b : B)
      → (m >>= f) ≡ ok b
      → (a : A) × (m ≡ ok a) × (f a ≡ ok b)
  >>=-eq-ok (ok a) f b h = (a, refl, h)
  >>=-eq-ok (err e) f b h = cc

pub bind_assoc {ℓ κ μ ν} :
    {E : Type ν} {A : Type ℓ} {B : Type κ} {C : Type μ} (r : Result E A) (f : A → Result E B)
    (g : B → Result E C)
    → ((r >>= f) >>= g) ≡ (r >>= λ a. f a >>= g)
bind_assoc (ok a) f g = refl
bind_assoc (err e) f g = refl

-- Two chains that start alike.
pub bind_congr {ℓ κ ν} :
    {E : Type ν} {A : Type ℓ} {B : Type κ} (r : Result E A) (f g : A → Result E B)
    → ((a : A) → r ≡ ok a → f a ≡ g a)
    → (r >>= f) ≡ (r >>= g)
bind_congr (ok a) f g h = h a refl
bind_congr (err e) f g h = refl
