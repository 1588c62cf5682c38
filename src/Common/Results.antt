-- ===== src/Common/Results.antt =====
-- `Result` of the source, with `?` as the bind of a `do` block.
use mathlib.Core.Path.{◌≡◌, refl}
use mathlib.Core.Logic.{◌⊎◌, inl, inr}

pub data Result {ℓ κ} (E : Type ℓ) (A : Type κ) : Type (ℓ ⊔ κ) where
  ok : A → Result E A
  err : E → Result E A

infixl 5 ◌>>=◌ ◌>>◌
abbrev pub ◌>>=◌ {ℓ κ μ} :
    {E : Type ℓ} {A : Type κ} {B : Type μ} → Result E A → (A → Result E B) → Result E B
ok a >>= f = f a
err e >>= f = err e

abbrev pub ◌>>◌ {ℓ κ} : {E : Type ℓ} {B : Type κ} → Result E (Unit {0}) → Result E B → Result E B
m >> k = m >>= λ _. k

module _ {ℓ κ μ} {E : Type ℓ} {F : Type κ} {A : Type μ} where
  -- `Result::map_err`
  abbrev pub map_err : (E → F) → Result E A → Result F A
  map_err f (ok a) = ok a
  map_err f (err e) = err (f e)

module _ {ℓ κ} {E : Type ℓ} {A : Type κ} where
  pub Result-cases : (r : Result E A) → ((a : A) × (r ≡ ok a)) ⊎ ((e : E) × (r ≡ err e))
  Result-cases (ok a) = inl (a, refl)
  Result-cases (err e) = inr (e, refl)

  -- What a successful `?` has passed on.
  pub bind-eq-ok {μ} :
      {B : Type μ} (m : Result E A) (f : A → Result E B) {b : B}
      → (m >>= f) ≡ ok b
      → (a : A) × (m ≡ ok a) × (f a ≡ ok b)
  bind-eq-ok (ok a) f h = (a, refl, h)
  bind-eq-ok (err e) f h = cc

module _ {ℓ κ μ} {E : Type ℓ} {F : Type κ} {A : Type μ} where
  pub map_err-eq-ok : (f : E → F) (r : Result E A) {a : A} → map_err f r ≡ ok a → r ≡ ok a
  map_err-eq-ok f (ok a) h = cc
  map_err-eq-ok f (err e) h = cc
