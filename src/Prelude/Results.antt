-- ===== src/Prelude/Results.antt =====
-- `Result<T, E>` of the source, with `?` as bind.
use mathlib.Core.Path.{◌≡◌, refl}
use mathlib.Core.Logic.{◌⊎◌, inl, inr}

pub data Result {ℓ κ} (A : Type ℓ) (E : Type κ) : Type (ℓ ⊔ κ) where
  ok : A → Result A E
  err : E → Result A E

infixl 5 ◌>>=◌
abbrev pub ◌>>=◌ {ℓ κ μ} :
    {A : Type ℓ} {B : Type κ} {E : Type μ} → Result A E → (A → Result B E) → Result B E
ok a >>= f = f a
err e >>= f = err e

pub Result-cases {ℓ κ} :
    {A : Type ℓ} {E : Type κ} (r : Result A E) → ((a : A) × (r ≡ ok a)) ⊎ ((e : E) × (r ≡ err e))
Result-cases (ok a) = inl (a, refl)
Result-cases (err e) = inr (e, refl)

-- What is known when a chain of `?` ends well, or with an error.
module _ {ℓ κ μ} {A : Type ℓ} {B : Type κ} {E : Type μ} where
  pub >>=_ok :
      (m : Result A E) (f : A → Result B E) {b : B}
      → m >>= f ≡ ok b
      → (a : A) × (m ≡ ok a) × (f a ≡ ok b)
  >>=_ok (ok a) f h = (a, refl, h)
  >>=_ok (err e) f h = cc

  pub >>=_err :
      (m : Result A E) (f : A → Result B E) {e : E}
      → m >>= f ≡ err e
      → (m ≡ err e) ⊎ ((a : A) × (m ≡ ok a) × (f a ≡ err e))
  >>=_err (ok a) f h = inr (a, refl, h)
  >>=_err (err x) f h = inl cc

pub ok-ok {ℓ κ} : {A : Type ℓ} {E : Type κ} {a b : A} → ◌≡◌ {A = Result A E} (ok a) (ok b) → a ≡ b
ok-ok h = cc
