-- ===== src/Prelude/Results.antt =====
-- Code that may throw and changes no state: do blocks over `Result`, and what holds of one.
use mathlib.Core.Path.{◌≡◌, refl}
use ros1_bridge.Prelude.Exec.{Exception, Result, ok, throw}

module _ {ℓ κ} {A : Type ℓ} {B : Type κ} where
  infixl 5 ◌>>=◌
  abbrev pub ◌>>=◌ : Result A → (A → Result B) → Result B
  ok a >>= f = f a
  throw e >>= f = throw e

  pub Result-bind_ok :
      (r : Result A) (f : A → Result B) {b : B}
      → (r >>= f) ≡ ok b
      → (a : A) × (r ≡ ok a) × (f a ≡ ok b)
  Result-bind_ok (ok a) f h = (a, refl, h)
  Result-bind_ok (throw e) f h = cc

-- `P` holds of the value, `E` of the exception.
abbrev pub Post {ℓ κ} : {A : Type ℓ} → (A → Type κ) → (Exception → Type κ) → Result A → Type κ
Post P E (ok a) = P a
Post P E (throw e) = E e

module _ {ℓ κ ι} {A : Type ℓ} {B : Type κ} where
  pub Post-bind :
      (P : A → Type ι) (Q : B → Type ι) (E : Exception → Type ι) (r : Result A) (f : A → Result B)
      → Post P E r
      → ((a : A) → P a → Post Q E (f a))
      → Post Q E (r >>= f)
  Post-bind P Q E (ok a) f h k = k a h
  Post-bind P Q E (throw e) f h k = h
