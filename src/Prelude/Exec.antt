-- ===== src/Prelude/Exec.antt =====
-- Code that changes a state and may throw. What was written before a throw stays written.
use Prim.Native.String.{String}
use mathlib.Core.Path.{◌≡◌, refl, sym, ap, ◌∙◌, subst}
use mathlib.Core.Logic.{◌⊎◌, inl, inr}
use native.Mathlib.Omega.{arith}

-- `runtime_error` is the class that the program catches. `out_of_range` is thrown by `at` of a
-- map, `undefined` marks undefined behaviour, and `other` is any other exception. `out_of_fuel` is
-- the model's own: a loop has gone on for as many rounds as it was given.
pub data Exception : Type 0 where
  runtime_error : String → Exception
  out_of_range : Exception
  undefined : Exception
  out_of_fuel : Exception
  other : String → Exception

pub data Result {ℓ} (A : Type ℓ) : Type ℓ where
  ok : A → Result A
  throw : Exception → Result A

abbrev pub Exec {ℓ κ} : Type ℓ → Type κ → Type (ℓ ⊔ κ)
Exec S A = S → Result A × S

module _ {ℓ κ} {S : Type ℓ} {A : Type κ} where
  abbrev pub pure : A → Exec S A
  pure a s = (ok a, s)

  abbrev pub raise : Exception → Exec S A
  raise e s = (throw e, s)

module _ {ℓ κ ι} {S : Type ℓ} {A : Type κ} {B : Type ι} where
  abbrev pub and_then : Result A × S → (A → Exec S B) → Result B × S
  and_then (ok a, s) f = f a s
  and_then (throw e, s) f = (throw e, s)

  infixl 5 ◌>>=◌ ◌>>◌
  abbrev pub ◌>>=◌ : Exec S A → (A → Exec S B) → Exec S B
  ◌>>=◌ m f s = and_then (m s) f

  abbrev pub ◌>>◌ : Exec S A → Exec S B → Exec S B
  m >> n = m >>= λ _. n

pub ok_value {ℓ} : {A : Type ℓ} {x y : A} → ok x ≡ ok y → x ≡ y
ok_value e = ground arith

pub Result-cases {ℓ} :
    {A : Type ℓ} (r : Result A) → ((a : A) × (r ≡ ok a)) ⊎ ((e : Exception) × (r ≡ throw e))
Result-cases (ok a) = inl (a, refl)
Result-cases (throw e) = inr (e, refl)

-- What holds of a value and a state holds of those that a run has returned.
pub returned_as {ℓ κ ι} :
    {S : Type ℓ} {A : Type κ} (P : A → S → Type ι) {a b : A} {s t : S}
    → ◌≡◌ {A = Result A × S} (ok a, s) (ok b, t)
    → P a s
    → P b t
returned_as P {a} {t} e h =
    subst (λ x. P x t) (ok_value (ap (λ r. r.0) e)) (subst (P a) (ap (λ r. r.1) e) h)

module _ {ℓ κ ι} {S : Type ℓ} {A : Type κ} {B : Type ι} where
  -- A run that returned has returned from its first part.
  pub bind_returned :
      (m : Exec S A) (f : A → Exec S B) (s : S) {b : B}
      → ((m >>= f) s).0 ≡ ok b
      → (a : A) × ((m s).0 ≡ ok a) × ((m >>= f) s ≡ f a (m s).1)
  bind_returned m f s {b} = go (m s)
    where
      go :
          (x : Result A × S)
          → (and_then x f).0 ≡ ok b
          → (a : A) × (x.0 ≡ ok a) × (and_then x f ≡ f a x.1)
      go (ok a, s') h = (a, refl, refl)
      go (throw e, s') h = cc

  -- The value of a run that returned comes from both of its parts.
  pub bind_value :
      (m : Exec S A) (f : A → Exec S B) (s : S) {b : B}
      → ((m >>= f) s).0 ≡ ok b
      → (a : A) × ((m s).0 ≡ ok a) × ((f a (m s).1).0 ≡ ok b)
  bind_value m f s h =
      let (a, e, rest) = bind_returned m f s h in (a, e, sym (ap (λ x. x.0) rest) ∙ h)

  -- A run that returned, as its two parts.
  pub bind_run :
      (m : Exec S A) (f : A → Exec S B) (s : S) {b : B} {t : S}
      → (m >>= f) s ≡ (ok b, t)
      → (a : A) × (between : S) × (m s ≡ (ok a, between)) × (f a between ≡ (ok b, t))
  bind_run m f s {b} {t} = go (m s)
    where
      go :
          (x : Result A × S)
          → and_then x f ≡ (ok b, t)
          → (a : A) × (between : S) × (x ≡ (ok a, between)) × (f a between ≡ (ok b, t))
      go (ok a, between) h = (a, between, refl, h)
      go (throw e, between) h = cc

  -- A throw in the first part ends the run.
  pub bind_thrown :
      (m : Exec S A) (f : A → Exec S B) (s : S) {e : Exception}
      → (m s).0 ≡ throw e
      → ((m >>= f) s).0 ≡ throw e
  bind_thrown m f s {e} = go (m s)
    where
      go : (x : Result A × S) → x.0 ≡ throw e → (and_then x f).0 ≡ throw e
      go (ok a, s') h = cc
      go (throw e', s') h = ground arith

  -- A property of the state that both parts keep.
  pub and_then_keeps {λ'} :
      (P : S → Type λ') (x : Result A × S) (f : A → Exec S B)
      → P x.1
      → ((a : A) → P (f a x.1).1)
      → P (and_then x f).1
  and_then_keeps P (ok a, s) f h k = k a
  and_then_keeps P (throw e, s) f h k = h

  -- A run whose parts return has returned.
  pub returned_bind :
      (m : Exec S A) (f : A → Exec S B) (s : S) {a : A} {b : B}
      → (m s).0 ≡ ok a
      → (f a (m s).1).0 ≡ ok b
      → ((m >>= f) s).0 ≡ ok b
  returned_bind m f s {a} {b} = go (m s)
    where
      go : (x : Result A × S) → x.0 ≡ ok a → (f a x.1).0 ≡ ok b → (and_then x f).0 ≡ ok b
      go (ok a', s') e h = ground arith
      go (throw ex, s') e h = cc

  -- After a first part that returned, a run is that of the rest.
  pub bind-eq_of_returned :
      (m : Exec S A) (f : A → Exec S B) (s : S) {a : A} → (m s).0 ≡ ok a → (m >>= f) s ≡ f a (m s).1
  bind-eq_of_returned m f s {a} = go (m s)
    where
      go : (x : Result A × S) → x.0 ≡ ok a → and_then x f ≡ f a x.1
      go (ok a', s') e = ground arith
      go (throw ex, s') e = cc

-- What holds of the value of a run that returned.
abbrev pub Ensures {ℓ κ} : {A : Type ℓ} → (A → Type κ) → Result A → Type κ
Ensures P (ok a) = P a
Ensures P (throw e) = Unit

module _ {ℓ κ ι} {S : Type ℓ} {A : Type κ} {B : Type ι} where
  pub Ensures-and_then {λ' μ} :
      (P : A → Type λ') (Q : B → Type μ) (x : Result A × S) (f : A → Exec S B)
      → Ensures P x.0
      → ((a : A) → P a → Ensures Q (f a x.1).0)
      → Ensures Q (and_then x f).0
  Ensures-and_then P Q (ok a, s) f h k = k a h
  Ensures-and_then P Q (throw e, s) f h k = tt

  -- As `and_then_keeps`, where the second part relies on the value of the first.
  pub and_then_uses {λ' μ} :
      (P : A → Type λ') (Q : S → Type μ) (x : Result A × S) (f : A → Exec S B)
      → Ensures P x.0
      → Q x.1
      → ((a : A) → P a → Q (f a x.1).1)
      → Q (and_then x f).1
  and_then_uses P Q (ok a, s) f h q k = k a h
  and_then_uses P Q (throw e, s) f h q k = q

pub Ensures-any {ℓ} : {A : Type ℓ} (r : Result A) → Ensures (λ _. Unit {0}) r
Ensures-any (ok a) = tt
Ensures-any (throw e) = tt
