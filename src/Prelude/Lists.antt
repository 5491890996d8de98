-- ===== src/Prelude/Lists.antt =====
-- Lists measured by native numbers, predicates over them, and Boolean filters.
use Prim.Native.Nat.{ℕ, zero, suc, ◌+◌}
use mathlib.Core.Path.{◌≡◌, refl}
use mathlib.Core.Bool.{Bool, true, false}
use mathlib.Core.Option.{Option, none, some}
use mathlib.Core.List.{List, [], ◌∷◌, ◌++◌}
use native.Mathlib.Omega.{arith}

module _ {ℓ} {A : Type ℓ} where
  abbrev pub length : List A → ℕ
  length [] = 0
  length (x ∷ xs) = suc (length xs)

  pub length-append : (xs ys : List A) → length (xs ++ ys) ≡ length xs + length ys
  length-append [] ys = omega arith
  length-append (x ∷ xs) ys = omega (arith, length-append xs ys)

  -- std::vector's resize, with the value of a new element.
  abbrev pub resize : A → ℕ → List A → List A
  resize fresh zero xs = []
  resize fresh (suc n) [] = fresh ∷ resize fresh n []
  resize fresh (suc n) (x ∷ xs) = x ∷ resize fresh n xs

  pub length-resize : (fresh : A) (n : ℕ) (xs : List A) → length (resize fresh n xs) ≡ n
  length-resize fresh zero xs = refl
  length-resize fresh (suc n) [] = omega (arith, length-resize fresh n [])
  length-resize fresh (suc n) (x ∷ xs) = omega (arith, length-resize fresh n xs)

  abbrev pub is_some : Option A → Bool
  is_some none = false
  is_some (some a) = true

  abbrev pub All {κ} : (A → Type κ) → List A → Type κ
  All P [] = Unit
  All P (x ∷ xs) = P x × All P xs

  -- What `test` holds of, in order.
  abbrev pub keep : (A → Bool) → List A → List A
  keep test [] = []
  keep test (x ∷ xs) = let rest = keep test xs in elim (test x) [ true ↦ x ∷ rest | false ↦ rest ]
