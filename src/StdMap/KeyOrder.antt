-- ===== src/StdMap/KeyOrder.antt =====
-- The order of keys is transitive, irreflexive and total.
use Prim.Native.Nat.{Ordering}
use Prim.Native.String.{compare}
use Prim.Native.String as Text
use Prim.Native.String.compare
use text.Mathlib.TextPositions.{compare_refl}
use text.Mathlib.TextEquality.{path_by_compare}
use ros1_bridge.Prelude.{String, ◌≡◌, ◌≢◌, true, false, arith}
use ros1_bridge.StdMap.{key_lt}

pub key_lt_trans : (a b c : String) → key_lt a b ≡ true → key_lt b c ≡ true → key_lt a c ≡ true
key_lt_trans Text.[] Text.[] c p q = q
key_lt_trans Text.[] (Text.◌∷◌ y b) Text.[] p q = ground (arith, compare.cons-nil y b)
key_lt_trans Text.[] (Text.◌∷◌ y b) (Text.◌∷◌ z c) p q = rw (compare.nil-cons z c)
key_lt_trans (Text.◌∷◌ x a) Text.[] c p q = ground (arith, compare.cons-nil x a)
key_lt_trans (Text.◌∷◌ x a) (Text.◌∷◌ y b) Text.[] p q = ground (arith, compare.cons-nil y b)
key_lt_trans (Text.◌∷◌ x a) (Text.◌∷◌ y b) (Text.◌∷◌ z c) p q = ground (
  arith,
  compare.cons-cons x y a b,
  compare.cons-cons y z b c,
  compare.cons-cons x z a c,
  key_lt_trans a b c,
)

pub key_lt_irrefl : (a : String) → key_lt a a ≡ true → ⊥
key_lt_irrefl a h = ground (arith, compare_refl a)

reverse_order : (a b : String) → compare a b ≡ Ordering.gt → compare b a ≡ Ordering.lt
reverse_order Text.[] Text.[] h = cc
reverse_order Text.[] (Text.◌∷◌ y b) h = cc (compare.nil-cons y b)
reverse_order (Text.◌∷◌ x a) Text.[] h = compare.nil-cons x a
reverse_order (Text.◌∷◌ x a) (Text.◌∷◌ y b) h =
    ground (arith, compare.cons-cons x y a b, compare.cons-cons y x b a, reverse_order a b)

pub key_lt_total : (a b : String) → a ≢ b → key_lt a b ≡ false → key_lt b a ≡ true
key_lt_total a b differ h = ground (arith, path_by_compare a b, reverse_order a b)
