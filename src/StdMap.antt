-- ===== src/StdMap.antt =====
-- std::map<std::string, V> as the list of its entries in iteration order, which is the order of
-- the keys; std::set<std::string> is a map to the unit type.
pub mod Laws
mod KeyOrder
pub mod Order
use ros1_bridge.Prelude.{
  ◌≡◌, true, String, Bool, Option, none, some, List, [], ◌∷◌, is_some, ◌==◌, if◌then◌else◌,
}
use Prim.Native.String.{compare}
use text.Mathlib.Text.{is_lt}

abbrev pub StdMap {ℓ} : Type ℓ → Type ℓ
StdMap V = List (String × V)

-- The comparison of keys, byte by byte.
abbrev pub key_lt : String → String → Bool
key_lt j k = is_lt (compare j k)

module _ {ℓ} {V : Type ℓ} where
  -- m.find(k)
  unfoldable pub find : String → StdMap V → Option V
  find k [] = none
  find k ((j, v) ∷ m) = if j == k then some v else find k m

  -- m.find(k) != m.end()
  abbrev pub contains : String → StdMap V → Bool
  contains k m = is_some (find k m)

  -- m[k] = v
  unfoldable pub insert : String → V → StdMap V → StdMap V
  insert k v [] = (k, v) ∷ []
  insert k v ((j, w) ∷ m) =
      if j == k
      then (k, v) ∷ m
      else if key_lt k j
      then (k, v) ∷ (j, w) ∷ m
      else (j, w) ∷ insert k v m

  -- m.erase(k)
  unfoldable pub erase : String → StdMap V → StdMap V
  erase k [] = []
  erase k ((j, w) ∷ m) = let rest = erase k m in if j == k then rest else (j, w) ∷ rest

  abbrev pub keys : StdMap V → List String
  keys [] = []
  keys ((k, v) ∷ m) = k ∷ keys m

  -- Each key stands before the keys that are greater.
  abbrev pub Above : String → StdMap V → Type 0
  Above k [] = Unit {0}
  Above k ((j, v) ∷ m) = key_lt k j ≡ true

  abbrev pub IsAscending : StdMap V → Type 0
  IsAscending [] = Unit {0}
  IsAscending ((k, v) ∷ m) = Above k m × IsAscending m

  -- No key stands twice.
  abbrev pub HasUniqueKeys : StdMap V → Type ℓ
  HasUniqueKeys [] = Unit
  HasUniqueKeys ((k, v) ∷ m) = (find k m ≡ none) × HasUniqueKeys m
