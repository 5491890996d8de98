-- ===== src/StdMap/Laws.antt =====
-- Laws of the map's operations, which hold for any list of entries.
use ros1_bridge.Prelude.{String, ◌≡◌, refl, none, some, [], ◌∷◌, arith, ◌==◌, if◌then◌else◌}
use ros1_bridge.StdMap.{StdMap, find, insert, erase}

module _ {ℓ} {V : Type ℓ} where
  pub find-insert :
      (j k : String) (v : V) (m : StdMap V)
      → find j (insert k v m) ≡ (if k == j then some v else find j m)
  unfolding find insert
  find-insert j k v [] = refl
  find-insert j k v ((i, w) ∷ m) = ground (arith, find-insert j k v m)

  pub find-erase :
      (j k : String) (m : StdMap V) → find j (erase k m) ≡ (if k == j then none else find j m)
  unfolding find erase
  find-erase j k [] = ground arith
  find-erase j k ((i, w) ∷ m) = ground (arith, find-erase j k m)
