-- ===== src/StdMap/Order.antt =====
-- What the map's operations keep: ascending keys, so that no key stands twice.
use ros1_bridge.Prelude.{String, ◌≡◌, refl, none, [], ◌∷◌, arith, true}
use ros1_bridge.StdMap.{StdMap, find, insert, erase, key_lt, Above, IsAscending, HasUniqueKeys}
use ros1_bridge.StdMap.KeyOrder.{key_lt_trans, key_lt_irrefl, key_lt_total}

module _ {ℓ} {V : Type ℓ} where
  Above-find : (k : String) (m : StdMap V) → Above k m → IsAscending m → find k m ≡ none
  unfolding find
  Above-find k [] h a = refl
  Above-find k ((j, v) ∷ []) h a = ground (arith, key_lt_irrefl k)
  Above-find k ((j, v) ∷ (i, w) ∷ m) h a =
      ground (arith, key_lt_irrefl k, Above-find k ((i, w) ∷ m) (key_lt_trans k j i h a.0) a.1)

  pub IsAscending-HasUniqueKeys : (m : StdMap V) → IsAscending m → HasUniqueKeys m
  IsAscending-HasUniqueKeys [] a = tt
  IsAscending-HasUniqueKeys ((k, v) ∷ m) a =
      (Above-find k m a.0 a.1, IsAscending-HasUniqueKeys m a.1)

  Above-insert :
      (i k : String) (v : V) (m : StdMap V) → key_lt i k ≡ true → Above i m → Above i (insert k v m)
  unfolding insert
  Above-insert i k v [] h a = h
  Above-insert i k v ((j, w) ∷ m) h a = ground arith

  pub insert-IsAscending :
      (k : String) (v : V) (m : StdMap V) → IsAscending m → IsAscending (insert k v m)
  unfolding insert
  insert-IsAscending k v [] a = (tt, tt)
  insert-IsAscending k v ((j, w) ∷ m) a = ground (
    arith,
    key_lt_total j k,
    key_lt_total k j,
    Above-insert j k v m,
    insert-IsAscending k v m a.1,
  )

  Above-erase : (i k : String) (m : StdMap V) → Above i m → IsAscending m → Above i (erase k m)
  unfolding erase
  Above-erase i k [] h a = tt
  Above-erase i k ((j, w) ∷ []) h a = ground arith
  Above-erase i k ((j, w) ∷ (l, x) ∷ m) h a =
      ground (arith, Above-erase i k ((l, x) ∷ m) (key_lt_trans i j l h a.0) a.1)

  pub erase-IsAscending : (k : String) (m : StdMap V) → IsAscending m → IsAscending (erase k m)
  unfolding erase
  erase-IsAscending k [] a = tt
  erase-IsAscending k ((j, w) ∷ m) a =
      ground (arith, Above-erase j k m a.0 a.1, erase-IsAscending k m a.1)
