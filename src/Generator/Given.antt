-- ===== src/Generator/Given.antt =====
-- What holds of the mappings that are given holds of the ordered ones, where it does not depend on
-- the dependencies.
use ros1_bridge.Prelude.{Option, none, some, List, [], ◌∷◌, ◌++◌, All, map, ℕ, zero, suc}
use ros1_bridge.Generator.{Message, Mapping}
use ros1_bridge.Generator.Order.{Ordered, order, pick, satisfy, go_on, pick_or, skip}

module _ {A : Type 0} (P : A → Type 0) where
  pub All-append : (xs ys : List A) → All P xs → All P ys → All P (xs ++ ys)
  All-append [] ys h k = k
  All-append (x ∷ xs) ys (h, hs) k = (h, All-append xs ys hs k)

abbrev pub OrderedAll : (Mapping → Type 0) → Option Ordered → Type 0
OrderedAll P none = Unit
OrderedAll P (some (ordered, left)) = All P ordered

module _ (P : Mapping → Type 0) (kept : (r : Message) (m : Mapping) → P m → P (satisfy r m)) where
  abbrev PickedAll : Option (Mapping × List Mapping) → Type 0
  PickedAll none = Unit
  PickedAll (some (m, rest)) = P m × All P rest

  skip-PickedAll :
      (m : Mapping) (o : Option (Mapping × List Mapping)) → P m → PickedAll o → PickedAll (skip m o)
  skip-PickedAll m none h k = tt
  skip-PickedAll m (some (p, rest)) h k = (k.0, (h, k.1))

  pick_or-PickedAll :
      (ds : List Message) (m : Mapping) (ms : List Mapping) (o : Option (Mapping × List Mapping))
      → P m
      → All P ms
      → PickedAll o
      → PickedAll (pick_or ds m ms o)
  pick_or-PickedAll [] m ms o h hs k = (h, hs)
  pick_or-PickedAll (d ∷ ds) m ms o h hs k = skip-PickedAll m o h k

  pick-PickedAll : (ms : List Mapping) → All P ms → PickedAll (pick ms)
  unfolding pick
  pick-PickedAll [] h = tt
  pick-PickedAll (m ∷ ms) (h, hs) =
      pick_or-PickedAll m.depends_on_ros2_messages m ms (pick ms) h hs (pick-PickedAll ms hs)

  satisfied-All : (r : Message) (ms : List Mapping) → All P ms → All P (map (satisfy r) ms)
  satisfied-All r [] h = tt
  satisfied-All r (m ∷ ms) (h, hs) = (kept r m h, satisfied-All r ms hs)

  go_on-OrderedAll :
      (loop : List Mapping → List Mapping → Option Ordered) (ordered ms : List Mapping)
      (o : Option (Mapping × List Mapping))
      → ((xs ys : List Mapping) → All P xs → All P ys → OrderedAll P (loop xs ys))
      → All P ordered
      → PickedAll o
      → OrderedAll P (go_on loop ordered ms o)
  go_on-OrderedAll loop ordered ms none rec h k = h
  go_on-OrderedAll loop ordered ms (some (m, rest)) rec h k =
      rec (ordered ++ (m ∷ [])) (map (satisfy m.ros2_msg) rest)
        (All-append P ordered (m ∷ []) h (k.0, tt)) (satisfied-All m.ros2_msg rest k.1)

  pub order-OrderedAll :
      (n : ℕ) (ordered ms : List Mapping)
      → All P ordered
      → All P ms
      → OrderedAll P (order n ordered ms)
  unfolding order
  order-OrderedAll zero ordered [] h hs = h
  order-OrderedAll (suc n) ordered [] h hs = h
  order-OrderedAll zero ordered (m ∷ ms) h hs = tt
  order-OrderedAll (suc n) ordered (m ∷ ms) h hs =
      go_on-OrderedAll (order n) ordered (m ∷ ms) (pick (m ∷ ms)) (order-OrderedAll n) h
        (pick-PickedAll (m ∷ ms) hs)
