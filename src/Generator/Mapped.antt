-- ===== src/Generator/Mapped.antt =====
-- A mapping that is made for a pair of messages is for the pair's message of ROS 2.
use ros1_bridge.Prelude.{
  ◌≡◌, refl, sym, ◌∙◌, subst, String, Option, none, some, List, [], ◌∷◌, All, inl, inr, Bool-cases,
  ◌&&◌, not,
}
use ros1_bridge.Prelude.Exec.{
  Result, ok, throw, runtime_error, out_of_range, undefined, out_of_fuel, other,
}
use ros1_bridge.Prelude.Results.{Post, Post-bind}
use ros1_bridge.Generator.{
  Message, Ros1Field, Member, Mapping, MessageMappingRule, OrderedDict, add_field_pair,
  selected_fields, selections_of, field_names,
}
use ros1_bridge.Generator.FieldMapping.{
  empty_mapping, determine_field_mapping, apply_rules, add_selections, map_by_name, map_field,
  counterpart, finish, skipping, all_named, is_empty,
}
use ros1_bridge.Generator.MessagePairs.{MessagePair}
use ros1_bridge.Generator.Generate.{Definitions, map_pair, map_loaded, map_pairs, add_mapping}
use ros1_bridge.Generator.Matched.{OptionAll}

-- A mapping for a message of ROS 2, whatever is thrown.
abbrev For : Message → Result Mapping → Type 0
For m r = Post (λ mapping. mapping.ros2_msg ≡ m) (λ e. Unit) r

skipping-For :
    {A : Type 0} (m : Message) (r : Result A) (mapping : Mapping) (k : A → Result Mapping)
    → mapping.ros2_msg ≡ m
    → ((a : A) → For m (k a))
    → For m (skipping r mapping k)
skipping-For m (ok a) mapping k h f = f a
skipping-For m (throw out_of_range) mapping k h f = h
skipping-For m (throw (runtime_error t)) mapping k h f = tt
skipping-For m (throw undefined) mapping k h f = tt
skipping-For m (throw out_of_fuel) mapping k h f = tt
skipping-For m (throw (other t)) mapping k h f = tt

module _ (nested_1 : Ros1Field → Result (List Ros1Field)) (nested_2 : Member → Result (List Member))
    (m : Message) (fields : List Ros1Field) (members : List Member) where
  add_selections-For :
      (selections : OrderedDict) (mapping : Mapping)
      → mapping.ros2_msg ≡ m
      → For m (add_selections nested_1 nested_2 fields members selections mapping)
  unfolding add_selections add_field_pair
  add_selections-For [] mapping h = h
  add_selections-For ((a, b) ∷ selections) mapping h =
      Post-bind (λ n. n.ros2_msg ≡ m) (λ n. n.ros2_msg ≡ m) (λ e. Unit) _ _
        (skipping-For m (selected_fields (λ f. f.name) nested_1 a fields) mapping _ h (λ fs.
          skipping-For m (selected_fields (λ n. n.name) nested_2 b members) mapping _ h (λ ms. h)))
        (λ n. add_selections-For selections n)

  apply_rules-For :
      (rules : List MessageMappingRule) (mapping : Mapping)
      → mapping.ros2_msg ≡ m
      → For m (apply_rules nested_1 nested_2 fields members rules mapping)
  unfolding apply_rules
  apply_rules-For [] mapping h = h
  apply_rules-For (rule ∷ rules) mapping h =
      Post-bind (λ n. n.ros2_msg ≡ m) (λ n. n.ros2_msg ≡ m) (λ e. Unit) _ _
        (add_selections-For (selections_of rule mapping.ros1_msg mapping.ros2_msg) mapping h)
        (λ n. apply_rules-For rules n)

map_field_keeps_message :
    (f : String) (o : Option Member) (mapping : Mapping)
    → (map_field f o mapping).ros2_msg ≡ mapping.ros2_msg
unfolding add_field_pair
map_field_keeps_message f none mapping = refl
map_field_keeps_message f (some n) mapping = refl

map_by_name_keeps_message :
    (lower : String → String) (members : List Member) (fs : List String) (mapping : Mapping)
    (unmapped : List String)
    → (map_by_name lower members fs mapping unmapped).0.ros2_msg ≡ mapping.ros2_msg
unfolding map_by_name
map_by_name_keeps_message lower members [] mapping unmapped = refl
map_by_name_keeps_message lower members (f ∷ fs) mapping unmapped =
    map_by_name_keeps_message lower members fs (map_field f (counterpart lower f members) mapping) _
    ∙ map_field_keeps_message f (counterpart lower f members) mapping

finish-For :
    (lower : String → String) (members : List Member) (fs : List String) (m : Message)
    (looped : Mapping × List String)
    → looped.0.ros2_msg ≡ m
    → OptionAll (λ n. n.ros2_msg ≡ m) (finish lower members fs looped)
finish-For lower members fs m (mapping, unmapped) h =
    elim (Bool-cases (not (is_empty unmapped) && not (all_named lower members fs))) [
      | inl t ↦ rw t tt
      | inr f ↦ rw f h
    ]

-- A pair's mapping, if there is one, is for the pair's message of ROS 2.
abbrev ForPair : Message → Result (Option Mapping) → Type 0
ForPair m r = Post (OptionAll (λ mapping. mapping.ros2_msg ≡ m)) (λ e. Unit) r

determine_field_mapping-ForPair :
    (lower : String → String) (nested_1 : Ros1Field → Result (List Ros1Field))
    (nested_2 : Member → Result (List Member)) (a m : Message) (fields : List Ros1Field)
    (members : Option (List Member)) (rules : List MessageMappingRule)
    → ForPair m (determine_field_mapping lower nested_1 nested_2 a m (some fields) members rules)
unfolding determine_field_mapping
determine_field_mapping-ForPair lower nested_1 nested_2 a m fields none rules = tt
determine_field_mapping-ForPair lower nested_1 nested_2 a m fields (some members) rules =
    Post-bind (λ n. n.ros2_msg ≡ m) (OptionAll (λ n. n.ros2_msg ≡ m)) (λ e. Unit) _ _
      (apply_rules-For nested_1 nested_2 m fields members rules (empty_mapping a m) refl)
      (λ n h.
        finish-For lower members (field_names fields) m
          (map_by_name lower members (field_names fields) n [])
          (map_by_name_keeps_message lower members (field_names fields) n [] ∙ h))

Post-any : {A : Type 0} (r : Result A) → Post (λ a. Unit {0}) (λ e. Unit {0}) r
Post-any (ok a) = tt
Post-any (throw e) = tt

add_mapping-All :
    (P : Mapping → Type 0) (Q : Message → Type 0) (m : Message) (o : Option Mapping)
    (ms : List Mapping)
    → ((n : Mapping) → Q n.ros2_msg → P n)
    → Q m
    → OptionAll (λ n. n.ros2_msg ≡ m) o
    → All P ms
    → All P (add_mapping o ms)
add_mapping-All P Q m none ms of_message q h hs = hs
add_mapping-All P Q m (some n) ms of_message q h hs = (of_message n (subst Q (sym h) q), hs)

module _ (from : Definitions) (rules : List MessageMappingRule) where
  loaded-ForPair :
      (a m : Message) (o : Option (List Ros1Field)) → ForPair m (map_loaded from rules a m o)
  loaded-ForPair a m none = tt
  loaded-ForPair a m (some fields) =
      Post-bind (λ s. Unit) (OptionAll (λ n. n.ros2_msg ≡ m)) (λ e. Unit) (from.load_ros2_message m)
        _ (Post-any (from.load_ros2_message m))
        (λ members h.
          determine_field_mapping-ForPair from.lower from.nested_1 from.nested_2 a m fields members
            rules)

  map_pair-ForPair : (p : MessagePair) → ForPair p.1 (map_pair from rules p)
  unfolding map_pair
  map_pair-ForPair (a, m) =
      Post-bind (λ s. Unit) (OptionAll (λ n. n.ros2_msg ≡ m)) (λ e. Unit) (from.load_ros1_message a)
        _ (Post-any (from.load_ros1_message a)) (λ o h. loaded-ForPair a m o)

  pub map_pairs-All :
      (P : Mapping → Type 0) (Q : Message → Type 0)
      → ((n : Mapping) → Q n.ros2_msg → P n)
      → (pairs : List MessagePair) → All (λ p. Q p.1) pairs
      → Post (All P) (λ e. Unit) (map_pairs from rules pairs)
  unfolding map_pairs
  map_pairs-All P Q of_message [] h = tt
  map_pairs-All P Q of_message (p ∷ pairs) (h, hs) =
      Post-bind (OptionAll (λ n. n.ros2_msg ≡ p.1)) (All P) (λ e. Unit) (map_pair from rules p) _
        (map_pair-ForPair p)
        (λ o found.
          Post-bind (All P) (All P) (λ e. Unit) (map_pairs from rules pairs) _
            (map_pairs-All P Q of_message pairs hs)
            (λ ms all. add_mapping-All P Q p.1 o ms of_message h found all))
