-- ===== src/Generator/Pipeline.antt =====
-- generate_messages and generate_cpp together.
use ros1_bridge.Prelude.{
  ◌≡◌, refl, ap, subst, Bool, true, false, String, Option, none, some, List, [], ◌∷◌, ◌++◌, ◌==◌,
  All, has, is_some, ◌⊎◌, inl, inr, Bool-cases, arith, ==_refl, length, ◌||◌, ◌&&◌,
}
use ros1_bridge.Prelude.Exec.{ok, ok_value}
use ros1_bridge.Prelude.Results.{Post, Result-bind_ok}
use ros1_bridge.Factory.Registry.{
  builtin_mappings, ServiceMapping, select, get_1to2_mapping, get_2to1_mapping,
}
use ros1_bridge.Generator.{Message, Mapping, MessageMappingRule, has_message, ◌==ₘ◌}
use ros1_bridge.Generator.Order.{Ordered, order_mappings}
use ros1_bridge.Generator.MessagePairs.{
  MessagePair, first_message, determine_package_pairs, determine_message_pairs,
}
use ros1_bridge.Generator.Generate.{
  Definitions, map_pairs, custom_mapping, custom_mappings, in_order, generate_messages,
}
use ros1_bridge.Generator.Matched.{OptionAll, determine_message_pairs-All}
use ros1_bridge.Generator.Mapped.{map_pairs-All}
use ros1_bridge.Generator.Given.{All-append, OrderedAll, order-OrderedAll}
use ros1_bridge.Generator.Filled.{names_of, generate_cpp}
use ros1_bridge.Generator.Among.{Among}
use ros1_bridge.Generator.Served.{IsServed, mapped_types_served}

-- The two custom mappings have the names that get_factory_builtin_interfaces tests.
custom-Among :
    (name : String) (a b : Option Message)
    → OptionAll (λ m. (m.package_name ≡ "std_msgs") × (m.message_name ≡ name)) a
    → OptionAll (λ m. (m.package_name ≡ "builtin_interfaces") × (m.message_name ≡ name)) b
    → Among
        (record {
          ros1_package = "std_msgs";
          ros1_message = name;
          ros2_package = "builtin_interfaces";
          ros2_message = name;
        })
        builtin_mappings
    → All (λ n. Among (names_of n) builtin_mappings) (custom_mapping a b)
custom-Among name none b h k there = tt
custom-Among name (some a) none h k there = tt
custom-Among name (some a) (some b) h k there = (rw (h.0, h.1, k.0, k.1) there, tt)

first_message-names :
    (p n : String) (ms : List Message)
    → OptionAll (λ m. (m.package_name ≡ p) × (m.message_name ≡ n)) (first_message p (some n) ms)
unfolding first_message
first_message-names p n [] = tt
first_message-names p n (m ∷ ms) = elim (Bool-cases (p == m.package_name && n == m.message_name)) [
  | inl t ↦ rw t (ground (arith, t), ground (arith, t))
  | inr f ↦ rw f (first_message-names p n ms)
]

All-imp :
    {A : Type 0} (P Q : A → Type 0) → ((a : A) → P a → Q a) → (xs : List A) → All P xs → All Q xs
All-imp P Q f [] h = tt
All-imp P Q f (x ∷ xs) (h, hs) = (f x h, All-imp P Q f xs hs)

All-both :
    {A : Type 0} (P Q : A → Type 0) (xs : List A) → All P xs → All Q xs → All (λ a. P a × Q a) xs
All-both P Q [] h k = tt
All-both P Q (x ∷ xs) (h, hs) (k, ks) = ((h, k), All-both P Q xs hs ks)

or_true : (b : Bool) → (b || true) ≡ true
or_true b = ground arith

==ₘ_refl : (m : Message) → (m ==ₘ m) ≡ true
==ₘ_refl m = rw (==_refl m.package_name, ==_refl m.message_name) refl

given_themselves : (ms : List Message) → All (λ m. has_message m ms ≡ true) ms
given_themselves [] = tt
given_themselves (m ∷ ms) = (
  rw (==ₘ_refl m) refl,
  All-imp (λ n. has_message n ms ≡ true) (λ n. has_message n (m ∷ ms) ≡ true)
      (λ n h. rw h (or_true (m ==ₘ n))) ms (given_themselves ms),
)

custom_mappings-All :
    (ms ns : List Message) → All (λ n. Among (names_of n) builtin_mappings) (custom_mappings ms ns)
unfolding custom_mappings
custom_mappings-All ms ns =
    All-append (λ n. Among (names_of n) builtin_mappings) _ _
      (custom-Among "Duration" _ _ (first_message-names "std_msgs" "Duration" ms)
        (first_message-names "builtin_interfaces" "Duration" ns) (inl refl))
      (custom-Among "Time" _ _ (first_message-names "std_msgs" "Time" ms)
        (first_message-names "builtin_interfaces" "Time" ns) (inr (inl refl)))

in_order-All :
    (P : Mapping → Type 0) (o : Option Ordered) (ordered left : List Mapping)
    → OrderedAll P o
    → in_order o ≡ ok (ordered, left)
    → All P ordered
in_order-All P none ordered left h e = cc
in_order-All P (some (o, l)) ordered left h e = subst (All P) (ap (λ x. x.0) (ok_value e)) h

-- No pair is for a message of builtin_interfaces.
abbrev pub AreCustomFree : List MessagePair → Type 0
AreCustomFree pairs = All (λ p. (p.1.package_name == "builtin_interfaces") ≡ false) pairs

generate_messages-IsServed :
    (from : Definitions) (ros1_names ros2_names package_names : List String)
    (ros1_msgs ros2_msgs : List Message) (rules : List MessageMappingRule)
    (ordered left : List Mapping)
    → All (λ m. has m.package_name package_names ≡ true) ros2_msgs
    → AreCustomFree (
        determine_message_pairs ros1_msgs ros2_msgs
          (determine_package_pairs ros1_names ros2_names rules)
          rules)
    → generate_messages from ros1_names ros2_names ros1_msgs ros2_msgs rules ≡ ok (ordered, left)
    → All (IsServed package_names ros2_msgs) ordered
unfolding generate_messages order_mappings
generate_messages-IsServed from ros1_names ros2_names package_names ros1_msgs ros2_msgs rules
      ordered left named free returned =
    let pairs : List MessagePair =
      determine_message_pairs ros1_msgs ros2_msgs
        (determine_package_pairs ros1_names ros2_names rules) rules in
    let Named : Message → Type 0 =
      λ m. (has m.package_name package_names ≡ true) × (has_message m ros2_msgs ≡ true) in
    let pairs_named : All (λ p. Named p.1) pairs =
      determine_message_pairs-All Named ros1_msgs ros2_msgs
        (determine_package_pairs ros1_names ros2_names rules) rules
        (All-both (λ m. has m.package_name package_names ≡ true)
          (λ m. has_message m ros2_msgs ≡ true) ros2_msgs named (given_themselves ros2_msgs)) in
    let mapped =
      map_pairs-All from rules (IsServed package_names ros2_msgs)
        (λ m. Named m × ((m.package_name == "builtin_interfaces") ≡ false))
        (λ n h. inl (h.0.0, h.1, h.0.1)) pairs
        (All-both (λ p. Named p.1) (λ p. (p.1.package_name == "builtin_interfaces") ≡ false) pairs
          pairs_named free) in
    let (mappings, all_mapped, rest) = Result-bind_ok (map_pairs from rules pairs) _ returned in
    let all : List Mapping = custom_mappings ros1_msgs ros2_msgs ++ mappings in
    let served : All (IsServed package_names ros2_msgs) all =
      All-append (IsServed package_names ros2_msgs) (custom_mappings ros1_msgs ros2_msgs) mappings
        (All-imp (λ n. Among (names_of n) builtin_mappings) (IsServed package_names ros2_msgs)
          (λ n h. inr h) (custom_mappings ros1_msgs ros2_msgs)
          (custom_mappings-All ros1_msgs ros2_msgs))
        (subst (Post (All (IsServed package_names ros2_msgs)) (λ e. Unit)) all_mapped mapped) in
    in_order-All (IsServed package_names ros2_msgs) (order_mappings all) ordered left
      (order-OrderedAll (IsServed package_names ros2_msgs) (λ r m h. h) (length all) [] all tt
        served)
      rest

-- Where the templates are filled in for every package that has a message of ROS 2, and no pair of
-- messages that is made by name or by a rule is for one of builtin_interfaces: after the generator
-- has made its mappings, for each pair of type names that the generated lookup of mappings gives,
-- in either direction, the generated lookup of factories finds one.
pub generated_types_served :
    (from : Definitions) (ros1_names ros2_names package_names : List String)
    (ros1_msgs ros2_msgs ros2_srvs : List Message) (rules : List MessageMappingRule)
    (services : List ServiceMapping) (ordered left : List Mapping) (r1 r2 : String)
    → All (λ m. has m.package_name package_names ≡ true) ros2_msgs
    → AreCustomFree (
        determine_message_pairs ros1_msgs ros2_msgs
          (determine_package_pairs ros1_names ros2_names rules)
          rules)
    → generate_messages from ros1_names ros2_names ros1_msgs ros2_msgs rules ≡ ok (ordered, left)
    → (get_1to2_mapping (generate_cpp package_names ros2_msgs ros2_srvs ordered services) r1
        ≡ some r2)
      ⊎ (get_2to1_mapping (generate_cpp package_names ros2_msgs ros2_srvs ordered services) r2
          ≡ some r1)
    → is_some (select (generate_cpp package_names ros2_msgs ros2_srvs ordered services) r1 r2)
      ≡ true
generated_types_served from ros1_names ros2_names package_names ros1_msgs ros2_msgs ros2_srvs rules
      services ordered left r1 r2 named free returned found =
    mapped_types_served package_names ros2_msgs ros2_srvs ordered services r1 r2
      (generate_messages-IsServed from ros1_names ros2_names package_names ros1_msgs ros2_msgs rules
        ordered left named free returned)
      found
