-- ===== src/Generator/Matched.antt =====
-- The pairs of messages are made of messages that were given.
use ros1_bridge.Prelude.{
  String, Option, none, some, List, [], ◌∷◌, ◌==◌, All, inl, inr, Bool-cases, ◌&&◌,
}
use ros1_bridge.Generator.{Message, MessageMappingRule, is_name}
use ros1_bridge.Generator.MessagePairs.{
  MessagePair, first_message, determine_message_pairs, matched_messages, match_with,
  add_message_rules, add_found, has_pair, has_names,
}
use ros1_bridge.Generator.Given.{All-append}

abbrev pub OptionAll : {A : Type 0} → (A → Type 0) → Option A → Type 0
OptionAll P none = Unit
OptionAll P (some a) = P a

-- What holds of the messages of ROS 2 holds of those in the pairs.
module _ (Q : Message → Type 0) where
  match_with-All :
      (package_pairs : List (String × String)) (m : Message) (ms : List Message)
      → All Q ms
      → All (λ p. Q p.1) (match_with package_pairs m ms)
  match_with-All package_pairs m [] h = tt
  match_with-All package_pairs m (n ∷ ms) (h, hs) =
      elim (Bool-cases (
        has_names (m.package_name, n.package_name) package_pairs
        && m.message_name == n.message_name)) [
          | inl t ↦ rw t (h, match_with-All package_pairs m ms hs)
          | inr f ↦ rw f (match_with-All package_pairs m ms hs)
        ]

  matched_messages-All :
      (package_pairs : List (String × String)) (ms ns : List Message)
      → All Q ns
      → All (λ p. Q p.1) (matched_messages package_pairs ms ns)
  unfolding matched_messages
  matched_messages-All package_pairs [] ns h = tt
  matched_messages-All package_pairs (m ∷ ms) ns h =
      All-append (λ p. Q p.1) (match_with package_pairs m ns) (matched_messages package_pairs ms ns)
        (match_with-All package_pairs m ns h) (matched_messages-All package_pairs ms ns h)

  pub first_message-OptionAll :
      (p : String) (n : Option String) (ms : List Message)
      → All Q ms
      → OptionAll Q (first_message p n ms)
  unfolding first_message
  first_message-OptionAll p n [] h = tt
  first_message-OptionAll p n (m ∷ ms) (h, hs) =
      elim (Bool-cases (p == m.package_name && is_name n m.message_name)) [
        | inl t ↦ rw t h
        | inr f ↦ rw f (first_message-OptionAll p n ms hs)
      ]

  add_found-All :
      (a b : Option Message) (pairs : List MessagePair)
      → OptionAll Q b
      → All (λ p. Q p.1) pairs
      → All (λ p. Q p.1) (add_found a b pairs)
  add_found-All (some a) (some b) pairs h hs = elim (Bool-cases (has_pair (a, b) pairs)) [
    | inl t ↦ rw t hs
    | inr f ↦ rw f (All-append (λ p. Q p.1) pairs ((a, b) ∷ []) hs (h, tt))
  ]
  add_found-All none b pairs h hs = hs
  add_found-All (some a) none pairs h hs = hs

  add_message_rules-All :
      (ms ns : List Message) (rules : List MessageMappingRule) (pairs : List MessagePair)
      → All Q ns
      → All (λ p. Q p.1) pairs
      → All (λ p. Q p.1) (add_message_rules ms ns rules pairs)
  unfolding add_message_rules
  add_message_rules-All ms ns [] pairs h hs = hs
  add_message_rules-All ms ns (rule ∷ rules) pairs h hs = add_message_rules-All ms ns rules _ h (
      add_found-All (first_message rule.ros1_package_name rule.ros1_message_name ms)
        (first_message rule.ros2_package_name rule.ros2_message_name ns) pairs
        (first_message-OptionAll rule.ros2_package_name rule.ros2_message_name ns h) hs)

  pub determine_message_pairs-All :
      (ms ns : List Message) (package_pairs : List (String × String))
      (rules : List MessageMappingRule)
      → All Q ns
      → All (λ p. Q p.1) (determine_message_pairs ms ns package_pairs rules)
  unfolding determine_message_pairs
  determine_message_pairs-All ms ns package_pairs rules h =
      add_message_rules-All ms ns rules (matched_messages package_pairs ms ns) h
        (matched_messages-All package_pairs ms ns h)
