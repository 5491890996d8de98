-- ===== src/Generator/MessagePairs.antt =====
-- determine_package_pairs, determine_message_pairs and generate_messages: which messages are mapped
-- at all. The sets of package names come as lists, in whichever order they are gone through.
use Prim.Native.String as Chars
use mathlib.Core.Option
use ros1_bridge.Prelude.{
  Bool, false, not, ◌&&◌, ◌||◌, String, Option, none, some, List, [], ◌∷◌, ◌++◌, ◌==◌, has,
  if◌then◌else◌,
}
use ros1_bridge.Generator.{Message, MessageMappingRule, is_name, ◌==ₘ◌}

-- What stands before the suffix, where the text ends with it.
unfoldable pub before_suffix : String → String → Option String
before_suffix suffix Chars.[] = if "" == suffix then some "" else none
before_suffix suffix (Chars.◌∷◌ c s) =
    let rest = before_suffix suffix s in
    if Chars.◌∷◌ c s == suffix then some "" else Option.map (Chars.◌∷◌ c) rest

abbrev or_else : Option String → Option String → Option String
or_else (some s) other = some s
or_else none other = other

abbrev ros1_basename : String → Option String
ros1_basename name = before_suffix "_msgs" name

abbrev ros2_basename : String → Option String
ros2_basename name = or_else (before_suffix "_msgs" name) (before_suffix "_interfaces" name)

abbrev same_basename : Option String → Option String → Bool
same_basename (some a) (some b) = a == b
same_basename a b = false

abbrev pub has_names : String × String → List (String × String) → Bool
has_names (a, b) [] = false
has_names (a, b) ((c, d) ∷ pairs) = (c == a && d == b) || has_names (a, b) pairs

abbrev pair_with : String → List String → List (String × String)
pair_with ros1_name [] = []
pair_with ros1_name (ros2_name ∷ names) =
    let rest = pair_with ros1_name names in
    if same_basename (ros1_basename ros1_name) (ros2_basename ros2_name)
    then (ros1_name, ros2_name) ∷ rest
    else rest

abbrev paired_packages : List String → List String → List (String × String)
paired_packages [] ros2_names = []
paired_packages (ros1_name ∷ names) ros2_names =
    pair_with ros1_name ros2_names ++ paired_packages names ros2_names

abbrev add_package_rules :
    List String
    → List String
    → List MessageMappingRule
    → List (String × String)
    → List (String × String)
add_package_rules ros1_names ros2_names [] pairs = pairs
add_package_rules ros1_names ros2_names (rule ∷ rules) pairs =
    add_package_rules ros1_names ros2_names rules (
      if rule.package_mapping
        && has rule.ros1_package_name ros1_names
        && has rule.ros2_package_name ros2_names
        && not (has_names (rule.ros1_package_name, rule.ros2_package_name) pairs)
      then pairs ++ ((rule.ros1_package_name, rule.ros2_package_name) ∷ [])
      else pairs)

unfoldable pub determine_package_pairs :
    List String → List String → List MessageMappingRule → List (String × String)
determine_package_pairs ros1_names ros2_names rules =
    add_package_rules ros1_names ros2_names rules (paired_packages ros1_names ros2_names)

abbrev pub MessagePair : Type 0
MessagePair = Message × Message

abbrev pub match_with : List (String × String) → Message → List Message → List MessagePair
match_with package_pairs ros1_msg [] = []
match_with package_pairs ros1_msg (ros2_msg ∷ msgs) =
    let rest = match_with package_pairs ros1_msg msgs in
    if has_names (ros1_msg.package_name, ros2_msg.package_name) package_pairs
      && ros1_msg.message_name == ros2_msg.message_name
    then (ros1_msg, ros2_msg) ∷ rest
    else rest

unfoldable pub matched_messages :
    List (String × String) → List Message → List Message → List MessagePair
matched_messages package_pairs [] ros2_msgs = []
matched_messages package_pairs (ros1_msg ∷ msgs) ros2_msgs =
    match_with package_pairs ros1_msg ros2_msgs ++ matched_messages package_pairs msgs ros2_msgs

-- The first message of these names, where the rule has one.
unfoldable pub first_message : String → Option String → List Message → Option Message
first_message package_name message_name [] = none
first_message package_name message_name (m ∷ ms) =
    let rest = first_message package_name message_name ms in
    if package_name == m.package_name && is_name message_name m.message_name then some m else rest

abbrev pub has_pair : MessagePair → List MessagePair → Bool
has_pair (a, b) [] = false
has_pair (a, b) ((c, d) ∷ pairs) = (c ==ₘ a && d ==ₘ b) || has_pair (a, b) pairs

abbrev pub add_found : Option Message → Option Message → List MessagePair → List MessagePair
add_found (some a) (some b) pairs = if has_pair (a, b) pairs then pairs else pairs ++ ((a, b) ∷ [])
add_found a b pairs = pairs

unfoldable pub add_message_rules :
    List Message → List Message → List MessageMappingRule → List MessagePair → List MessagePair
add_message_rules ros1_msgs ros2_msgs [] pairs = pairs
add_message_rules ros1_msgs ros2_msgs (rule ∷ rules) pairs =
    add_message_rules ros1_msgs ros2_msgs rules (
      add_found (first_message rule.ros1_package_name rule.ros1_message_name ros1_msgs)
        (first_message rule.ros2_package_name rule.ros2_message_name ros2_msgs) pairs)

unfoldable pub determine_message_pairs :
    List Message
    → List Message
    → List (String × String)
    → List MessageMappingRule
    → List MessagePair
determine_message_pairs ros1_msgs ros2_msgs package_pairs rules =
    add_message_rules ros1_msgs ros2_msgs rules (matched_messages package_pairs ros1_msgs ros2_msgs)
