-- ===== src/Generator/Generate.antt =====
-- generate_messages: the mappings of all pairs of messages, in their order. The search for the
-- messages, the loading of their definitions and of those of nested messages are arguments.
use ros1_bridge.Prelude.{String, Option, none, some, List, [], ◌∷◌, ◌++◌}
use ros1_bridge.Prelude.Exec.{Result, ok, throw, out_of_fuel}
use ros1_bridge.Prelude.Results.{◌>>=◌}
use ros1_bridge.Generator.{Message, Ros1Field, Member, Mapping, MessageMappingRule}
use ros1_bridge.Generator.FieldMapping.{empty_mapping, determine_field_mapping}
use ros1_bridge.Generator.Order.{Ordered, order_mappings}
use ros1_bridge.Generator.MessagePairs.{
  MessagePair, first_message, determine_package_pairs, determine_message_pairs,
}

abbrev pub custom_mapping : Option Message → Option Message → List Mapping
custom_mapping (some ros1_msg) (some ros2_msg) = empty_mapping ros1_msg ros2_msg ∷ []
custom_mapping ros1_msg ros2_msg = []

-- The mappings of std_msgs and builtin_interfaces, which have a custom implementation.
unfoldable pub custom_mappings : List Message → List Message → List Mapping
custom_mappings ros1_msgs ros2_msgs =
    custom_mapping (first_message "std_msgs" (some "Duration") ros1_msgs)
      (first_message "builtin_interfaces" (some "Duration") ros2_msgs)
    ++ custom_mapping (first_message "std_msgs" (some "Time") ros1_msgs)
        (first_message "builtin_interfaces" (some "Time") ros2_msgs)

abbrev pub add_mapping : Option Mapping → List Mapping → List Mapping
add_mapping none mappings = mappings
add_mapping (some m) mappings = m ∷ mappings

abbrev pub in_order : Option Ordered → Result Ordered
in_order none = throw out_of_fuel
in_order (some ordered) = ok ordered

-- What is read from the definitions of messages.
pub record Definitions : Type 0 where
  pub lower : String → String
  pub load_ros1_message : Message → Result (Option (List Ros1Field))
  pub load_ros2_message : Message → Result (Option (List Member))
  pub nested_1 : Ros1Field → Result (List Ros1Field)
  pub nested_2 : Member → Result (List Member)

module _ (from : Definitions) where
  -- The definition for ROS 2 is loaded only where that for ROS 1 could be.
  abbrev pub map_loaded :
      List MessageMappingRule
      → Message
      → Message
      → Option (List Ros1Field)
      → Result (Option Mapping)
  map_loaded rules ros1_msg ros2_msg none = ok none
  map_loaded rules ros1_msg ros2_msg (some fields) = do
    ros2_spec ← from.load_ros2_message ros2_msg
    determine_field_mapping from.lower from.nested_1 from.nested_2 ros1_msg ros2_msg (some fields)
        ros2_spec rules

  unfoldable pub map_pair : List MessageMappingRule → MessagePair → Result (Option Mapping)
  map_pair rules (ros1_msg, ros2_msg) = do
    ros1_spec ← from.load_ros1_message ros1_msg
    map_loaded rules ros1_msg ros2_msg ros1_spec

  unfoldable pub map_pairs : List MessageMappingRule → List MessagePair → Result (List Mapping)
  map_pairs rules [] = ok []
  map_pairs rules (p ∷ pairs) = do
    mapping ← map_pair rules p
    mappings ← map_pairs rules pairs
    ok (add_mapping mapping mappings)

  unfoldable pub generate_messages :
      (ros1_names ros2_names : List String)
      → List Message
      → List Message
      → List MessageMappingRule
      → Result Ordered
  generate_messages ros1_names ros2_names ros1_msgs ros2_msgs rules = do
    mappings ← map_pairs rules (
        determine_message_pairs ros1_msgs ros2_msgs
          (determine_package_pairs ros1_names ros2_names rules) rules)
    in_order (order_mappings (custom_mappings ros1_msgs ros2_msgs ++ mappings))
