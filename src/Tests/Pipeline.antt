-- ===== src/Tests/Pipeline.antt =====
-- The generator as a whole, applied to a message with a manual rule.
use ros1_bridge.Prelude.{has, All, true, is_some, inl, ◌≡◌, refl, some, [], ◌∷◌, string_discrete}
use ros1_bridge.Prelude.Exec.{ok}
use ros1_bridge.Generator.{
  put, add_field_pair, dependency, first_named, selected_fields, selections_of,
}
use ros1_bridge.Generator.FieldMapping.{
  add_selections, apply_rules, counterpart, map_by_name, determine_field_mapping,
}
use ros1_bridge.Generator.Order.{order_mappings, order, pick}
use ros1_bridge.Generator.MessagePairs.{
  determine_message_pairs, matched_messages, first_message, add_message_rules,
  determine_package_pairs, before_suffix,
}
use ros1_bridge.Generator.Generate.{
  Definitions, generate_messages, map_pairs, map_pair, custom_mappings,
}
use ros1_bridge.Generator.Pipeline.{AreCustomFree, generated_types_served}
use ros1_bridge.Generator.Filled.{generate_cpp}
use ros1_bridge.Generator.Served.{IsServed, mapped_types_served}
use ros1_bridge.Factory.Registry.{Generated, select, get_1to2_mapping}
use ros1_bridge.Tests.Generator.{
  size_2, size_1, box_2, both_ways, lower, ros1_spec, ros2_spec, no_nested_1, no_nested_2,
  height_to_depth,
}

abbrev generated_size : Generated
generated_size =
    generate_cpp ("builtin_interfaces" ∷ "new_msgs" ∷ []) (size_2 ∷ box_2 ∷ []) [] (both_ways ∷ [])
      []

mapping_found : get_1to2_mapping generated_size "old_msgs/Size" ≡ some "new_msgs/msg/Size"
unfolding generate_cpp get_1to2_mapping string_discrete
mapping_found = refl

size-IsServed : IsServed ("builtin_interfaces" ∷ "new_msgs" ∷ []) (size_2 ∷ box_2 ∷ []) both_ways
unfolding string_discrete
size-IsServed = inl (refl, refl, refl)

mapped_types_served_test :
    is_some (select generated_size "old_msgs/Size" "new_msgs/msg/Size") ≡ true
mapped_types_served_test =
    mapped_types_served ("builtin_interfaces" ∷ "new_msgs" ∷ []) (size_2 ∷ box_2 ∷ []) []
      (both_ways ∷ []) [] "old_msgs/Size" "new_msgs/msg/Size" (size-IsServed, tt)
      (inl mapping_found)

abbrev definitions : Definitions
definitions = record {
  lower = lower;
  load_ros1_message = λ m. ok (some ros1_spec);
  load_ros2_message = λ m. ok (some ros2_spec);
  nested_1 = no_nested_1;
  nested_2 = no_nested_2;
}

size_generated :
    generate_messages definitions
      ("old_msgs" ∷ [])
      ("new_msgs" ∷ [])
      (size_1 ∷ [])
      (size_2 ∷ box_2 ∷ [])
      (height_to_depth ∷ [])
    ≡ ok (both_ways ∷ [], [])
unfolding generate_messages map_pairs map_pair custom_mappings determine_message_pairs
    matched_messages first_message add_message_rules determine_package_pairs before_suffix
    order_mappings order pick determine_field_mapping apply_rules add_selections selections_of
    selected_fields first_named add_field_pair put map_by_name counterpart string_discrete
    dependency
size_generated = refl

no_custom_pair : AreCustomFree (
    determine_message_pairs
      (size_1 ∷ [])
      (size_2 ∷ box_2 ∷ [])
      (determine_package_pairs ("old_msgs" ∷ []) ("new_msgs" ∷ []) (height_to_depth ∷ []))
      (height_to_depth ∷ []))
unfolding determine_message_pairs matched_messages first_message add_message_rules
    determine_package_pairs before_suffix string_discrete
no_custom_pair = (refl, tt)

packages_filled_in :
    All
      (λ m. has m.package_name ("builtin_interfaces" ∷ "new_msgs" ∷ []) ≡ true)
      (size_2 ∷ box_2 ∷ [])
unfolding string_discrete
packages_filled_in = (refl, (refl, tt))

generated_types_served_example :
    is_some (select generated_size "old_msgs/Size" "new_msgs/msg/Size") ≡ true
generated_types_served_example =
    generated_types_served definitions ("old_msgs" ∷ []) ("new_msgs" ∷ [])
      ("builtin_interfaces" ∷ "new_msgs" ∷ []) (size_1 ∷ []) (size_2 ∷ box_2 ∷ []) []
      (height_to_depth ∷ []) [] (both_ways ∷ []) [] "old_msgs/Size" "new_msgs/msg/Size"
      packages_filled_in no_custom_pair size_generated (inl mapping_found)

-- Packages of one name but for the suffix, and messages of one name.
pairs_by_name :
    determine_message_pairs
      (size_1 ∷ [])
      (size_2 ∷ box_2 ∷ [])
      (determine_package_pairs
        ("old_msgs" ∷ "new_msgs" ∷ [])
        ("old_interfaces" ∷ "new_msgs" ∷ [])
        [])
      []
    ≡ []
unfolding determine_message_pairs matched_messages add_message_rules determine_package_pairs
    before_suffix string_discrete
pairs_by_name = refl

packages_by_name :
    determine_package_pairs ("old_msgs" ∷ "new_msgs" ∷ []) ("old_interfaces" ∷ "new_msgs" ∷ []) []
    ≡ ("old_msgs", "old_interfaces") ∷ ("new_msgs", "new_msgs") ∷ []
unfolding determine_package_pairs before_suffix string_discrete
packages_by_name = refl
