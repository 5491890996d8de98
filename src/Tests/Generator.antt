-- ===== src/Tests/Generator.antt =====
-- Messages of a few fields, on which the generator's theorems are applied.
use ros1_bridge.Prelude.{
  ◌≡◌, refl, String, some, List, [], ◌∷◌, ◌==◌, if◌then◌else◌, string_discrete, false,
}
use ros1_bridge.Prelude.Exec.{Result, ok}
use ros1_bridge.Generator.{
  Message, Ros1Field, Member, other_type, Mapping, MessageMappingRule, put, lookup, add_field_pair,
  dependency, first_named, selected_fields, selections_of, field_names,
}
use ros1_bridge.Generator.FieldMapping.{
  empty_mapping, add_selections, apply_rules, counterpart, map_by_name, determine_field_mapping,
}
use ros1_bridge.Generator.Order.{order_mappings, order, pick}
use ros1_bridge.Generator.Sorted.{IsSplit, order_mappings-IsSplit}
use ros1_bridge.Generator.Described.{is_there}
use ros1_bridge.Generator.Outcome.{
  Associates, determine_field_mapping-by_name, determine_field_mapping-Associates,
}

abbrev pub lower : String → String
lower s = if s == "Width" then "width" else s

abbrev pub no_nested_1 : Ros1Field → Result (List Ros1Field)
no_nested_1 field = ok []

abbrev pub no_nested_2 : Member → Result (List Member)
no_nested_2 member = ok []

abbrev field : String → Ros1Field
field name = record { name = name; base_type = "uint8" }

abbrev plain : String → Member
plain name = record { name = name; type = other_type }

abbrev pub size_1 : Message
size_1 = record { package_name = "old_msgs"; message_name = "Size" }

abbrev pub size_2 : Message
size_2 = record { package_name = "new_msgs"; message_name = "Size" }

abbrev pub ros1_spec : List Ros1Field
ros1_spec = field "Width" ∷ field "height" ∷ []

abbrev pub ros2_spec : List Member
ros2_spec = plain "height" ∷ plain "width" ∷ plain "depth" ∷ []

determine_field_mapping-Associates_example : Associates lower ros2_spec (field_names ros1_spec) (
    determine_field_mapping lower no_nested_1 no_nested_2 size_1 size_2
      (some ros1_spec)
      (some ros2_spec)
      [])
unfolding string_discrete
determine_field_mapping-Associates_example =
    determine_field_mapping-Associates no_nested_1 no_nested_2 ros1_spec ros2_spec lower size_1
      size_2 [] tt (refl, (refl, tt))

-- A rule that maps the height to the depth.
abbrev pub height_to_depth : MessageMappingRule
height_to_depth = record {
  ros1_package_name = "old_msgs";
  ros2_package_name = "new_msgs";
  package_mapping = false;
  ros1_message_name = some "Size";
  ros2_message_name = some "Size";
  fields_1_to_2 = some (("height" ∷ [], "depth" ∷ []) ∷ []);
}

abbrev ruled : Mapping
ruled = record {
  ros1_msg = size_1;
  ros2_msg = size_2;
  fields_1_to_2 = ("height" ∷ [], "depth" ∷ []) ∷ [];
  fields_2_to_1 = ("depth" ∷ [], "height" ∷ []) ∷ [];
  depends_on_ros2_messages = [];
  ros1_field_missing_in_ros2 = false;
}

-- The height goes to the height all the same, and comes back from the depth and from the height.
abbrev pub both_ways : Mapping
both_ways = record {
  ros1_msg = size_1;
  ros2_msg = size_2;
  fields_1_to_2 = ("height" ∷ [], "height" ∷ []) ∷ ("Width" ∷ [], "width" ∷ []) ∷ [];
  fields_2_to_1 =
      ("depth" ∷ [], "height" ∷ [])
      ∷ ("width" ∷ [], "Width" ∷ [])
      ∷ ("height" ∷ [], "height" ∷ [])
      ∷ [];
  depends_on_ros2_messages = [];
  ros1_field_missing_in_ros2 = false;
}

rule_applied :
    apply_rules no_nested_1 no_nested_2 ros1_spec ros2_spec
      (height_to_depth ∷ [])
      (empty_mapping size_1 size_2)
    ≡ ok ruled
unfolding apply_rules add_selections selections_of selected_fields first_named add_field_pair put
    string_discrete dependency
rule_applied = refl

mapping_made :
    determine_field_mapping lower no_nested_1 no_nested_2 size_1 size_2
      (some ros1_spec)
      (some ros2_spec)
      (height_to_depth ∷ [])
    ≡ ok (some both_ways)
unfolding determine_field_mapping apply_rules add_selections selections_of selected_fields
    first_named add_field_pair put map_by_name counterpart string_discrete dependency
mapping_made = refl

determine_field_mapping-by_name_example : lookup ("height" ∷ []) both_ways.fields_1_to_2 ≡ (
    if is_there lower ros2_spec "height"
    then some ("height" ∷ [])
    else lookup ("height" ∷ []) ruled.fields_1_to_2)
unfolding string_discrete
determine_field_mapping-by_name_example =
    determine_field_mapping-by_name no_nested_1 no_nested_2 ros1_spec ros2_spec lower size_1 size_2
      (height_to_depth ∷ []) ruled both_ways "height" rule_applied mapping_made refl

abbrev pub box_2 : Message
box_2 = record { package_name = "new_msgs"; message_name = "Box" }

abbrev lid_2 : Message
lid_2 = record { package_name = "new_msgs"; message_name = "Lid" }

abbrev depends : Message → List Message → Mapping
depends ros2_msg ds = record {
  ros1_msg = ros2_msg;
  ros2_msg = ros2_msg;
  fields_1_to_2 = [];
  fields_2_to_1 = [];
  depends_on_ros2_messages = ds;
  ros1_field_missing_in_ros2 = false;
}

-- The box has a size; there is no mapping for the lid.
abbrev three_mappings : List Mapping
three_mappings = depends box_2 (size_2 ∷ []) ∷ depends size_1 (lid_2 ∷ []) ∷ depends size_2 [] ∷ []

three_ordered :
    order_mappings three_mappings
    ≡ some (depends size_2 [] ∷ depends box_2 [] ∷ [], depends size_1 (lid_2 ∷ []) ∷ [])
unfolding order_mappings order pick string_discrete
three_ordered = refl

order_mappings-IsSplit_example :
    (os ls : List Mapping) × IsSplit [] [] three_mappings (order_mappings three_mappings) os ls
order_mappings-IsSplit_example = order_mappings-IsSplit three_mappings
