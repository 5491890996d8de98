-- ===== src/Tests/Listings.antt =====
-- The list of pairs, and conversions through pointers.
use ros1_bridge.Prelude.{true, ◌≡◌, refl, [], ◌∷◌, string_discrete}
use ros1_bridge.Prelude.Exec.{ok}
use ros1_bridge.Factory.{Specialisation}
use ros1_bridge.Factory.Registry.Listing.{
  insert_last, get_all_message_mappings_2to1, get_all_service_mappings_2to1,
}
use ros1_bridge.DynamicBridge.Options.{parse_command_options, printed_pairs, pairs}
use ros1_bridge.Messages.Pointers.{static_cast, convert_pointers_1_to_2}
use ros1_bridge.Messages.Services.{ServiceField, service_pairs, translate}
use ros1_bridge.Messages.{
  to_1, Value, Members, Elements, FieldPairs, convert, convert_value, convert_field, convert_each,
  convert_builtin, copy, admits, get, set,
}
use ros1_bridge.Convert.{time_1_to_2}
use ros1_bridge.Tests.{gen}
use ros1_bridge.Tests.Messages as Sample

pairs_printed :
    parse_command_options gen ("dynamic_bridge" ∷ "--print-pairs" ∷ [])
    ≡ pairs (
        "Supported ROS 2 <=> ROS 1 message type conversion pairs:"
        ∷ "  - 'std_msgs/msg/String' (ROS 2) <=> 'std_msgs/String' (ROS 1)"
        ∷ "Supported ROS 2 <=> ROS 1 service type conversion pairs:"
        ∷ "  - 'demo/srv/Add' (ROS 2) <=> 'demo/Add' (ROS 1)" ∷ [])
unfolding parse_command_options printed_pairs get_all_message_mappings_2to1
    get_all_service_mappings_2to1 insert_last string_discrete
pairs_printed = refl

abbrev factory : Specialisation
factory = record {
  ros1_message = "a/A";
  ros2_message = "a/msg/A";
  ros1_type_name = "a/A";
  ros2_type_name = "a/msg/A";
}

converted_through_pointers :
    convert_pointers_1_to_2 factory Sample.pairs
      (record { type = "a/A"; pointee = Sample.sent })
      (record { type = "a/msg/A"; pointee = Sample.target })
    ≡ ok Sample.received
unfolding convert_pointers_1_to_2 static_cast convert convert_value convert_field convert_each
    convert_builtin copy admits get set string_discrete time_1_to_2
converted_through_pointers = refl

abbrev labels : ServiceField
labels = record {
  ros1_name = "names";
  ros2_name = "labels";
  array = true;
  basic = true;
  pairs = FieldPairs.done;
  fresh_1 = Sample.text_of "";
  fresh_2 = Sample.text_of "";
}

request_translated :
    translate to_1
      (labels ∷ [])
      (Value.message (
        Members.member "labels" (Sample.two (Sample.text_of "a") (Sample.text_of "b")) Members.end))
      (Value.message (Members.member "names" (Value.vector Elements.nil) Members.end))
    ≡ ok (
        Value.message (
          Members.member "names"
            (Sample.two (Sample.text_of "a") (Sample.text_of "b"))
            Members.end))
unfolding translate service_pairs convert convert_value convert_field convert_each copy get set
    string_discrete
request_translated = refl
