-- ===== src/DynamicBridge/Options.antt =====
-- `parse_command_options` in src/dynamic_bridge.cpp.
use ros1_bridge.Prelude.{String, ◌<>◌, Bool, ◌||◌, if◌then◌else◌, List, [], ◌∷◌, ◌++◌, has}
use ros1_bridge.Factory.Registry.{Generated}
use ros1_bridge.Factory.Registry.Listing.{
  Multimap, get_all_message_mappings_2to1, get_all_service_mappings_2to1,
}

-- The three flags that are set where parsing succeeds.
pub record Options : Type 0 where
  pub output_topic_introspection : Bool
  pub bridge_all_1to2_topics : Bool
  pub bridge_all_2to1_topics : Bool

-- `usage` and `pairs` return false: what is printed, but for the text of the usage.
pub data Parsed : Type 0 where
  usage : Parsed
  pairs : List String → Parsed
  options : Options → Parsed

unfoldable pub find_command_option : List String → String → Bool
find_command_option args option = has option args

unfoldable pub get_flag_option : List String → String → Bool
get_flag_option args option = has option args

abbrev pair_lines : Multimap → List String
pair_lines [] = []
pair_lines ((ros2_type, ros1_type) ∷ mappings) =
    ("  - '" <> (ros2_type <> ("' (ROS 2) <=> '" <> (ros1_type <> "' (ROS 1)"))))
    ∷ pair_lines mappings

-- The list of one kind of pairs.
unfoldable pub printed_pairs : (kind : String) → Multimap → List String
printed_pairs kind [] = ("No " <> (kind <> " type conversion pairs supported.")) ∷ []
printed_pairs kind (pair ∷ mappings) =
    ("Supported ROS 2 <=> ROS 1 " <> (kind <> " type conversion pairs:"))
    ∷ pair_lines (pair ∷ mappings)

unfoldable pub parse_command_options : Generated → List String → Parsed
unfolding find_command_option get_flag_option
parse_command_options gen args =
    if find_command_option args "-h" || find_command_option args "--help"
    then usage
    else if get_flag_option args "--print-pairs"
    then pairs (
        printed_pairs "message" (get_all_message_mappings_2to1 gen)
        ++ printed_pairs "service" (get_all_service_mappings_2to1 gen))
    else options (record {
      output_topic_introspection = get_flag_option args "--show-introspection";
      bridge_all_1to2_topics =
          get_flag_option args "--bridge-all-topics"
          || get_flag_option args "--bridge-all-1to2-topics";
      bridge_all_2to1_topics =
          get_flag_option args "--bridge-all-topics"
          || get_flag_option args "--bridge-all-2to1-topics";
    })
