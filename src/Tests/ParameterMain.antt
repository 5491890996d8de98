-- ===== src/Tests/ParameterMain.antt =====
-- The theorem on the whole of the parameter bridge, applied to a topic whose parameter has another
-- name than the default.
use ros1_bridge.Prelude.{
  ℕ, String, ◌≡◌, refl, ◌==◌, if◌then◌else◌, Option, none, some, List, [], ◌∷◌, string_discrete,
}
use native.Mathlib.Decide.{ℕ_discrete}
use ros1_bridge.Prelude.Exec.{Exec, ok, pure}
use ros1_bridge.Text.{find_slash, substr_to, substr_from}
use ros1_bridge.Factory.{
  make_factory, load_type_support, create_ros1_publisher, create_ros2_subscriber,
  create_ros2_publisher, create_ros1_subscriber,
}
use ros1_bridge.Factory.Registry.{
  get_factory, select, specialise, get_service_factory, specialise_service,
}
use ros1_bridge.Bridge.{
  create_bidirectional_bridge, create_bridge_from_1_to_2, create_bridge_from_2_to_1_of_queue_size,
  create_bridge_from_2_to_1,
}
use ros1_bridge.ParameterBridge.Services.{
  bridge_entries, read_entry, text_at, full_type_name, create_for, factory_at, keep_bridge,
  services_1_to_2, services_2_to_1, bridge_services_1_to_2, bridge_services_2_to_1,
}
use ros1_bridge.ParameterBridge.Qos.{
  qos_from_params, where_set, set_history, set_reliability, set_durability, set_duration,
  read_duration, caught, set_liveliness, set_liveliness_of, named_liveliness,
}
use ros1_bridge.ParameterBridge.Topics.{
  bridge_topics, bridge_one_topic, keep_handles, create_handles, read_topic, queue_size_or_default,
}
use ros1_bridge.ParameterBridge.Main.{
  AllHandles, parameter_names, or_default, use_topics, bridge_parameter_topics, bridge_parameters,
}
use ros1_bridge.ParameterBridge.Main.Parameter.{FromParameter}
use ros1_bridge.ParameterBridge.Main.Lists.{Topics, Services1to2, Services2to1}
use ros1_bridge.ParameterBridge.Main.Outcome.{bridge_parameters-FromParameter}
use ros1_bridge.Tests.{sim, gen}
use ros1_bridge.Tests.Parameters.{topic_xml, setters}

abbrev get_param : String → Exec ℕ (Option String)
get_param name = pure (if name == "services_2_to_1" then none else some "entry")

abbrev argv : List String
argv = "parameter_bridge" ∷ "/my_topics" ∷ []

abbrev start : AllHandles sim
start = record {
  all_handles = [];
  service_bridges_1_to_2 = [];
  service_bridges_2_to_1 = [];
  world = 0;
}

abbrev made : AllHandles sim
made = (bridge_parameters sim gen setters topic_xml get_param argv start).1

made_returned : bridge_parameters sim gen setters topic_xml get_param argv start ≡ (ok tt, made)
unfolding bridge_parameters bridge_parameter_topics use_topics parameter_names or_default
    bridge_services_1_to_2 bridge_services_2_to_1 services_1_to_2 services_2_to_1 bridge_entries
    read_entry full_type_name create_for factory_at keep_bridge find_slash substr_to substr_from
    get_service_factory specialise_service bridge_topics bridge_one_topic keep_handles
    create_handles read_topic queue_size_or_default text_at qos_from_params where_set set_history
    set_reliability set_durability set_duration read_duration caught set_liveliness
    set_liveliness_of named_liveliness create_bidirectional_bridge create_bridge_from_1_to_2
    create_bridge_from_2_to_1_of_queue_size create_bridge_from_2_to_1 make_factory load_type_support
    create_ros1_publisher create_ros2_subscriber create_ros2_publisher create_ros1_subscriber
    get_factory select specialise string_discrete ℕ_discrete
made_returned = refl

bridge_parameters-FromParameter_example :
    FromParameter sim gen topic_xml get_param
      (Topics sim gen setters topic_xml get_param)
      "/my_topics"
      made.all_handles
    × FromParameter sim gen topic_xml get_param
        (Services1to2 sim gen setters topic_xml get_param)
        "services_1_to_2"
        made.service_bridges_1_to_2
    × FromParameter sim gen topic_xml get_param
        (Services2to1 sim gen setters topic_xml get_param)
        "services_2_to_1"
        made.service_bridges_2_to_1
bridge_parameters-FromParameter_example =
    bridge_parameters-FromParameter sim gen setters topic_xml get_param argv 0 made made_returned

named_topics : (parameter_names argv).topics ≡ "/my_topics"
unfolding parameter_names or_default
named_topics = refl
