-- ===== src/Tests/Parameters.antt =====
-- The theorems on the parameter bridge, applied. A parameter is a name, and a member's value is its
-- key.
use ros1_bridge.Prelude.{
  ℕ, String, ◌≡◌, refl, true, ◌==◌, ◌||◌, if◌then◌else◌, List, [], ◌∷◌, ◌++◌, string_discrete,
}
use native.Mathlib.Decide.{ℕ_discrete}
use ros1_bridge.Prelude.Exec.{ok}
use ros1_bridge.Prelude.Int.{ℤ, pos}
use ros1_bridge.Text.{find_slash, substr_to, substr_from}
use ros1_bridge.Factory.{
  ServiceBridge1to2, service_bridge_1_to_2, make_factory, load_type_support, create_ros1_publisher,
  create_ros2_subscriber, create_ros2_publisher, create_ros1_subscriber,
}
use ros1_bridge.Factory.Registry.{get_service_factory, specialise_service}
use ros1_bridge.DynamicBridge.Update.{ros2_services_direction}
use ros1_bridge.ParameterBridge.{XmlRpc}
use ros1_bridge.ParameterBridge.Services.{
  Listed, bridge_entries, read_entry, text_at, full_type_name, create_for, factory_at, keep_bridge,
}
use ros1_bridge.ParameterBridge.Services.Outcome.{Ends, bridge_entries-Ends}
use ros1_bridge.ParameterBridge.Qos.{
  QosSetters, qos_from_params, where_set, set_history, set_reliability, set_durability,
  set_duration, read_duration, caught, set_liveliness, set_liveliness_of, named_liveliness,
}
use ros1_bridge.Bridge.{
  BridgeHandles, create_bidirectional_bridge, create_bridge_from_1_to_2,
  create_bridge_from_2_to_1_of_queue_size, create_bridge_from_2_to_1,
}
use ros1_bridge.Factory.Registry.{get_factory, select, specialise}
use ros1_bridge.ParameterBridge.Topics.{
  bridge_topics, bridge_one_topic, keep_handles, create_handles, read_topic, queue_size_or_default,
}
use ros1_bridge.ParameterBridge.Topics.Outcome.{AllBridged, bridge_topics-AllBridged}
use ros1_bridge.ParameterBridge.Qos.Returns.{Returns, is_value, qos_from_params-Returns}
use ros1_bridge.Tests.{sim, gen}

abbrev text_of : String → String → String
text_of type key =
    if key == "service" || key == "topic"
    then "/sum"
    else if key == "type"
    then type
    else if key == "history"
    then "keep_all"
    else ""

abbrev xml_with : String → XmlRpc
xml_with type = record {
  Value = String;
  is_array = λ value. true;
  elements = λ value. value ∷ [];
  member = λ key value. ok key;
  as_string = λ value. ok (text_of type value);
  as_int = λ value. ok (pos 1);
  is_struct = λ value. true;
  has_member = λ key value. true;
  is_int = λ value. true;
  is_string = λ value. true;
}

abbrev xml : XmlRpc
xml = xml_with "demo/srv/Add"

abbrev pub topic_xml : XmlRpc
topic_xml = xml_with "std_msgs/msg/String"

abbrev nothing_listed : Listed (ServiceBridge1to2 sim) ℕ
nothing_listed = record { bridges = []; world = 0 }

entries_returned :
    (bridge_entries (ros2_services_direction sim gen (pos 5)) xml ("entry" ∷ []) nothing_listed).0
    ≡ ok tt
unfolding bridge_entries read_entry text_at full_type_name create_for factory_at keep_bridge
    find_slash substr_to substr_from get_service_factory specialise_service service_bridge_1_to_2
    string_discrete ℕ_discrete
entries_returned = refl

bridge_entries-Ends_example :
    (new : List (ServiceBridge1to2 sim)) × Ends
      (ros2_services_direction sim gen (pos 5))
      xml
      ("entry" ∷ [])
      0
      new
      (bridge_entries (ros2_services_direction sim gen (pos 5)) xml ("entry" ∷ []) nothing_listed).0
      (bridge_entries
        (ros2_services_direction sim gen (pos 5))
        xml
        ("entry" ∷ [])
        nothing_listed).1.world
    × ((bridge_entries
          (ros2_services_direction sim gen (pos 5))
          xml
          ("entry" ∷ [])
          nothing_listed).1.bridges
        ≡ [] ++ new)
bridge_entries-Ends_example =
    bridge_entries-Ends (ros2_services_direction sim gen (pos 5)) xml ("entry" ∷ []) nothing_listed

abbrev pub setters : QosSetters sim
setters = record {
  set_keep_last = λ n q. n;
  best_effort = λ q. q;
  reliable = λ q. q;
  durability_volatile = λ q. q;
  Duration = ℤ;
  duration = λ secs nsecs. ok secs;
  deadline = λ d q. q;
  lifespan = λ d q. q;
  liveliness_lease_duration = λ d q. q;
  liveliness = λ number q. q;
  system_default = pos 0;
  automatic = pos 1;
  manual_by_topic = pos 3;
}

qos_from_params-Returns_example : Returns (qos_from_params sim setters xml "qos")
qos_from_params-Returns_example =
    qos_from_params-Returns sim setters xml "qos"
      (record {
        members = λ key value. is_value _;
        texts = λ value. is_value _;
        ints = λ value. is_value _;
        durations = λ secs nsecs. is_value _;
      })
      (record {
        history = λ given. (_, refl);
        depth = λ given. (_, refl);
        reliability = λ given. (_, refl);
        durability = λ given. (_, refl);
        liveliness = λ given. (_, refl);
      })

abbrev no_handles : Listed (BridgeHandles sim) ℕ
no_handles = record { bridges = []; world = 0 }

topics_returned : (bridge_topics sim gen setters topic_xml ("entry" ∷ []) no_handles).0 ≡ ok tt
unfolding bridge_topics bridge_one_topic keep_handles create_handles read_topic
    queue_size_or_default text_at qos_from_params where_set set_history set_reliability
    set_durability set_duration read_duration caught set_liveliness set_liveliness_of
    named_liveliness create_bidirectional_bridge create_bridge_from_1_to_2
    create_bridge_from_2_to_1_of_queue_size create_bridge_from_2_to_1 make_factory load_type_support
    create_ros1_publisher create_ros2_subscriber create_ros2_publisher create_ros1_subscriber
    get_factory select specialise string_discrete
topics_returned = refl

bridge_topics-AllBridged_example :
    (new : List (BridgeHandles sim)) × AllBridged sim gen setters topic_xml
      ("entry" ∷ [])
      0
      new
      (bridge_topics sim gen setters topic_xml ("entry" ∷ []) no_handles).0
      (bridge_topics sim gen setters topic_xml ("entry" ∷ []) no_handles).1.world
    × ((bridge_topics sim gen setters topic_xml ("entry" ∷ []) no_handles).1.bridges ≡ [] ++ new)
bridge_topics-AllBridged_example =
    bridge_topics-AllBridged sim gen setters topic_xml ("entry" ∷ []) no_handles
