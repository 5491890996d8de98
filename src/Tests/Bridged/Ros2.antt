-- ===== src/Tests/Bridged/Ros2.antt =====
-- The theorem on the bridges that a poll of ROS 2 leaves, applied.
use ros1_bridge.Prelude.{
  ℕ, ◌-◌, String, ◌≡◌, refl, false, ◌==◌, if◌then◌else◌, List, [], ◌∷◌, string_discrete,
}
use ros1_bridge.Prelude.Exec.{ok, pure}
use ros1_bridge.StdMap.{StdMap, find, contains, insert}
use ros1_bridge.Factory.{
  make_factory, load_type_support, create_ros1_publisher, create_ros2_publisher,
  create_ros1_subscriber, create_ros2_subscriber,
}
use ros1_bridge.Factory.Registry.{
  select, specialise, get_factory, get_1to2_mapping, get_2to1_mapping,
}
use ros1_bridge.Bridge.{
  create_bridge_from_1_to_2, create_bridge_from_2_to_1, create_bridge_from_2_to_1_of_queue_size,
}
use ros1_bridge.DynamicBridge.Directions.{create_1to2, create_2to1}
use ros1_bridge.DynamicBridge.Topics.{
  create_bridges, remove_obsolete, bridge_topic, wanted_types, establish, settle, drop_previous,
}
use ros1_bridge.DynamicBridge.Services.{
  create_service_bridges, remove_obsolete_1_to_2, remove_obsolete_2_to_1,
}
use ros1_bridge.DynamicBridge.Update.{
  update_bridge, update_topics, update_services, bridge_ros1_services, read_timeout,
  bridge_ros2_services, remove_ros1_services, remove_ros2_services,
}
use ros1_bridge.DynamicBridge.Update.Target.{view, target_1to2, target_2to1}
use ros1_bridge.DynamicBridge.Polls.{
  Graph, Ros2Topics, others, note_ros2_topic, collect_ros2_services,
}
use ros1_bridge.DynamicBridge.Polls.Ros2.{
  ros2_poll, poll_ros2_topics, poll_ros2_services, collect_ros2_topics, count_ros2_topic,
  collect_service_names,
}
use ros1_bridge.DynamicBridge.Polls.Found.{own_ends, reported}
use ros1_bridge.DynamicBridge.Polls.Bridged.Ros2.{ros2_poll_bridges}
use ros1_bridge.Tests.{sim, gen, seen, no_bridges}
use ros1_bridge.Tests.Updates.{seen_1to2-Creates, seen_2to1-Creates}
use ros1_bridge.Tests.Bridged.{without_services, without_services-IsWellFormed}

abbrev listed : StdMap (List String)
listed = ("/chatter", "std_msgs/msg/String" ∷ []) ∷ ("/news", "std_msgs/msg/String" ∷ []) ∷ []

abbrev publishers : String → ℕ
publishers t = if t == "/news" then 1 else 0

abbrev subscribers : String → ℕ
subscribers t = if t == "/chatter" then 1 else 0

abbrev listing : Graph ℕ
listing = record {
  name = "ros_bridge";
  namespace = "/";
  get_topic_names_and_types = pure listed;
  count_publishers = λ t. pure (publishers t);
  count_subscribers = λ t. pure (subscribers t);
  get_node_names_and_namespaces = pure [];
  get_service_names_and_types_by_node = λ name namespace. pure [];
  get_service_names_and_types = pure [];
}

abbrev found : Ros2Topics
found = record {
  topics = record { publishers = seen.ros2_publishers; subscribers = seen.ros2_subscribers };
  ignored = [];
}

topics_found : (poll_ros2_topics sim gen listing without_services).0 ≡ ok found
unfolding poll_ros2_topics collect_ros2_topics count_ros2_topic note_ros2_topic others insert find
    string_discrete
topics_found = refl

poll_returned : (ros2_poll sim gen listing 1 without_services).0 ≡ ok tt
unfolding ros2_poll poll_ros2_topics poll_ros2_services collect_ros2_topics count_ros2_topic
    note_ros2_topic others collect_service_names collect_ros2_services update_bridge update_topics
    create_bridges bridge_topic wanted_types establish settle drop_previous create_1to2 create_2to1
    update_services bridge_ros1_services create_service_bridges read_timeout bridge_ros2_services
    remove_ros1_services remove_ros2_services remove_obsolete_1_to_2 remove_obsolete
    remove_obsolete_2_to_1 find insert string_discrete select specialise get_factory make_factory
    load_type_support create_ros1_publisher create_ros2_publisher create_ros1_subscriber
    create_ros2_subscriber create_bridge_from_1_to_2 create_bridge_from_2_to_1
    create_bridge_from_2_to_1_of_queue_size
poll_returned = refl

ros2_poll_bridges_example :
    ((view (ros2_poll sim gen listing 1 without_services).1.bridges).one_to_two "/chatter"
      ≡ target_1to2 false
          (get_1to2_mapping gen)
          (find "/chatter" seen.ros1_publishers)
          (reported
            (subscribers "/chatter" - own_ends (contains "/chatter" no_bridges.bridges_2to1))
            "/chatter"
            listed)
          ((view no_bridges).one_to_two "/chatter"))
    × ((view (ros2_poll sim gen listing 1 without_services).1.bridges).two_to_one "/chatter"
        ≡ target_2to1 false
            (get_2to1_mapping gen)
            (reported
              (publishers "/chatter" - own_ends (contains "/chatter" no_bridges.bridges_1to2))
              "/chatter"
              listed)
            (find "/chatter" seen.ros1_subscribers)
            ((view no_bridges).two_to_one "/chatter"))
unfolding find string_discrete
ros2_poll_bridges_example =
    ros2_poll_bridges sim gen listing 1 found without_services "/chatter" listed publishers
      subscribers without_services-IsWellFormed refl (refl, (refl, tt)) (λ t w. (refl, refl))
      topics_found seen_1to2-Creates seen_2to1-Creates poll_returned
