-- ===== src/Tests/Bridged.antt =====
-- The theorem on the bridges that a poll leaves, applied.
mod Ros2
use ros1_bridge.Prelude.{
  ℕ, String, ◌≡◌, refl, false, if◌then◌else◌, none, some, List, [], ◌∷◌, string_discrete,
}
use ros1_bridge.Prelude.Exec.{ok, pure}
use ros1_bridge.StdMap.{find, insert}
use ros1_bridge.Factory.{
  make_factory, load_type_support, create_ros1_publisher, create_ros2_publisher,
  create_ros1_subscriber, create_ros2_subscriber,
}
use ros1_bridge.Factory.Registry.{
  select, specialise, get_factory, get_1to2_mapping, get_2to1_mapping,
}
use ros1_bridge.Bridge.{
  create_bridge_from_1_to_2, create_bridge_from_2_to_1, create_bridge_from_2_to_1_of_queue_size,
}
use ros1_bridge.DynamicBridge.Directions.{create_1to2, create_2to1}
use ros1_bridge.DynamicBridge.Topics.{
  create_bridges, remove_obsolete, bridge_topic, wanted_types, establish, settle, drop_previous,
}
use ros1_bridge.DynamicBridge.Services.{
  create_service_bridges, remove_obsolete_1_to_2, remove_obsolete_2_to_1,
}
use ros1_bridge.DynamicBridge.Update.{
  update_bridge, update_topics, update_services, bridge_ros1_services, read_timeout,
  bridge_ros2_services, remove_ros1_services, remove_ros2_services,
}
use ros1_bridge.DynamicBridge.Update.Target.{view, target_1to2, target_2to1}
use ros1_bridge.DynamicBridge.Polls.{
  Master, SystemState, Dynamic, any_other, active_part, active_topics, collect_ros1_topics,
  add_untyped,
}
use ros1_bridge.DynamicBridge.Polls.Ros1.{
  ros1_poll, use_system_state, probe_part, use_ros1_topics, current_ros1_topics, update,
}
use ros1_bridge.DynamicBridge.Polls.WellFormed.{IsWellFormed}
use ros1_bridge.DynamicBridge.Polls.Found.{last_type, or_else_string}
use ros1_bridge.DynamicBridge.Polls.Found.Active.{is_active}
use ros1_bridge.DynamicBridge.Polls.Bridged.{ros1_poll_bridges}
use ros1_bridge.Tests.{sim, gen, seen, no_bridges}
use ros1_bridge.Tests.Updates.{seen_1to2-Creates, seen_2to1-Creates}
use ros1_bridge.Tests.Polls.{net}

abbrev talking : SystemState
talking = record {
  publishers = some (("/chatter", "/talker" ∷ []) ∷ []);
  subscribers = some (("/news", "/reader" ∷ []) ∷ []);
  services = none;
}

abbrev listed : List (String × String)
listed = ("/chatter", "std_msgs/String") ∷ ("/news", "std_msgs/String") ∷ []

abbrev talking_master : Master ℕ
talking_master = record { get_system_state = pure (some talking); get_topics = pure (some listed) }

abbrev pub without_services : Dynamic sim
without_services = record {
  seen = record seen { ros1_services = []; ros2_services = [] };
  bridges = no_bridges;
  already_ignored_topics = [];
  already_ignored_services = [];
}

pub without_services-IsWellFormed : IsWellFormed without_services
unfolding find
without_services-IsWellFormed = record {
  ros1_publishers = (tt, tt);
  ros1_subscribers = (tt, tt);
  ros2_publishers = (tt, tt);
  ros2_subscribers = (tt, tt);
  ros1_services = tt;
  ros2_services = tt;
  one_way = λ name h. refl;
}

poll_returned : (ros1_poll sim gen net talking_master 1 without_services).0 ≡ ok tt
unfolding ros1_poll use_system_state probe_part use_ros1_topics current_ros1_topics active_part
    active_topics any_other collect_ros1_topics add_untyped update update_bridge update_topics
    create_bridges bridge_topic wanted_types establish settle drop_previous create_1to2 create_2to1
    update_services bridge_ros1_services create_service_bridges read_timeout bridge_ros2_services
    remove_ros1_services remove_ros2_services remove_obsolete_1_to_2 remove_obsolete
    remove_obsolete_2_to_1 find insert string_discrete select specialise get_factory make_factory
    load_type_support create_ros1_publisher create_ros2_publisher create_ros1_subscriber
    create_ros2_subscriber create_bridge_from_1_to_2 create_bridge_from_2_to_1
    create_bridge_from_2_to_1_of_queue_size
poll_returned = refl

ros1_poll_bridges_example :
    ((view (ros1_poll sim gen net talking_master 1 without_services).1.bridges).one_to_two
        "/chatter"
      ≡ target_1to2 false
          (get_1to2_mapping gen)
          (if is_active "/ros_bridge" "/chatter" talking.publishers
            then last_type "/chatter" listed
            else none)
          (find "/chatter" seen.ros2_subscribers)
          ((view no_bridges).one_to_two "/chatter"))
    × ((view (ros1_poll sim gen net talking_master 1 without_services).1.bridges).two_to_one
          "/chatter"
        ≡ target_2to1 false
            (get_2to1_mapping gen)
            (find "/chatter" seen.ros2_publishers)
            (if is_active "/ros_bridge" "/chatter" talking.subscribers
              then or_else_string (last_type "/chatter" listed) (some "")
              else none)
            ((view no_bridges).two_to_one "/chatter"))
unfolding current_ros1_topics active_part active_topics any_other collect_ros1_topics add_untyped
    find insert string_discrete
ros1_poll_bridges_example =
    ros1_poll_bridges sim gen net talking_master 1 talking listed without_services "/chatter"
      without_services-IsWellFormed refl (λ v. refl) seen_1to2-Creates seen_2to1-Creates
      poll_returned
