-- ===== src/DynamicBridge/Directions.antt =====
-- src/dynamic_bridge.cpp: what differs between the two halves of the topic part of `update_bridge`.
use ros1_bridge.Prelude.{String, Bool, ◌&&◌, ◌||◌, ◌==◌, if◌then◌else◌, none}
use ros1_bridge.Prelude.Exec.{Exec}
use ros1_bridge.StdMap.{StdMap}
use ros1_bridge.Ros.{Ros}
use ros1_bridge.Factory.Registry.{Generated, get_1to2_mapping, get_2to1_mapping}
use ros1_bridge.Bridge.{
  Bridge1to2Handles, Bridge2to1Handles, create_bridge_from_1_to_2,
  create_bridge_from_2_to_1_of_queue_size,
}
use ros1_bridge.DynamicBridge as Shared
use ros1_bridge.DynamicBridge.{TypeNames}
use ros1_bridge.DynamicBridge.Topics.{Direction}

-- The types of a bridge that exists and those wanted, in `create 1to2 bridges`.
abbrev pub in_place_1to2 : TypeNames → TypeNames → Bool
in_place_1to2 bridge wanted =
    bridge.ros1_type_name == wanted.ros1_type_name && bridge.ros2_type_name == wanted.ros2_type_name

-- The same in `create 2to1 bridges`, where a bridge made for an unknown ROS 1 type stays.
abbrev pub in_place_2to1 : TypeNames → TypeNames → Bool
in_place_2to1 bridge wanted =
    (bridge.ros1_type_name == wanted.ros1_type_name || bridge.ros1_type_name == "")
    && bridge.ros2_type_name == wanted.ros2_type_name

module _ (ros : Ros) (gen : Generated) where
  -- `ros2_publisher_qos`
  unfoldable pub ros2_publisher_qos : String → ros.Qos
  ros2_publisher_qos topic =
      if topic == "/tf_static"
      then ros.transient_local (ros.keep_all (ros.keep_last 10))
      else ros.keep_last 10

  unfoldable pub create_1to2 : String → TypeNames → Exec ros.World (Bridge1to2Handles ros)
  create_1to2 topic types =
      create_bridge_from_1_to_2 ros gen types.ros1_type_name topic 10 types.ros2_type_name topic
        (ros2_publisher_qos topic)

  unfoldable pub create_2to1 : String → TypeNames → Exec ros.World (Bridge2to1Handles ros)
  create_2to1 topic types =
      create_bridge_from_2_to_1_of_queue_size ros gen types.ros2_type_name topic 10
        types.ros1_type_name topic 10 none

  abbrev pub direction_1to2 :
      StdMap String → StdMap String → Bool → Direction (Bridge1to2Handles ros) ros.World
  direction_1to2 ros1_publishers ros2_subscribers bridge_all_1to2_topics = record {
    way = Shared.one_to_two;
    publishers = ros1_publishers;
    subscribers = ros2_subscribers;
    bridge_all_topics = bridge_all_1to2_topics;
    mapping = get_1to2_mapping gen;
    names =
        λ published subscribed. record { ros1_type_name = published; ros2_type_name = subscribed };
    in_place = in_place_1to2;
    create = create_1to2;
  }

  abbrev pub direction_2to1 :
      StdMap String → StdMap String → Bool → Direction (Bridge2to1Handles ros) ros.World
  direction_2to1 ros2_publishers ros1_subscribers bridge_all_2to1_topics = record {
    way = Shared.two_to_one;
    publishers = ros2_publishers;
    subscribers = ros1_subscribers;
    bridge_all_topics = bridge_all_2to1_topics;
    mapping = get_2to1_mapping gen;
    names =
        λ published subscribed. record { ros1_type_name = subscribed; ros2_type_name = published };
    in_place = in_place_2to1;
    create = create_2to1;
  }
