-- ===== src/Bridge.antt =====
-- src/bridge.cpp: a bridge is a subscriber on one side that feeds a publisher on the other.
pub mod Wiring
use ros1_bridge.Prelude.{ℕ, String, false, Option, none, some}
use ros1_bridge.Prelude.Exec.{Exec, pure, ◌>>=◌}
use ros1_bridge.Ros.{Ros}
use ros1_bridge.Factory.Interface.{interface_of}
use ros1_bridge.Factory.Registry.{Generated, get_factory}

pub record Bridge1to2Handles (ros : Ros) : Type 0 where
  pub ros1_subscriber : ros.Ros1Subscriber
  pub ros2_publisher : ros.Ros2Publisher

pub record Bridge2to1Handles (ros : Ros) : Type 0 where
  pub ros2_subscriber : ros.Ros2Subscription
  pub ros1_publisher : ros.Ros1Publisher

pub record BridgeHandles (ros : Ros) : Type 0 where
  pub bridge1to2 : Bridge1to2Handles ros
  pub bridge2to1 : Bridge2to1Handles ros

module _ (ros : Ros) (gen : Generated) where
  -- The overload for a `rclcpp::QoS`.
  unfoldable pub create_bridge_from_1_to_2 :
      String → String → ℕ → String → String → ros.Qos → Exec ros.World (Bridge1to2Handles ros)
  create_bridge_from_1_to_2 ros1_type_name ros1_topic_name subscriber_queue_size ros2_type_name
        ros2_topic_name publisher_qos =
      do
        factory ← get_factory ros gen ros1_type_name ros2_type_name
        ros2_pub ← (interface_of ros factory).create_ros2_publisher ros2_topic_name publisher_qos
        ros1_sub ←
            (interface_of ros factory).create_ros1_subscriber ros1_topic_name subscriber_queue_size
              ros2_pub
        pure (record { ros1_subscriber = ros1_sub; ros2_publisher = ros2_pub })

  unfoldable pub create_bridge_from_1_to_2_of_queue_size :
      String → String → ℕ → String → String → ℕ → Exec ros.World (Bridge1to2Handles ros)
  unfolding create_bridge_from_1_to_2
  create_bridge_from_1_to_2_of_queue_size r1 topic1 size r2 topic2 publisher_queue_size =
      create_bridge_from_1_to_2 r1 topic1 size r2 topic2 (ros.keep_last publisher_queue_size)

  -- The overload for a `rclcpp::QoS`.
  unfoldable pub create_bridge_from_2_to_1 :
      String
      → String
      → ros.Qos
      → String
      → String
      → ℕ
      → Option ros.Ros2Publisher
      → Exec ros.World (Bridge2to1Handles ros)
  create_bridge_from_2_to_1 ros2_type_name ros2_topic_name subscriber_qos ros1_type_name
        ros1_topic_name publisher_queue_size ros2_pub =
      do
        factory ← get_factory ros gen ros1_type_name ros2_type_name
        ros1_pub ←
            (interface_of ros factory).create_ros1_publisher ros1_topic_name publisher_queue_size
              false
        ros2_sub ←
            (interface_of ros factory).create_ros2_subscriber ros2_topic_name subscriber_qos
              ros1_pub ros2_pub
        pure (record { ros2_subscriber = ros2_sub; ros1_publisher = ros1_pub })

  unfoldable pub create_bridge_from_2_to_1_of_queue_size :
      String
      → String
      → ℕ
      → String
      → String
      → ℕ
      → Option ros.Ros2Publisher
      → Exec ros.World (Bridge2to1Handles ros)
  unfolding create_bridge_from_2_to_1
  create_bridge_from_2_to_1_of_queue_size r2 topic2 subscriber_queue_size =
      create_bridge_from_2_to_1 r2 topic2 (ros.sensor_data subscriber_queue_size)

  -- The overload with the publisher's QoS.
  unfoldable pub create_bidirectional_bridge :
      String → String → String → ℕ → ros.Qos → Exec ros.World (BridgeHandles ros)
  create_bidirectional_bridge r1 r2 topic queue_size publisher_qos = do
    one ← create_bridge_from_1_to_2 r1 topic queue_size r2 topic publisher_qos
    two ←
        create_bridge_from_2_to_1_of_queue_size r2 topic queue_size r1 topic queue_size
          (some one.ros2_publisher)
    pure (record { bridge1to2 = one; bridge2to1 = two })

  unfoldable pub create_bidirectional_bridge_of_queue_size :
      String → String → String → ℕ → Exec ros.World (BridgeHandles ros)
  create_bidirectional_bridge_of_queue_size r1 r2 topic queue_size = do
    one ← create_bridge_from_1_to_2_of_queue_size r1 topic queue_size r2 topic queue_size
    two ←
        create_bridge_from_2_to_1_of_queue_size r2 topic queue_size r1 topic queue_size
          (some one.ros2_publisher)
    pure (record { bridge1to2 = one; bridge2to1 = two })
