-- ===== src/Factory/Interface.antt =====
-- include/ros1_bridge/factory_interface.hpp: the operations through which src/bridge.cpp uses a
-- factory, whichever specialisation it is. Where the class has overloads, the name says for what.
use ros1_bridge.Prelude.{ℕ, String, Bool, Option}
use ros1_bridge.Prelude.Exec.{Exec}
use ros1_bridge.Prelude.Int.{ℤ}
use ros1_bridge.Ros.{Ros}
use ros1_bridge.Factory.{
  Factory, ServiceFactory, ServiceBridge1to2, ServiceBridge2to1, service_bridge_1_to_2,
  service_bridge_2_to_1, create_ros1_publisher, create_ros1_subscriber, create_ros2_publisher,
  create_ros2_publisher_of_profile, create_ros2_publisher_of_queue_size, create_ros2_subscriber,
  create_ros2_subscriber_of_profile, create_ros2_subscriber_of_queue_size, get_ros1_md5sum,
  get_ros1_data_type, get_ros1_message_definition,
}

pub record FactoryInterface (ros : Ros) : Type 0 where
  pub create_ros1_publisher : String → ℕ → Bool → Exec ros.World ros.Ros1Publisher
  pub create_ros2_publisher_of_queue_size : String → ℕ → Exec ros.World ros.Ros2Publisher
  pub create_ros2_publisher_of_profile : String → ros.QosProfile → Exec ros.World ros.Ros2Publisher
  pub create_ros2_publisher : String → ros.Qos → Exec ros.World ros.Ros2Publisher
  pub create_ros1_subscriber : String → ℕ → ros.Ros2Publisher → Exec ros.World ros.Ros1Subscriber
  pub create_ros2_subscriber_of_queue_size :
      String
      → ℕ
      → ros.Ros1Publisher
      → Option ros.Ros2Publisher
      → Exec ros.World ros.Ros2Subscription
  pub create_ros2_subscriber_of_profile :
      String
      → ros.QosProfile
      → ros.Ros1Publisher
      → Option ros.Ros2Publisher
      → Exec ros.World ros.Ros2Subscription
  pub create_ros2_subscriber :
      String
      → ros.Qos
      → ros.Ros1Publisher
      → Option ros.Ros2Publisher
      → Exec ros.World ros.Ros2Subscription
  -- The traits of the ROS 1 message.
  pub get_ros1_md5sum : String
  pub get_ros1_data_type : String
  pub get_ros1_message_definition : String

-- The virtual functions of a `Factory`.
abbrev pub interface_of : (ros : Ros) → Factory ros → FactoryInterface ros
interface_of ros factory = record {
  create_ros1_publisher = create_ros1_publisher ros factory;
  create_ros2_publisher_of_queue_size = create_ros2_publisher_of_queue_size ros factory;
  create_ros2_publisher_of_profile = create_ros2_publisher_of_profile ros factory;
  create_ros2_publisher = create_ros2_publisher ros factory;
  create_ros1_subscriber = create_ros1_subscriber ros factory;
  create_ros2_subscriber_of_queue_size = create_ros2_subscriber_of_queue_size ros factory;
  create_ros2_subscriber_of_profile = create_ros2_subscriber_of_profile ros factory;
  create_ros2_subscriber = create_ros2_subscriber ros factory;
  get_ros1_md5sum = get_ros1_md5sum ros factory;
  get_ros1_data_type = get_ros1_data_type ros factory;
  get_ros1_message_definition = get_ros1_message_definition ros factory;
}

-- The operations through which the bridges use a factory for services.
pub record ServiceFactoryInterface (ros : Ros) : Type 0 where
  pub service_bridge_1_to_2 : String → ℤ → Exec ros.World (ServiceBridge1to2 ros)
  pub service_bridge_2_to_1 : String → Exec ros.World (ServiceBridge2to1 ros)

-- The virtual functions of a `ServiceFactory`.
abbrev pub service_interface_of : (ros : Ros) → ServiceFactory → ServiceFactoryInterface ros
service_interface_of ros factory = record {
  service_bridge_1_to_2 = λ name timeout. service_bridge_1_to_2 ros factory name timeout;
  service_bridge_2_to_1 = λ name. service_bridge_2_to_1 ros factory name;
}
