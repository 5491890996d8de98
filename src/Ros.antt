-- ===== src/Ros.antt =====
-- What the program takes from ROS 1 (roscpp) and ROS 2 (rclcpp): a record of the types of its
-- handles and of the calls that create them. A call may throw, and changes the state of the two
-- middlewares, `World`. Nothing is assumed of the calls here.
use ros1_bridge.Prelude.{ℕ, String, Bool, Option}
use ros1_bridge.Prelude.Exec.{Exec}
use ros1_bridge.Prelude.Int.{ℤ}

-- ros::SubscribeOptions. The callback is `Factory::ros1_callback` with the last three bound to it.
pub record SubscribeOptions (Ros2Publisher : Type 0) : Type 0 where
  pub topic : String
  pub queue_size : ℕ
  pub md5sum : String
  pub datatype : String
  pub ros2_pub : Ros2Publisher
  pub ros1_type_name : String
  pub ros2_type_name : String

-- The arguments bound to `Factory::ros2_callback`, and the option of the subscription.
pub record Ros2Callback (Ros1Publisher Ros2Publisher : Type 0) : Type 0 where
  pub ros1_pub : Ros1Publisher
  pub ros1_type_name : String
  pub ros2_type_name : String
  pub ros2_pub : Option Ros2Publisher
  pub ignore_local_publications : Bool

-- The arguments bound to `ServiceFactory::forward_1_to_2` and `forward_2_to_1`.
pub record Forward1to2 (Ros2Client : Type 0) : Type 0 where
  pub ros1_type : String
  pub ros2_type : String
  pub client : Ros2Client
  pub service_execution_timeout : ℤ

pub record Forward2to1 (Ros1Client : Type 0) : Type 0 where
  pub ros1_type : String
  pub ros2_type : String
  pub client : Ros1Client

pub record Ros : Type 1 where
  pub World : Type 0
  -- The handles.
  pub Ros1Publisher : Type 0
  pub Ros1Subscriber : Type 0
  pub Ros1Server : Type 0
  pub Ros1Client : Type 0
  pub Ros2Publisher : Type 0
  pub Ros2Subscription : Type 0
  pub Ros2Server : Type 0
  pub Ros2Client : Type 0
  -- rclcpp::QoS and rmw_qos_profile_t.
  pub Qos : Type 0
  pub QosProfile : Type 0
  pub keep_last : ℕ → Qos
  pub all_kept : Qos
  pub keep_all : Qos → Qos
  pub transient_local : Qos → Qos
  pub sensor_data : ℕ → Qos
  pub qos_from_rmw : QosProfile → Qos
  pub set_profile : Qos → QosProfile → Qos
  -- Traits of a message type, by its name.
  pub md5sum : String → String
  pub datatype : String → String
  pub definition : String → String
  -- rclcpp::get_typesupport_library and get_typesupport_handle.
  pub Library : Type 0
  pub TypeSupport : Type 0
  pub get_typesupport_library : String → String → Exec World (Option Library)
  pub get_typesupport_handle : String → String → Library → Exec World (Option TypeSupport)
  -- ros::NodeHandle; the first argument of each call is the message type.
  pub advertise : String → String → ℕ → Bool → Exec World Ros1Publisher
  pub subscribe : SubscribeOptions Ros2Publisher → Exec World Ros1Subscriber
  pub advertise_service : String → String → Forward1to2 Ros2Client → Exec World Ros1Server
  pub service_client : String → String → Exec World Ros1Client
  pub get_param_cached : String → Exec World (Option ℤ)
  pub shutdown : Ros1Server → Exec World (Unit {0})
  -- rclcpp::Node
  pub create_publisher : String → String → Qos → Exec World Ros2Publisher
  pub create_subscription :
      String → String → Qos → Ros2Callback Ros1Publisher Ros2Publisher → Exec World Ros2Subscription
  pub create_client : String → String → Exec World Ros2Client
  pub create_service : String → String → Forward2to1 Ros1Client → Exec World Ros2Server
