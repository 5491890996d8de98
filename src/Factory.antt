-- ===== src/Factory.antt =====
-- include/ros1_bridge/factory.hpp: the operations of `Factory` and `ServiceFactory` that create
-- publishers, subscribers, servers and clients. A template argument is the name of its type.
pub mod Registry
pub mod Callbacks
pub mod Forward
pub mod Generic
pub mod Interface
use ros1_bridge.Prelude.{ℕ, String, Bool, true, false, Option, none, some}
use ros1_bridge.Prelude.Exec.{Exec, pure, ◌>>=◌}
use ros1_bridge.Prelude.Int.{ℤ}
use ros1_bridge.Ros.{Ros}

-- Which specialisation of `Factory` is made, and the arguments of its constructor.
pub record Specialisation : Type 0 where
  pub ros1_message : String
  pub ros2_message : String
  pub ros1_type_name : String
  pub ros2_type_name : String

-- Which specialisation of `ServiceFactory` is made.
pub record ServiceFactory : Type 0 where
  pub ros1_type : String
  pub ros2_type : String

pub record ServiceBridge1to2 (ros : Ros) : Type 0 where
  pub server : ros.Ros1Server
  pub client : ros.Ros2Client

pub record ServiceBridge2to1 (ros : Ros) : Type 0 where
  pub server : ros.Ros2Server
  pub client : ros.Ros1Client

module _ (ros : Ros) where
  pub record Factory : Type 0 where
    pub specialisation : Specialisation
    pub open specialisation use *
    pub type_support : Option ros.TypeSupport

  abbrev typesupport_identifier : String
  typesupport_identifier = "rosidl_typesupport_cpp"

  unfoldable pub load_type_support :
      String → Option ros.Library → Exec ros.World (Option ros.TypeSupport)
  load_type_support ros2_type_name none = pure none
  load_type_support ros2_type_name (some library) =
      ros.get_typesupport_handle ros2_type_name typesupport_identifier library

  -- The constructor.
  unfoldable pub make_factory : Specialisation → Exec ros.World Factory
  unfolding load_type_support
  make_factory s = do
    library ← ros.get_typesupport_library s.ros2_type_name typesupport_identifier
    support ← load_type_support s.ros2_type_name library
    pure (record { specialisation = s; type_support = support })

  -- The traits of the ROS 1 message.
  module _ (factory : Factory) where
    abbrev pub get_ros1_md5sum : String
    get_ros1_md5sum = ros.md5sum factory.ros1_message

    abbrev pub get_ros1_data_type : String
    get_ros1_data_type = ros.datatype factory.ros1_message

    abbrev pub get_ros1_message_definition : String
    get_ros1_message_definition = ros.definition factory.ros1_message

  module _ (factory : Factory) (topic_name : String) where
    unfoldable pub create_ros1_publisher : ℕ → Bool → Exec ros.World ros.Ros1Publisher
    create_ros1_publisher queue_size latch =
        ros.advertise factory.ros1_message topic_name queue_size latch

    -- The overload for a `rclcpp::QoS`.
    unfoldable pub create_ros2_publisher : ros.Qos → Exec ros.World ros.Ros2Publisher
    create_ros2_publisher qos = ros.create_publisher factory.ros2_message topic_name qos

    pub create_ros2_publisher_of_queue_size : ℕ → Exec ros.World ros.Ros2Publisher
    create_ros2_publisher_of_queue_size queue_size =
        ros.create_publisher factory.ros2_message topic_name (ros.keep_last queue_size)

    pub create_ros2_publisher_of_profile : ros.QosProfile → Exec ros.World ros.Ros2Publisher
    unfolding create_ros2_publisher
    create_ros2_publisher_of_profile qos_profile =
        create_ros2_publisher (ros.set_profile ros.all_kept qos_profile)

    unfoldable pub create_ros1_subscriber :
        ℕ → ros.Ros2Publisher → Exec ros.World ros.Ros1Subscriber
    create_ros1_subscriber queue_size ros2_pub = ros.subscribe (record {
      topic = topic_name;
      queue_size = queue_size;
      md5sum = ros.md5sum factory.ros1_message;
      datatype = ros.datatype factory.ros1_message;
      ros2_pub = ros2_pub;
      ros1_type_name = factory.ros1_type_name;
      ros2_type_name = factory.ros2_type_name;
    })

    -- The overload for a `rclcpp::QoS`.
    unfoldable pub create_ros2_subscriber :
        ros.Qos → ros.Ros1Publisher → Option ros.Ros2Publisher → Exec ros.World ros.Ros2Subscription
    create_ros2_subscriber qos ros1_pub ros2_pub =
        ros.create_subscription factory.ros2_message topic_name qos (record {
          ros1_pub = ros1_pub;
          ros1_type_name = factory.ros1_type_name;
          ros2_type_name = factory.ros2_type_name;
          ros2_pub = ros2_pub;
          ignore_local_publications = true;
        })

    pub create_ros2_subscriber_of_queue_size :
        ℕ → ros.Ros1Publisher → Option ros.Ros2Publisher → Exec ros.World ros.Ros2Subscription
    unfolding create_ros2_subscriber
    create_ros2_subscriber_of_queue_size queue_size =
        create_ros2_subscriber (ros.sensor_data queue_size)

    pub create_ros2_subscriber_of_profile :
        ros.QosProfile
        → ros.Ros1Publisher
        → Option ros.Ros2Publisher
        → Exec ros.World ros.Ros2Subscription
    unfolding create_ros2_subscriber
    create_ros2_subscriber_of_profile qos =
        create_ros2_subscriber (ros.set_profile (ros.qos_from_rmw qos) qos)

  module _ (factory : ServiceFactory) (name : String) where
    unfoldable pub service_bridge_1_to_2 : ℤ → Exec ros.World (ServiceBridge1to2 ros)
    service_bridge_1_to_2 service_execution_timeout = do
      client ← ros.create_client factory.ros2_type name
      server ← ros.advertise_service factory.ros1_type name (record {
        ros1_type = factory.ros1_type;
        ros2_type = factory.ros2_type;
        client = client;
        service_execution_timeout = service_execution_timeout;
      })
      pure (record { server = server; client = client })

    unfoldable pub service_bridge_2_to_1 : Exec ros.World (ServiceBridge2to1 ros)
    service_bridge_2_to_1 = do
      client ← ros.service_client factory.ros1_type name
      server ←
          ros.create_service factory.ros2_type name (record {
            ros1_type = factory.ros1_type;
            ros2_type = factory.ros2_type;
            client = client;
          })
      pure (record { server = server; client = client })
