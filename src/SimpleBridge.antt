-- ===== src/SimpleBridge.antt =====
-- src/simple_bridge.cpp, src/simple_bridge_1_to_2.cpp and src/simple_bridge_2_to_1.cpp, which pass
-- the texts of the topic `chatter` on, and the start of src/static_bridge.cpp. What is printed and
-- the spinners are left out.
pub mod Once
use ros1_bridge.Prelude.{ℕ, String, Bool, true, false, ◌==◌, if◌then◌else◌, Option, none, some}
use ros1_bridge.Prelude.Exec.{Exec, undefined, pure, raise, ◌>>=◌, ◌>>◌}
use ros1_bridge.StdMap.{StdMap, find}
use ros1_bridge.Ros.{Ros}
use ros1_bridge.Factory.Registry.{Generated}
use ros1_bridge.Bridge.{BridgeHandles, create_bidirectional_bridge_of_queue_size}

-- What the programs use of roscpp and rclcpp. The type of a message is std_msgs/String, so that a
-- message is its text.
pub record Chatter : Type 1 where
  pub World : Type 0
  pub Ros1Publisher : Type 0
  pub Ros1Subscriber : Type 0
  pub Ros2Publisher : Type 0
  pub Ros2Subscription : Type 0
  -- With the topic and the size of the queue.
  pub advertise : String → ℕ → Exec World Ros1Publisher
  pub create_publisher : String → ℕ → Exec World Ros2Publisher
  -- With the topic, the size of the queue, and the callback for a connection header and a message.
  pub subscribe :
      String
      → ℕ
      → (Option (StdMap String) → String → Exec World (Unit {0}))
      → Exec World Ros1Subscriber
  -- With the topic, the callback, and options.ignore_local_publications; the QoS is that of sensor
  -- data.
  pub create_subscription :
      String → (String → Exec World (Unit {0})) → Bool → Exec World Ros2Subscription
  pub publish1 : Ros1Publisher → String → Exec World (Unit {0})
  pub publish2 : Ros2Publisher → String → Exec World (Unit {0})

module _ (chat : Chatter) where
  unfoldable pub ros2_chatter_callback : chat.Ros1Publisher → String → Exec chat.World (Unit {0})
  ros2_chatter_callback ros1_pub ros2_msg = chat.publish1 ros1_pub ros2_msg

  -- The header is read where it is missing, too.
  unfoldable pub ros1_chatter_callback :
      chat.Ros2Publisher → Option (StdMap String) → String → Exec chat.World (Unit {0})
  ros1_chatter_callback ros2_pub none ros1_msg = raise undefined
  ros1_chatter_callback ros2_pub (some connection_header) ros1_msg =
      elim (find "callerid" connection_header) [
        | none ↦ chat.publish2 ros2_pub ros1_msg
        | some callerid ↦
            if callerid == "/ros_bridge" then pure tt else chat.publish2 ros2_pub ros1_msg
      ]

  -- What `main` of src/simple_bridge.cpp holds while it spins.
  pub record ChatterHandles : Type 0 where
    pub ros1_pub : chat.Ros1Publisher
    pub ros2_pub : chat.Ros2Publisher
    pub ros1_sub : chat.Ros1Subscriber
    pub ros2_sub : chat.Ros2Subscription

  abbrev pub ignore_local_publications : Bool
  ignore_local_publications = true

  unfoldable pub simple_bridge : Exec chat.World ChatterHandles
  simple_bridge = do
    ros1_pub ← chat.advertise "chatter" 10
    ros2_pub ← chat.create_publisher "chatter" 10
    ros1_sub ← chat.subscribe "chatter" 10 (ros1_chatter_callback ros2_pub)
    ros2_sub ←
        chat.create_subscription "chatter" (ros2_chatter_callback ros1_pub)
          ignore_local_publications
    pure (record {
      ros1_pub = ros1_pub;
      ros2_pub = ros2_pub;
      ros1_sub = ros1_sub;
      ros2_sub = ros2_sub;
    })

  -- `chatterCallback` of the two programs that bridge one way.
  unfoldable pub chatter_callback_1_to_2 :
      chat.Ros2Publisher → Option (StdMap String) → String → Exec chat.World (Unit {0})
  chatter_callback_1_to_2 pub2 header ros1_msg = chat.publish2 pub2 ros1_msg

  unfoldable pub chatter_callback_2_to_1 : chat.Ros1Publisher → String → Exec chat.World (Unit {0})
  chatter_callback_2_to_1 pub1 ros2_msg = chat.publish1 pub1 ros2_msg

  unfoldable pub simple_bridge_1_to_2 : Exec chat.World (chat.Ros2Publisher × chat.Ros1Subscriber)
  simple_bridge_1_to_2 = do
    pub2 ← chat.create_publisher "chatter" 10
    sub ← chat.subscribe "chatter" 10 (chatter_callback_1_to_2 pub2)
    pure (pub2, sub)

  unfoldable pub simple_bridge_2_to_1 : Exec chat.World (chat.Ros1Publisher × chat.Ros2Subscription)
  simple_bridge_2_to_1 = do
    pub1 ← chat.advertise "chatter" 10
    sub ← chat.create_subscription "chatter" (chatter_callback_2_to_1 pub1) false
    pure (pub1, sub)

-- The bridge that `main` of src/static_bridge.cpp creates.
unfoldable pub static_bridge : (ros : Ros) → Generated → Exec ros.World (BridgeHandles ros)
static_bridge ros gen =
    create_bidirectional_bridge_of_queue_size ros gen "std_msgs/String" "std_msgs/msg/String"
      "chatter" 10
