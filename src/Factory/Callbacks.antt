-- ===== src/Factory/Callbacks.antt =====
-- include/ros1_bridge/factory.hpp: `ros1_callback` and `ros2_callback`, which pass a message on
-- unless it came from the bridge itself. Log output is left out.
pub mod Echo
use ros1_bridge.Prelude.{String, ◌<>◌, Bool, true, false, ◌==◌, if◌then◌else◌, Option, none, some}
use ros1_bridge.Prelude.Exec.{Exec, runtime_error, pure, raise, ◌>>=◌, ◌>>◌}
use ros1_bridge.StdMap.{StdMap, find}
use ros1_bridge.Ros.{Ros, Ros2Callback}

-- What the two callbacks of a factory use of the middlewares and of the code that is generated for
-- its pair of types.
pub record Relay (ros : Ros) : Type 1 where
  pub Message1 : Type 0
  pub Message2 : Type 0
  pub Gid : Type 0
  -- Whether std::dynamic_pointer_cast to the publisher for this type succeeds.
  pub is_typed : ros.Ros2Publisher → Bool
  pub get_topic_name : ros.Ros2Publisher → String
  pub get_gid : ros.Ros2Publisher → Gid
  -- rmw_compare_gids_equal: the result, or none where it fails; and the text of the error.
  pub compare_gids_equal : Gid → Gid → Exec ros.World (Option Bool)
  pub take_error_string : Exec ros.World String
  -- Whether ros::Publisher holds a publisher.
  pub is_valid : ros.Ros1Publisher → Bool
  -- The conversions that are generated for the types.
  pub convert_1_to_2 : Message1 → Exec ros.World Message2
  pub convert_2_to_1 : Message2 → Exec ros.World Message1
  pub publish1 : ros.Ros1Publisher → Message1 → Exec ros.World (Unit {0})
  pub publish2 : ros.Ros2Publisher → Message2 → Exec ros.World (Unit {0})

-- ros::MessageEvent: the connection header, if there is one, and the message.
pub record MessageEvent (Message : Type 0) : Type 0 where
  pub connection_header : Option (StdMap String)
  pub message : Message

-- The test of the header's callerid.
unfoldable pub is_own : StdMap String → Bool
is_own connection_header = elim (find "callerid" connection_header) [
  | some callerid ↦ callerid == "/ros_bridge"
  | none ↦ false
]

module _ {ros : Ros} (relay : Relay ros) where
  unfoldable pub pass_1_to_2 : relay.Message1 → ros.Ros2Publisher → Exec ros.World (Unit {0})
  pass_1_to_2 message ros2_pub = do
    ros2_msg ← relay.convert_1_to_2 message
    relay.publish2 ros2_pub ros2_msg

  unfoldable pub ros1_callback :
      MessageEvent relay.Message1 → ros.Ros2Publisher → String → Exec ros.World (Unit {0})
  ros1_callback event ros2_pub ros2_type_name =
      if relay.is_typed ros2_pub
      then elim event.connection_header [
        | none ↦ pure tt
        | some connection_header ↦
            if is_own connection_header then pure tt else pass_1_to_2 event.message ros2_pub
      ]
      else raise (
          runtime_error (
            "Invalid type "
            <> (ros2_type_name <> (" for ROS 2 publisher " <> relay.get_topic_name ros2_pub))))

  unfoldable pub pass_2_to_1 : relay.Message2 → ros.Ros1Publisher → Exec ros.World (Unit {0})
  pass_2_to_1 message ros1_pub =
      if relay.is_valid ros1_pub
      then (do ros1_msg ← relay.convert_2_to_1 message; relay.publish1 ros1_pub ros1_msg)
      else pure tt

  -- What follows the comparison of the message's GID with that of the bridge's own publisher.
  unfoldable pub after_comparison :
      Option Bool → Exec ros.World (Unit {0}) → Exec ros.World (Unit {0})
  after_comparison (some true) pass = pure tt
  after_comparison (some false) pass = pass
  after_comparison none pass = do
    text ← relay.take_error_string
    raise (runtime_error ("Failed to compare gids: " <> text))

  unfoldable pub ros2_callback :
      Ros2Callback ros.Ros1Publisher ros.Ros2Publisher
      → relay.Message2
      → relay.Gid
      → Exec ros.World (Unit {0})
  ros2_callback bound message publisher_gid = elim bound.ros2_pub [
    | none ↦ pass_2_to_1 message bound.ros1_pub
    | some ros2_pub ↦ (do
      result ← relay.compare_gids_equal publisher_gid (relay.get_gid ros2_pub)
      after_comparison result (pass_2_to_1 message bound.ros1_pub))
  ]
