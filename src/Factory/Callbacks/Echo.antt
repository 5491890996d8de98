-- ===== src/Factory/Callbacks/Echo.antt =====
-- The bridge does not pass on what it published itself.
use ros1_bridge.Prelude.{String, ◌≡◌, refl, Bool, true, if◌then◌else◌, none, some, arith}
use ros1_bridge.Prelude.Exec.{ok}
use ros1_bridge.Ros.{Ros, Ros2Callback}
use ros1_bridge.Factory.Callbacks.{Relay, after_comparison, ros2_callback}
use ros1_bridge.Prelude.{ℕ}
use ros1_bridge.Factory.Registry.{Generated}
use ros1_bridge.Bridge.{BridgeHandles, create_bidirectional_bridge}
use ros1_bridge.Bridge.Wiring.{CameFrom, create_bidirectional_bridge-IsWired}

module _ {ros : Ros} (relay : Relay ros) where
  -- The comparison of GIDs is that of `eq`, and changes nothing.
  abbrev pub Compares : (relay.Gid → relay.Gid → Bool) → Type 0
  Compares eq =
      (g h : relay.Gid) (w : ros.World) → relay.compare_gids_equal g h w ≡ (ok (some (eq g h)), w)

  -- Where the comparison of GIDs is that of `eq`, a message that a subscription hears from the
  -- publisher that is bound to it is not passed on and changes nothing, and one from a publisher
  -- with another GID is treated as by a subscription that has no publisher bound to it.
  pub ros2_callback_lem :
      (eq : relay.Gid → relay.Gid → Bool) (bound : Ros2Callback ros.Ros1Publisher ros.Ros2Publisher)
      (own : ros.Ros2Publisher) (message : relay.Message2) (publisher_gid : relay.Gid)
      (w : ros.World)
      → Compares eq
      → bound.ros2_pub ≡ some own
      → ros2_callback relay bound message publisher_gid w ≡ (
          if eq publisher_gid (relay.get_gid own)
          then (ok tt, w)
          else ros2_callback relay (record bound { ros2_pub = none }) message publisher_gid w)
  unfolding ros2_callback after_comparison
  ros2_callback_lem eq bound own message publisher_gid w compares is_bound =
      ground (arith, compares publisher_gid (relay.get_gid own) w)

  ros2_callback_own :
      (eq : relay.Gid → relay.Gid → Bool) (bound : Ros2Callback ros.Ros1Publisher ros.Ros2Publisher)
      (own : ros.Ros2Publisher) (message : relay.Message2) (publisher_gid : relay.Gid)
      (w : ros.World)
      → Compares eq
      → bound.ros2_pub ≡ some own
      → eq publisher_gid (relay.get_gid own) ≡ true
      → ros2_callback relay bound message publisher_gid w ≡ (ok tt, w)
  ros2_callback_own eq bound own message publisher_gid w compares is_bound same =
      ground (arith, ros2_callback_lem eq bound own message publisher_gid w compares is_bound)

-- Where a bidirectional bridge was created and the comparison of GIDs is that of `eq`, its
-- subscription in ROS 2 was made with a callback that returns and changes nothing for every message
-- from a publisher with the GID of the bridge's own publisher in ROS 2.
pub create_bidirectional_bridge_no_echo :
    (ros : Ros) (gen : Generated) (relay : Relay ros) (eq : relay.Gid → relay.Gid → Bool)
    (r1 r2 topic : String) (size : ℕ) (qos : ros.Qos) (w : ros.World) (h : BridgeHandles ros)
    (message : relay.Message2) (publisher_gid : relay.Gid) (later : ros.World)
    → Compares relay eq
    → (create_bidirectional_bridge ros gen r1 r2 topic size qos w).0 ≡ ok h
    → eq publisher_gid (relay.get_gid h.bridge1to2.ros2_publisher) ≡ true
    → (bound : Ros2Callback ros.Ros1Publisher ros.Ros2Publisher) × (type2 : String) × CameFrom ros
        gen
        (ros.create_subscription type2 topic (ros.sensor_data size) bound)
        h.bridge2to1.ros2_subscriber
      × (ros2_callback relay bound message publisher_gid later ≡ (ok tt, later))
create_bidirectional_bridge_no_echo ros gen relay eq r1 r2 topic size qos w h message publisher_gid
      later compares returned own =
    let wired = (create_bidirectional_bridge-IsWired ros gen r1 r2 topic size qos w h returned).1 in
    (
      _,
      wired.s.ros2_message,
      wired.subscribes,
      ros2_callback_own relay eq _ h.bridge1to2.ros2_publisher message publisher_gid later compares
          refl own,
    )
