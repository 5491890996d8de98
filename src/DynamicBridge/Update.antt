-- ===== src/DynamicBridge/Update.antt =====
-- `update_bridge` in src/dynamic_bridge.cpp, put together from the topic and the service parts.
pub mod Topics
pub mod Services
pub mod Settled
pub mod Target
pub mod Runs
pub mod Returns
use ros1_bridge.Prelude.{ℕ, String, Bool, Option, none, some, List}
use ros1_bridge.Prelude.Exec.{Exec, Result, ok, pure, ◌>>=◌, ◌>>◌}
use ros1_bridge.Prelude.Int.{ℤ, pos}
use ros1_bridge.StdMap.{StdMap, contains}
use ros1_bridge.Ros.{Ros}
use ros1_bridge.Factory.{ServiceBridge1to2, ServiceBridge2to1}
use ros1_bridge.Factory.Interface.{service_interface_of}
use ros1_bridge.Factory.Registry.{Generated, get_service_factory}
use ros1_bridge.Bridge.{Bridge1to2Handles, Bridge2to1Handles}
use ros1_bridge.DynamicBridge as Shared
use ros1_bridge.DynamicBridge.{HandlesAndMessageTypes, Event}
use ros1_bridge.DynamicBridge.Topics.{Direction, TopicState, create_bridges, remove_obsolete}
use ros1_bridge.DynamicBridge.Directions.{direction_1to2, direction_2to1}
use ros1_bridge.DynamicBridge.Services.{
  Details, ServiceDirection, ServiceState, create_service_bridges, remove_obsolete_1_to_2,
  remove_obsolete_2_to_1,
}

-- What the polls have seen, and the two options: the arguments that `update_bridge` only reads.
pub record Seen : Type 0 where
  pub ros1_publishers : StdMap String
  pub ros1_subscribers : StdMap String
  pub ros2_publishers : StdMap String
  pub ros2_subscribers : StdMap String
  pub ros1_services : StdMap Details
  pub ros2_services : StdMap Details
  pub bridge_all_1to2_topics : Bool
  pub bridge_all_2to1_topics : Bool

-- The four maps of bridges, beside the state of the middlewares and what was printed.
pub record Bridges (ros : Ros) : Type 0 where
  pub bridges_1to2 : StdMap (HandlesAndMessageTypes (Bridge1to2Handles ros))
  pub bridges_2to1 : StdMap (HandlesAndMessageTypes (Bridge2to1Handles ros))
  pub service_bridges_1_to_2 : StdMap (ServiceBridge1to2 ros)
  pub service_bridges_2_to_1 : StdMap (ServiceBridge2to1 ros)
  pub world : ros.World
  pub log : List Event

module _ {ros : Ros} where
  -- A part that works on one of the maps, run on all.
  abbrev pub topics_1to2 : Bridges ros → TopicState (Bridge1to2Handles ros) ros.World
  topics_1to2 b = record { bridges = b.bridges_1to2; world = b.world; log = b.log }

  abbrev pub on_topics_1to2 {ℓ} :
      {A : Type ℓ} → Exec (TopicState (Bridge1to2Handles ros) ros.World) A → Exec (Bridges ros) A
  on_topics_1to2 m b =
      let (r, t) = m (topics_1to2 b) in
      (r, record b { bridges_1to2 = t.bridges; world = t.world; log = t.log })

  abbrev pub topics_2to1 : Bridges ros → TopicState (Bridge2to1Handles ros) ros.World
  topics_2to1 b = record { bridges = b.bridges_2to1; world = b.world; log = b.log }

  abbrev pub on_topics_2to1 {ℓ} :
      {A : Type ℓ} → Exec (TopicState (Bridge2to1Handles ros) ros.World) A → Exec (Bridges ros) A
  on_topics_2to1 m b =
      let (r, t) = m (topics_2to1 b) in
      (r, record b { bridges_2to1 = t.bridges; world = t.world; log = t.log })

  abbrev pub services_1_to_2 : Bridges ros → ServiceState (ServiceBridge1to2 ros) ros.World
  services_1_to_2 b = record { bridges = b.service_bridges_1_to_2; world = b.world; log = b.log }

  abbrev pub on_services_1_to_2 {ℓ} :
      {A : Type ℓ} → Exec (ServiceState (ServiceBridge1to2 ros) ros.World) A → Exec (Bridges ros) A
  on_services_1_to_2 m b =
      let (r, t) = m (services_1_to_2 b) in
      (r, record b { service_bridges_1_to_2 = t.bridges; world = t.world; log = t.log })

  abbrev pub services_2_to_1 : Bridges ros → ServiceState (ServiceBridge2to1 ros) ros.World
  services_2_to_1 b = record { bridges = b.service_bridges_2_to_1; world = b.world; log = b.log }

  abbrev pub on_services_2_to_1 {ℓ} :
      {A : Type ℓ} → Exec (ServiceState (ServiceBridge2to1 ros) ros.World) A → Exec (Bridges ros) A
  on_services_2_to_1 m b =
      let (r, t) = m (services_2_to_1 b) in
      (r, record b { service_bridges_2_to_1 = t.bridges; world = t.world; log = t.log })

-- A step that cannot throw.
abbrev pub change {ℓ} : {S : Type ℓ} → (S → S) → Exec S (Unit {0})
change f s = (ok tt, f s)

abbrev pub default_timeout : Option ℤ → ℤ
default_timeout none = pos 5
default_timeout (some seconds) = seconds

module _ (ros : Ros) (gen : Generated) where
  abbrev pub seen_1to2 : Seen → Direction (Bridge1to2Handles ros) ros.World
  seen_1to2 g = direction_1to2 ros gen g.ros1_publishers g.ros2_subscribers g.bridge_all_1to2_topics

  abbrev pub seen_2to1 : Seen → Direction (Bridge2to1Handles ros) ros.World
  seen_2to1 g = direction_2to1 ros gen g.ros2_publishers g.ros1_subscribers g.bridge_all_2to1_topics

  -- `create bridges for ros1 services`: a server in ROS 2 that calls ROS 1.
  abbrev pub ros1_services_direction : ServiceDirection (ServiceBridge2to1 ros) ros.World
  ros1_services_direction = record {
    way = Shared.two_to_one;
    factory_for = get_service_factory gen "ros1";
    create = λ factory name. (service_interface_of ros factory).service_bridge_2_to_1 name;
  }

  -- `create bridges for ros2 services`: a server in ROS 1 that calls ROS 2.
  abbrev pub ros2_services_direction : ℤ → ServiceDirection (ServiceBridge1to2 ros) ros.World
  ros2_services_direction service_execution_timeout = record {
    way = Shared.one_to_two;
    factory_for = get_service_factory gen "ros2";
    create = λ factory name.
        (service_interface_of ros factory).service_bridge_1_to_2 name service_execution_timeout;
  }

  unfoldable pub bridge_ros1_services : StdMap Details → Exec (Bridges ros) (Unit {0})
  bridge_ros1_services services b =
      on_services_2_to_1
        (create_service_bridges ros1_services_direction
          (λ name. contains name b.service_bridges_1_to_2) services)
        b

  -- service_execution_timeout
  unfoldable pub read_timeout : Exec (Bridges ros) ℤ
  read_timeout b =
      let (r, world) =
        (do
          found ← ros.get_param_cached "ros1_bridge/dynamic_bridge/service_execution_timeout"
          pure (default_timeout found))
          b.world in
      (r, record b { world = world })

  unfoldable pub bridge_ros2_services : ℤ → StdMap Details → Exec (Bridges ros) (Unit {0})
  bridge_ros2_services timeout services b =
      on_services_1_to_2
        (create_service_bridges (ros2_services_direction timeout)
          (λ name. contains name b.service_bridges_2_to_1) services)
        b

  unfoldable pub remove_ros1_services : StdMap Details → Exec (Bridges ros) (Unit {0})
  remove_ros1_services services =
      on_services_2_to_1
        (change (λ st. remove_obsolete_2_to_1 (λ name. contains name services) st.bridges st))

  unfoldable pub remove_ros2_services : ℕ → StdMap Details → Exec (Bridges ros) (Unit {0})
  remove_ros2_services fuel services = on_services_1_to_2 (λ st.
      remove_obsolete_1_to_2 (λ bridge. ros.shutdown bridge.server) fuel
        (λ name. contains name services) st.bridges st)

  -- The fuel bounds the rounds at one entry in the last loop.
  unfoldable pub update_topics : Seen → Exec (Bridges ros) (Unit {0})
  update_topics g = do
    on_topics_1to2 (create_bridges (seen_1to2 g) g.ros1_publishers)
    on_topics_2to1 (create_bridges (seen_2to1 g) g.ros2_publishers)
    on_topics_1to2 (change (remove_obsolete (seen_1to2 g)))
    on_topics_2to1 (change (remove_obsolete (seen_2to1 g)))

  unfoldable pub update_services : ℕ → Seen → Exec (Bridges ros) (Unit {0})
  update_services fuel g = do
    bridge_ros1_services g.ros1_services
    timeout ← read_timeout
    bridge_ros2_services timeout g.ros2_services
    remove_ros1_services g.ros1_services
    remove_ros2_services fuel g.ros2_services

  unfoldable pub update_bridge : ℕ → Seen → Exec (Bridges ros) (Unit {0})
  update_bridge fuel g = do update_topics g; update_services fuel g
