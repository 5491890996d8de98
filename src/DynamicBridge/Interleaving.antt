-- ===== src/DynamicBridge/Interleaving.antt =====
-- The two polls of src/dynamic_bridge.cpp as `main` runs them: `ros1_poll` in the thread of the
-- ROS 1 spinner and `ros2_poll` in the loop of the ROS 2 executor. `g_bridge_mutex` makes a store of
-- a poll, or a call of `update_bridge`, one step; what a poll does in between, outside of the mutex,
-- reads answers of the middlewares at any time.
pub mod Consistency
use ros1_bridge.Prelude.{ℕ, String, Bool, ◌≡◌, Option, none, some, List, []}
use ros1_bridge.Prelude.Exec.{ok}
use ros1_bridge.StdMap.{StdMap}
use ros1_bridge.Ros.{Ros}
use ros1_bridge.Factory.Registry.{Generated}
use ros1_bridge.DynamicBridge.Services.{Details}
use ros1_bridge.DynamicBridge.ServiceInfo.{Network}
use ros1_bridge.DynamicBridge.Update.{Bridges}
use ros1_bridge.DynamicBridge.Polls.{
  SystemState, Master, Graph, Dynamic, Topics, Ros2Topics, Ros2Services,
}
use ros1_bridge.DynamicBridge.Polls.Ros1.{
  probe_part, current_ros1_topics, store_ros1_services, store_ros1_topics, update,
}
use ros1_bridge.DynamicBridge.Polls.Ros2.{
  poll_ros2_topics, poll_ros2_services, store_ros2_services, store_ros2_topics,
}

-- Where `ros1_poll` is, with what it has found.
pub data Ros1At : Type 0 where
  idle : Ros1At
  probed : SystemState → StdMap Details → Ros1At
  services_stored : SystemState → StdMap Details → Ros1At
  listed : StdMap Details → Topics → Ros1At
  topics_stored : StdMap Details → Topics → Ros1At

-- Where `ros2_poll` is, with what it has found.
pub data Ros2At : Type 0 where
  idle : Ros2At
  collected : Ros2Services → Ros2Topics → Ros2At
  services_stored : Ros2Services → Ros2Topics → Ros2At
  topics_stored : Ros2Services → Ros2Topics → Ros2At

pub record Threads (ros : Ros) : Type 0 where
  pub dynamic : Dynamic ros
  pub ros1 : Ros1At
  pub ros2 : Ros2At

abbrev pub at_world : {ros : Ros} → ros.World → Dynamic ros → Dynamic ros
at_world w d = record d { bridges = record (d.bridges) { world = w } }

module _ (ros : Ros) where
  -- The variables of `main`, before the first poll.
  unfoldable pub initial : Bool → Bool → ros.World → Dynamic ros
  initial bridge_all_1to2_topics bridge_all_2to1_topics world = record {
    seen = record {
      ros1_publishers = [];
      ros1_subscribers = [];
      ros2_publishers = [];
      ros2_subscribers = [];
      ros1_services = [];
      ros2_services = [];
      bridge_all_1to2_topics = bridge_all_1to2_topics;
      bridge_all_2to1_topics = bridge_all_2to1_topics;
    };
    bridges = record {
      bridges_1to2 = [];
      bridges_2to1 = [];
      service_bridges_1_to_2 = [];
      service_bridges_2_to_1 = [];
      world = world;
      log = [];
    };
    already_ignored_topics = [];
    already_ignored_services = [];
  }

  module _ (gen : Generated) (net : Network ros.World) (master : Master ros.World)
      (graph : Graph ros.World) (fuel : ℕ) where
    pub data Ros1Move (d : Dynamic ros) : Ros1At → Dynamic ros → Ros1At → Type 0 where
      has_no_state :
          (w : ros.World)
          → (master.get_system_state w).0 ≡ ok none
          → Ros1Move d Ros1At.idle d Ros1At.idle
      probes :
          (w v : ros.World) (state : SystemState) (services : StdMap Details)
          → (master.get_system_state w).0 ≡ ok (some state)
          → (probe_part net state.services v).0 ≡ ok services
          → Ros1Move d Ros1At.idle d (Ros1At.probed state services)
      stores_services :
          (state : SystemState) (services : StdMap Details)
          → Ros1Move d
              (Ros1At.probed state services)
              (store_ros1_services ros gen net master services d)
              (Ros1At.services_stored state services)
      has_no_topics :
          (state : SystemState) (services : StdMap Details) (w : ros.World)
          → (master.get_topics w).0 ≡ ok none
          → Ros1Move d (Ros1At.services_stored state services) d Ros1At.idle
      lists :
          (state : SystemState) (services : StdMap Details) (w : ros.World)
          (topics : List (String × String))
          → (master.get_topics w).0 ≡ ok (some topics)
          → Ros1Move d
              (Ros1At.services_stored state services)
              d
              (Ros1At.listed services (current_ros1_topics net.node_name state topics))
      stores_topics :
          (services : StdMap Details) (topics : Topics)
          → Ros1Move d
              (Ros1At.listed services topics)
              (store_ros1_topics ros gen net master topics d)
              (Ros1At.topics_stored services topics)
      -- However the update ends.
      updates :
          (services : StdMap Details) (topics : Topics)
          → Ros1Move d
              (Ros1At.topics_stored services topics)
              (update ros gen net master fuel d).1
              Ros1At.idle

    pub data Ros2Move (d : Dynamic ros) : Ros2At → Dynamic ros → Ros2At → Type 0 where
      -- `ros2_poll` reads the maps of bridges outside of the mutex, so that what it finds there may
      -- come from any `bridges`.
      collects :
          (bridges : Bridges ros) (w : ros.World) (services : Ros2Services) (topics : Ros2Topics)
          → (poll_ros2_topics ros gen graph (record d { bridges = bridges })).0 ≡ ok topics
          → (poll_ros2_services ros gen graph (at_world w d)).0 ≡ ok services
          → Ros2Move d Ros2At.idle d (Ros2At.collected services topics)
      stores_services :
          (services : Ros2Services) (topics : Ros2Topics)
          → Ros2Move d
              (Ros2At.collected services topics)
              (store_ros2_services ros gen graph services d)
              (Ros2At.services_stored services topics)
      stores_topics :
          (services : Ros2Services) (topics : Ros2Topics)
          → Ros2Move d
              (Ros2At.services_stored services topics)
              (store_ros2_topics ros gen graph topics d)
              (Ros2At.topics_stored services topics)
      updates :
          (services : Ros2Services) (topics : Ros2Topics)
          → Ros2Move d
              (Ros2At.topics_stored services topics)
              (update ros gen net master fuel d).1
              Ros2At.idle

    pub data Step (s : Threads ros) : Threads ros → Type 0 where
      -- The middlewares change at any time.
      world_moves : (w : ros.World) → Step s (record s { dynamic = at_world w s.dynamic })
      ros1_moves :
          {d : Dynamic ros} {p : Ros1At}
          → Ros1Move s.dynamic s.ros1 d p
          → Step s (record { dynamic = d; ros1 = p; ros2 = s.ros2 })
      ros2_moves :
          {d : Dynamic ros} {q : Ros2At}
          → Ros2Move s.dynamic s.ros2 d q
          → Step s (record { dynamic = d; ros1 = s.ros1; ros2 = q })

    pub data Steps (s : Threads ros) : Threads ros → Type 0 where
      done : Steps s s
      later : {t u : Threads ros} → Steps s t → Step t u → Steps s u
