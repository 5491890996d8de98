-- ===== src/DynamicBridge/Polls/Ros1.antt =====
-- `ros1_poll` in src/dynamic_bridge.cpp.
use ros1_bridge.Prelude.{ℕ, String, Option, none, some, List, [], ◌∷◌}
use ros1_bridge.Prelude.Exec.{Exec, pure, ◌>>=◌, ◌>>◌}
use ros1_bridge.StdMap.{StdMap}
use ros1_bridge.Ros.{Ros}
use ros1_bridge.Factory.Registry.{Generated}
use ros1_bridge.DynamicBridge.Services.{Details}
use ros1_bridge.DynamicBridge.ServiceInfo.{Network, get_ros1_service_info}
use ros1_bridge.DynamicBridge.Update.{update_bridge}
use ros1_bridge.DynamicBridge.Polls.{
  SystemState, Master, Dynamic, Topics, active_part, collect_ros1_topics, add_untyped, on_world,
  on_bridges, modify,
}

module _ {World : Type 0} (net : Network World) where
  -- The loop over the services of the payload.
  unfoldable pub probe_services :
      List (Option String) → StdMap Details → Exec World (StdMap Details)
  probe_services [] found = pure found
  probe_services (none ∷ rest) found = probe_services rest found
  probe_services (some name ∷ rest) found = do
    found' ← get_ros1_service_info net name found
    probe_services rest found'

  unfoldable pub probe_part : Option (List (Option String)) → Exec World (StdMap Details)
  probe_part none = pure []
  probe_part (some names) = probe_services names []

-- current_ros1_publishers and current_ros1_subscribers
unfoldable pub current_ros1_topics : String → SystemState → List (String × String) → Topics
current_ros1_topics own state topics =
    let active_subscribers = active_part own state.subscribers in
    let found : Topics =
      collect_ros1_topics (active_part own state.publishers) active_subscribers topics
        (record { publishers = []; subscribers = [] }) in
    record found { subscribers = add_untyped active_subscribers found.subscribers }

module _ (ros : Ros) (gen : Generated) (net : Network ros.World) (master : Master ros.World) where
  abbrev pub store_ros1_services : StdMap Details → Dynamic ros → Dynamic ros
  store_ros1_services services s = record s { seen = record (s.seen) { ros1_services = services } }

  abbrev pub store_ros1_topics : Topics → Dynamic ros → Dynamic ros
  store_ros1_topics topics s = record s {
    seen = record (s.seen) {
      ros1_publishers = topics.publishers;
      ros1_subscribers = topics.subscribers;
    };
  }

  -- The call of `update_bridge`, on what the polls have stored.
  unfoldable pub update : ℕ → Exec (Dynamic ros) (Unit {0})
  update fuel s = on_bridges (update_bridge ros gen fuel s.seen) s

  unfoldable pub use_ros1_topics :
      ℕ → SystemState → Option (List (String × String)) → Exec (Dynamic ros) (Unit {0})
  use_ros1_topics fuel state none = pure tt
  use_ros1_topics fuel state (some topics) = do
    modify (store_ros1_topics (current_ros1_topics net.node_name state topics))
    update fuel

  unfoldable pub use_system_state : ℕ → Option SystemState → Exec (Dynamic ros) (Unit {0})
  use_system_state fuel none = pure tt
  use_system_state fuel (some state) = do
    services ← on_world (probe_part net state.services)
    modify (store_ros1_services services)
    topics ← on_world master.get_topics
    use_ros1_topics fuel state topics

  unfoldable pub ros1_poll : ℕ → Exec (Dynamic ros) (Unit {0})
  ros1_poll fuel = do state ← on_world master.get_system_state; use_system_state fuel state
