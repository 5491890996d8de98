-- ===== src/DynamicBridge/Update/Returns.antt =====
-- When `update_bridge` returns.
use ros1_bridge.Prelude.{ℕ, suc, String, ◌≡◌, refl, Option, some}
use ros1_bridge.Prelude.Exec.{ok, returned_bind}
use ros1_bridge.Prelude.Int.{ℤ}
use ros1_bridge.StdMap.{StdMap, find, contains, HasUniqueKeys}
use ros1_bridge.Ros.{Ros}
use ros1_bridge.Factory.{ServiceBridge1to2}
use ros1_bridge.Factory.Registry.{Generated}
use ros1_bridge.DynamicBridge.Services.{Details}
use ros1_bridge.DynamicBridge.Services.Outcome.{IsComplete}
use ros1_bridge.DynamicBridge.Services.Removal.{remove_obsolete_1_to_2-returns}
use ros1_bridge.DynamicBridge.Services.Returns.{IsTame, create_service_bridges-returns}
use ros1_bridge.DynamicBridge.Topics.Stability.{Creates}
use ros1_bridge.DynamicBridge.Update.{
  Seen, Bridges, seen_1to2, seen_2to1, update_topics, update_services, update_bridge,
  bridge_ros1_services, bridge_ros2_services, read_timeout, remove_ros1_services,
  remove_ros2_services, ros1_services_direction, ros2_services_direction, services_1_to_2,
  default_timeout,
}
use ros1_bridge.DynamicBridge.Update.Topics.{update_topics_twice}

abbrev pub AreComplete : StdMap Details → Type 0
AreComplete services =
    (name : String) (details : Details) → find name services ≡ some details → IsComplete details

-- What the middlewares are trusted with in one update: the calls for wanted topic bridges return,
-- those for service bridges return or throw a `runtime_error`, and the parameter is read and
-- servers are shut down without a throw.
pub record IsReliable (ros : Ros) (gen : Generated) (g : Seen) : Type 0 where
  pub creates_1to2 : Creates (seen_1to2 ros gen g) g.ros1_publishers
  pub creates_2to1 : Creates (seen_2to1 ros gen g) g.ros2_publishers
  pub ros1_services : IsTame (ros1_services_direction ros gen)
  pub ros2_services : (timeout : ℤ) → IsTame (ros2_services_direction ros gen timeout)
  pub reads :
      (world : ros.World)
      → (found : Option ℤ) × ((ros.get_param_cached
            "ros1_bridge/dynamic_bridge/service_execution_timeout" world).0
          ≡ ok found)
  pub shuts_down :
      (server : ros.Ros1Server) (world : ros.World) → (ros.shutdown server world).0 ≡ ok tt

module _ (ros : Ros) (gen : Generated) (g : Seen) (reliable : IsReliable ros gen g) where
  read_timeout-returns :
      (b : Bridges ros) → (timeout : ℤ) × ((read_timeout ros gen b).0 ≡ ok timeout)
  unfolding read_timeout
  read_timeout-returns b =
      let (found, e) = reliable.reads b.world in
      (
        default_timeout found,
        returned_bind (ros.get_param_cached "ros1_bridge/dynamic_bridge/service_execution_timeout")
            _ b.world e refl,
      )

  pub update_services-returns :
      (fuel : ℕ) (b : Bridges ros)
      → HasUniqueKeys g.ros1_services
      → HasUniqueKeys g.ros2_services
      → AreComplete g.ros1_services
      → AreComplete g.ros2_services
      → (update_services ros gen (suc fuel) g b).0 ≡ ok tt
  unfolding update_services bridge_ros1_services bridge_ros2_services remove_ros1_services
      remove_ros2_services
  update_services-returns fuel b u1 u2 c1 c2 =
      let b1 = (bridge_ros1_services ros gen g.ros1_services b).1 in
      let (timeout, read) = read_timeout-returns b1 in
      let b2 = (read_timeout ros gen b1).1 in
      let b3 = (bridge_ros2_services ros gen timeout g.ros2_services b2).1 in
      returned_bind (bridge_ros1_services ros gen g.ros1_services) _ b
        (create_service_bridges-returns (ros1_services_direction ros gen) _ reliable.ros1_services
          g.ros1_services _ u1 c1)
        (returned_bind (read_timeout ros gen) _ b1 read (
          returned_bind (bridge_ros2_services ros gen timeout g.ros2_services) _ b2
            (create_service_bridges-returns (ros2_services_direction ros gen timeout) _
              (reliable.ros2_services timeout) g.ros2_services _ u2 c2)
            (returned_bind (remove_ros1_services ros gen g.ros1_services)
              (λ _. remove_ros2_services ros gen (suc fuel) g.ros2_services) b3 refl
              (remove_obsolete_1_to_2-returns
                (λ (bridge : ServiceBridge1to2 ros). ros.shutdown bridge.server) fuel
                (λ name. contains name g.ros2_services) (removed b3).service_bridges_1_to_2
                (services_1_to_2 (removed b3)) (λ bridge. reliable.shuts_down bridge.server)))))
    where
      removed : Bridges ros → Bridges ros
      removed b = (remove_ros1_services ros gen g.ros1_services b).1

  -- With unique keys in what was seen, complete details of every service, and reliable
  -- middlewares, one round at each entry is fuel enough for `update_bridge` to return.
  pub update_bridge-returns :
      (fuel : ℕ) (b : Bridges ros)
      → HasUniqueKeys g.ros1_publishers
      → HasUniqueKeys g.ros2_publishers
      → HasUniqueKeys g.ros1_services
      → HasUniqueKeys g.ros2_services
      → AreComplete g.ros1_services
      → AreComplete g.ros2_services
      → (update_bridge ros gen (suc fuel) g b).0 ≡ ok tt
  unfolding update_bridge
  update_bridge-returns fuel b t1 t2 u1 u2 c1 c2 =
      returned_bind (update_topics ros gen g) _ b
        (update_topics_twice ros gen g b t1 t2 reliable.creates_1to2 reliable.creates_2to1).0
        (update_services-returns fuel _ u1 u2 c1 c2)
