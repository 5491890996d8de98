-- ===== src/DynamicBridge/Update/Runs.antt =====
-- One update after the other, each on what was seen at its time.
use ros1_bridge.Prelude.{ℕ, suc, ◌≡◌, refl, ap, ◌∙◌, List, [], ◌∷◌, All}
use ros1_bridge.Prelude.Exec.{Exec, ok, pure, ◌>>◌, and_then_keeps, bind-eq_of_returned}
use ros1_bridge.StdMap.{HasUniqueKeys}
use ros1_bridge.Ros.{Ros}
use ros1_bridge.Factory.Registry.{Generated}
use ros1_bridge.DynamicBridge.Topics.Stability.{Creates}
use ros1_bridge.DynamicBridge.Update.{
  Seen, Bridges, seen_1to2, seen_2to1, update_topics, update_services, update_bridge,
  bridge_ros1_services, bridge_ros2_services, read_timeout, remove_ros1_services,
  remove_ros2_services,
}
use ros1_bridge.DynamicBridge.Update.Returns.{AreComplete, IsReliable, update_bridge-returns}
use ros1_bridge.DynamicBridge.Update.Target.{View, view, target, update_topics_refines}

-- The conditions under which an update returns and reaches its target.
pub record IsServed (ros : Ros) (gen : Generated) (g : Seen) : Type 0 where
  pub reliable : IsReliable ros gen g
  pub ros1_publishers : HasUniqueKeys g.ros1_publishers
  pub ros2_publishers : HasUniqueKeys g.ros2_publishers
  pub ros1_services : HasUniqueKeys g.ros1_services
  pub ros2_services : HasUniqueKeys g.ros2_services
  pub ros1_complete : AreComplete g.ros1_services
  pub ros2_complete : AreComplete g.ros2_services

module _ (ros : Ros) (gen : Generated) (fuel : ℕ) where
  -- The service part leaves the topic bridges alone.
  update_services-view :
      (g : Seen) (b : Bridges ros) → view (update_services ros gen fuel g b).1 ≡ view b
  unfolding update_services bridge_ros1_services bridge_ros2_services read_timeout
      remove_ros1_services remove_ros2_services
  update_services-view g b =
      let same = λ (c : Bridges ros). view c ≡ view b in
      and_then_keeps same (bridge_ros1_services ros gen g.ros1_services b) _ refl λ _.
        and_then_keeps same (read_timeout ros gen _) _ refl λ timeout.
          and_then_keeps same (bridge_ros2_services ros gen timeout g.ros2_services _) _ refl
            λ _. refl

  pub update_bridge_refines :
      (g : Seen) (b : Bridges ros)
      → HasUniqueKeys g.ros1_publishers
      → HasUniqueKeys g.ros2_publishers
      → Creates (seen_1to2 ros gen g) g.ros1_publishers
      → Creates (seen_2to1 ros gen g) g.ros2_publishers
      → view (update_bridge ros gen fuel g b).1 ≡ target gen g (view b)
  unfolding update_bridge
  update_bridge_refines g b u1 u2 always1 always2 =
      let topics = update_topics_refines ros gen g b u1 u2 always1 always2 in
      and_then_keeps (λ (c : Bridges ros). view c ≡ target gen g (view b))
        (update_topics ros gen g b) _ topics λ _. update_services-view g _ ∙ topics

  -- The updates for the given sights, one after the other.
  unfoldable pub update_all : List Seen → Exec (Bridges ros) (Unit {0})
  update_all [] = pure tt
  update_all (g ∷ gs) = do update_bridge ros gen fuel g; update_all gs

abbrev pub replay : Generated → List Seen → View → View
replay gen [] v = v
replay gen (g ∷ gs) v = replay gen gs (target gen g v)

-- Where each of the updates has reliable middlewares, unique keys and complete details in what
-- was seen, a run of updates with one round of fuel or more returns, and takes the abstract view
-- of the topic bridges to the replay of the targets.
pub update_all_refines :
    (ros : Ros) (gen : Generated) (fuel : ℕ) (gs : List Seen) (b : Bridges ros)
    → All (IsServed ros gen) gs
    → ((update_all ros gen (suc fuel) gs b).0 ≡ ok tt)
      × (view (update_all ros gen (suc fuel) gs b).1 ≡ replay gen gs (view b))
unfolding update_all
update_all_refines ros gen fuel [] b served = (refl, refl)
update_all_refines ros gen fuel (g ∷ gs) b (served, later) =
    let first = update_bridge ros gen (suc fuel) g in
    let returned =
      update_bridge-returns ros gen g served.reliable fuel b served.ros1_publishers
        served.ros2_publishers served.ros1_services served.ros2_services served.ros1_complete
        served.ros2_complete in
    let rest = update_all_refines ros gen fuel gs (first b).1 later in
    let step = bind-eq_of_returned first (λ _. update_all ros gen (suc fuel) gs) b returned in
    rw step (
      rest.0,
      rest.1
          ∙ ap (replay gen gs) (
              update_bridge_refines ros gen (suc fuel) g b served.ros1_publishers
                served.ros2_publishers served.reliable.creates_1to2 served.reliable.creates_2to1),
    )
