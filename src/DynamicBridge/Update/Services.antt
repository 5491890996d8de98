-- ===== src/DynamicBridge/Update/Services.antt =====
-- What `update_bridge` does to the service bridges.
use ros1_bridge.Prelude.{
  ℕ, String, ◌≡◌, sym, ◌∙◌, ap, true, none, arith, is_some, inl, inr, Option-cases,
}
use ros1_bridge.Prelude.Exec.{and_then_keeps}
use mathlib.Core.Bool.{false≢true}
use ros1_bridge.Prelude.Int.{ℤ}
use ros1_bridge.StdMap.{StdMap, find, contains}
use ros1_bridge.Ros.{Ros}
use ros1_bridge.Factory.Registry.{Generated}
use ros1_bridge.DynamicBridge.Topics.{create_bridges}
use ros1_bridge.DynamicBridge.Services.{Details}
use ros1_bridge.DynamicBridge.Services.Outcome.{create_service_bridges_back}
use ros1_bridge.DynamicBridge.Services.Removal.{
  remove_obsolete_2_to_1_lem, remove_obsolete_1_to_2_shrinks,
}
use ros1_bridge.DynamicBridge.Update.{
  Seen, Bridges, seen_1to2, seen_2to1, update_topics, update_services, update_bridge,
  on_topics_1to2, on_topics_2to1, bridge_ros1_services, bridge_ros2_services, read_timeout,
  remove_ros1_services, remove_ros2_services, ros1_services_direction, ros2_services_direction,
  services_1_to_2, services_2_to_1,
}

-- No service has a bridge in both directions.
abbrev pub IsOneWay : {ros : Ros} → Bridges ros → Type 0
IsOneWay b =
    (name : String)
    → contains name b.service_bridges_1_to_2 ≡ true
    → find name b.service_bridges_2_to_1 ≡ none

module _ (ros : Ros) (gen : Generated) where
  bridge_ros1_services-IsOneWay :
      (services : StdMap Details) (b : Bridges ros)
      → IsOneWay b
      → IsOneWay (bridge_ros1_services ros gen services b).1
  unfolding bridge_ros1_services
  bridge_ros1_services-IsOneWay services b one_way name h =
      create_service_bridges_back (ros1_services_direction ros gen)
        (λ n. contains n b.service_bridges_1_to_2) services name (services_2_to_1 b) h
      ∙ one_way name h

  bridge_ros2_services-IsOneWay :
      (timeout : ℤ) (services : StdMap Details) (b : Bridges ros)
      → IsOneWay b
      → IsOneWay (bridge_ros2_services ros gen timeout services b).1
  unfolding bridge_ros2_services
  bridge_ros2_services-IsOneWay timeout services b one_way name h =
      elim (Option-cases (find name b.service_bridges_2_to_1)) [
        | inl e ↦ e
        | inr (_, e) ↦ one_way name (
            ap is_some (
              sym (
                create_service_bridges_back (ros2_services_direction ros gen timeout)
                  (λ n. contains n b.service_bridges_2_to_1) services name (services_1_to_2 b)
                  (rw e)))
            ∙ h)
      ]

  remove_ros1_services-IsOneWay :
      (services : StdMap Details) (b : Bridges ros)
      → IsOneWay b
      → IsOneWay (remove_ros1_services ros gen services b).1
  unfolding remove_ros1_services
  remove_ros1_services-IsOneWay services b one_way name h = ground (
    arith,
    one_way name h,
    remove_obsolete_2_to_1_lem (λ n. contains n services) b.service_bridges_2_to_1 name
        (services_2_to_1 b),
  )

  remove_ros2_services-IsOneWay :
      (fuel : ℕ) (services : StdMap Details) (b : Bridges ros)
      → IsOneWay b
      → IsOneWay (remove_ros2_services ros gen fuel services b).1
  unfolding remove_ros2_services
  remove_ros2_services-IsOneWay fuel services b one_way name h =
      elim (Option-cases (find name b.service_bridges_1_to_2)) [
        | inl e ↦ absurd (
            false≢true (
              ap is_some (
                sym (
                  remove_obsolete_1_to_2_shrinks (λ bridge. ros.shutdown bridge.server) fuel
                    (λ n. contains n services) b.service_bridges_1_to_2 name (services_1_to_2 b) e))
              ∙ h))
        | inr (_, e) ↦ one_way name (rw e)
      ]

  update_topics-IsOneWay :
      (g : Seen) (b : Bridges ros) → IsOneWay b → IsOneWay (update_topics ros gen g b).1
  unfolding update_topics
  update_topics-IsOneWay g b h =
      and_then_keeps IsOneWay
        (on_topics_1to2 (create_bridges (seen_1to2 ros gen g) g.ros1_publishers) b) _ h
        λ _.
          and_then_keeps IsOneWay
            (on_topics_2to1 (create_bridges (seen_2to1 ros gen g) g.ros2_publishers) _) _ h λ _. h

  update_services-IsOneWay :
      (fuel : ℕ) (g : Seen) (b : Bridges ros)
      → IsOneWay b
      → IsOneWay (update_services ros gen fuel g b).1
  unfolding update_services
  update_services-IsOneWay fuel g b h =
      let h1 = bridge_ros1_services-IsOneWay g.ros1_services b h in
      and_then_keeps IsOneWay (bridge_ros1_services ros gen g.ros1_services b) _ h1 λ _.
        and_then_keeps IsOneWay (read_timeout ros gen _) _ (timed _ h1) λ timeout.
          let h2 = bridge_ros2_services-IsOneWay timeout g.ros2_services _ (timed _ h1) in
          and_then_keeps IsOneWay (bridge_ros2_services ros gen timeout g.ros2_services _) _ h2 λ _.
            let h3 = remove_ros1_services-IsOneWay g.ros1_services _ h2 in
            and_then_keeps IsOneWay (remove_ros1_services ros gen g.ros1_services _) _ h3
              λ _. remove_ros2_services-IsOneWay fuel g.ros2_services _ h3
    where
      timed : (c : Bridges ros) → IsOneWay c → IsOneWay (read_timeout ros gen c).1
      timed c k = unfold read_timeout in k

  -- Where no service has a bridge in both directions, none has after an update, with any fuel and
  -- however the update ends.
  pub update_bridge-IsOneWay :
      (fuel : ℕ) (g : Seen) (b : Bridges ros)
      → IsOneWay b
      → IsOneWay (update_bridge ros gen fuel g b).1
  unfolding update_bridge
  update_bridge-IsOneWay fuel g b h =
      let h1 = update_topics-IsOneWay g b h in
      and_then_keeps IsOneWay (update_topics ros gen g b) _ h1
        λ _. update_services-IsOneWay fuel g _ h1
