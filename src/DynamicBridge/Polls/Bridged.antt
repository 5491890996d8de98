-- ===== src/DynamicBridge/Polls/Bridged.antt =====
-- From the answers of the ROS 1 master to the bridges that a poll leaves.
pub mod Ros2
use ros1_bridge.Prelude.{
  ℕ, String, ◌≡◌, refl, sym, ap, ◌∙◌, subst, if◌then◌else◌, Option, none, some, List,
}
use ros1_bridge.Prelude.Exec.{ok, ok_value, bind_returned, bind-eq_of_returned, ◌>>=◌, ◌>>◌}
use ros1_bridge.StdMap.{StdMap, find, IsAscending}
use ros1_bridge.StdMap.Order.{IsAscending-HasUniqueKeys}
use ros1_bridge.Ros.{Ros}
use ros1_bridge.Factory.Registry.{Generated, get_1to2_mapping, get_2to1_mapping}
use ros1_bridge.DynamicBridge.Services.{Details}
use ros1_bridge.DynamicBridge.ServiceInfo.{Network}
use ros1_bridge.DynamicBridge.Topics.Stability.{Creates}
use ros1_bridge.DynamicBridge.Update.{Seen, seen_1to2, seen_2to1}
use ros1_bridge.DynamicBridge.Update.Target.{View, view, target, target_1to2, target_2to1}
use ros1_bridge.DynamicBridge.Update.Runs.{update_bridge_refines}
use ros1_bridge.DynamicBridge.Polls.{SystemState, Master, Dynamic, on_world, modify}
use ros1_bridge.DynamicBridge.Polls.Ros1.{
  probe_part, current_ros1_topics, use_ros1_topics, use_system_state, ros1_poll, update,
  store_ros1_services, store_ros1_topics,
}
use ros1_bridge.DynamicBridge.Polls.WellFormed.{IsWellFormed, current_ros1_topics-AreAscending}
use ros1_bridge.DynamicBridge.Polls.Found.{last_type, or_else_string, current_ros1_topics_lem}
use ros1_bridge.DynamicBridge.Polls.Found.Active.{is_active}

module _ (ros : Ros) (gen : Generated) (net : Network ros.World) (master : Master ros.World)
    (fuel : ℕ) (state : SystemState) (topics : List (String × String)) where
  -- What the update reads after a poll with these answers, but for the services.
  abbrev pub seen_after : Dynamic ros → Seen
  seen_after d =
      (store_ros1_topics ros gen net master (current_ros1_topics net.node_name state topics) d).seen

  use_ros1_topics-target :
      (d : Dynamic ros)
      → IsAscending d.seen.ros2_publishers
      → Creates (seen_1to2 ros gen (seen_after d)) (seen_after d).ros1_publishers
      → Creates (seen_2to1 ros gen (seen_after d)) (seen_after d).ros2_publishers
      → view (use_ros1_topics ros gen net master fuel state (some topics) d).1.bridges
        ≡ target gen (seen_after d) (view d.bridges)
  unfolding use_ros1_topics update
  use_ros1_topics-target d h always1 always2 =
      update_bridge_refines ros gen fuel (seen_after d) d.bridges
        (IsAscending-HasUniqueKeys _
          (current_ros1_topics-AreAscending net.node_name state topics).0)
        (IsAscending-HasUniqueKeys _ h) always1 always2

  use_system_state-target :
      (d : Dynamic ros)
      → IsAscending d.seen.ros2_publishers
      → ((v : ros.World) → (master.get_topics v).0 ≡ ok (some topics))
      → Creates (seen_1to2 ros gen (seen_after d)) (seen_after d).ros1_publishers
      → Creates (seen_2to1 ros gen (seen_after d)) (seen_after d).ros2_publishers
      → (use_system_state ros gen net master fuel (some state) d).0 ≡ ok tt
      → view (use_system_state ros gen net master fuel (some state) d).1.bridges
        ≡ target gen (seen_after d) (view d.bridges)
  unfolding use_system_state
  use_system_state-target d h answers always1 always2 returned =
      let probe = on_world (probe_part net state.services) in
      let (services, found, rest) = bind_returned probe _ d returned in
      let there = store_ros1_services ros gen net master services (probe d).1 in
      let go_on = use_ros1_topics ros gen net master fuel state in
      let (listed, got, last) =
        bind_returned (on_world master.get_topics) go_on there
          (sym (ap (λ r. r.0) rest) ∙ returned) in
      let after = (on_world master.get_topics there).1 in
      let same : listed ≡ some topics = ok_value (sym got ∙ answers there.bridges.world) in
      ap (λ r. view r.1.bridges) (rest ∙ last ∙ ap (λ l. go_on l after) same)
      ∙ use_ros1_topics-target after h always1 always2

  -- Where the ROS 1 master answers with a state and, whenever it is asked, with the same topics, the
  -- stored state is well formed, the calls for all bridges that are wanted then return in every
  -- state of the middlewares, and the poll of ROS 1 returns: each topic is bridged afterwards with
  -- the types that its target gives. From ROS 1 to 2 this is the target for the last type that the
  -- master lists, where a node other than the bridge publishes the topic, and for what was stored of
  -- the subscribers in ROS 2; from ROS 2 to 1 the target for what was stored of the publishers in
  -- ROS 2, and for the last type listed, or the empty text, where a node other than the bridge
  -- subscribes to the topic.
  pub ros1_poll_bridges :
      (d : Dynamic ros) (t : String)
      → IsWellFormed d
      → (master.get_system_state d.bridges.world).0 ≡ ok (some state)
      → ((v : ros.World) → (master.get_topics v).0 ≡ ok (some topics))
      → Creates (seen_1to2 ros gen (seen_after d)) (seen_after d).ros1_publishers
      → Creates (seen_2to1 ros gen (seen_after d)) (seen_after d).ros2_publishers
      → (ros1_poll ros gen net master fuel d).0 ≡ ok tt
      → ((view (ros1_poll ros gen net master fuel d).1.bridges).one_to_two t
          ≡ target_1to2 d.seen.bridge_all_1to2_topics
              (get_1to2_mapping gen)
              (if is_active net.node_name t state.publishers then last_type t topics else none)
              (find t d.seen.ros2_subscribers)
              ((view d.bridges).one_to_two t))
        × ((view (ros1_poll ros gen net master fuel d).1.bridges).two_to_one t
            ≡ target_2to1 d.seen.bridge_all_2to1_topics
                (get_2to1_mapping gen)
                (find t d.seen.ros2_publishers)
                (if is_active net.node_name t state.subscribers
                  then or_else_string (last_type t topics) (some "")
                  else none)
                ((view d.bridges).two_to_one t))
  unfolding ros1_poll
  ros1_poll_bridges d t h given answers always1 always2 returned =
      let ask = on_world master.get_system_state in
      let go_on = use_system_state ros gen net master fuel in
      let step = bind-eq_of_returned ask go_on d given in
      let reached =
        ap (λ r. view r.1.bridges) step
        ∙ use_system_state-target (ask d).1 h.ros2_publishers answers always1 always2
            (sym (ap (λ r. r.0) step) ∙ returned) in
      let found = current_ros1_topics_lem net.node_name t state topics in
      (
        ap (λ v. v.one_to_two t) reached
            ∙ ap
                (λ p.
                  target_1to2 d.seen.bridge_all_1to2_topics (get_1to2_mapping gen) p
                    (find t d.seen.ros2_subscribers) ((view d.bridges).one_to_two t))
                found.0,
        ap (λ v. v.two_to_one t) reached
            ∙ ap
                (λ p.
                  target_2to1 d.seen.bridge_all_2to1_topics (get_2to1_mapping gen)
                    (find t d.seen.ros2_publishers) p ((view d.bridges).two_to_one t))
                found.1,
      )
