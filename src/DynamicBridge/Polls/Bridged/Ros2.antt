-- ===== src/DynamicBridge/Polls/Bridged/Ros2.antt =====
-- From the answers of the ROS 2 graph to the bridges that a poll leaves.
use ros1_bridge.Prelude.{ℕ, ◌-◌, String, ◌≡◌, sym, ap, subst, ◌∙◌, List, []}
use ros1_bridge.Prelude.Exec.{Ensures, ok, bind_returned, bind-eq_of_returned}
use ros1_bridge.StdMap.{StdMap, find, contains, HasUniqueKeys}
use ros1_bridge.StdMap.Order.{IsAscending-HasUniqueKeys}
use ros1_bridge.Ros.{Ros}
use ros1_bridge.Factory.Registry.{Generated, get_1to2_mapping, get_2to1_mapping}
use ros1_bridge.DynamicBridge.Topics.Stability.{Creates}
use ros1_bridge.DynamicBridge.Update.{Seen, seen_1to2, seen_2to1}
use ros1_bridge.DynamicBridge.Update.Target.{view, target, target_1to2, target_2to1}
use ros1_bridge.DynamicBridge.Update.Runs.{update_bridge_refines}
use ros1_bridge.DynamicBridge.Polls.{Graph, Dynamic, Ros2Topics}
use ros1_bridge.DynamicBridge.Polls.Ros2.{
  poll_ros2_topics, poll_ros2_services, ros2_poll, store_ros2_topics, store_ros2_services,
}
use ros1_bridge.DynamicBridge.Polls.WellFormed.{IsWellFormed, AreAscending}
use ros1_bridge.DynamicBridge.Polls.Invariant.Ros2.{poll_ros2_topics-AreAscending}
use ros1_bridge.DynamicBridge.Polls.Found.{Counts, own_ends, reported, collect_ros2_topics_lem}

module _ (ros : Ros) (gen : Generated) (graph : Graph ros.World) (fuel : ℕ)
    (found : Ros2Topics) where
  -- What the update reads after a poll that has found these topics, but for the services.
  abbrev pub seen_after : Dynamic ros → Seen
  seen_after d = (store_ros2_topics ros gen graph found d).seen

  ros2_poll-target :
      (d : Dynamic ros)
      → IsWellFormed d
      → (poll_ros2_topics ros gen graph d).0 ≡ ok found
      → Creates (seen_1to2 ros gen (seen_after d)) (seen_after d).ros1_publishers
      → Creates (seen_2to1 ros gen (seen_after d)) (seen_after d).ros2_publishers
      → (ros2_poll ros gen graph fuel d).0 ≡ ok tt
      → view (ros2_poll ros gen graph fuel d).1.bridges ≡ target gen (seen_after d) (view d.bridges)
  unfolding ros2_poll poll_ros2_topics poll_ros2_services
  ros2_poll-target d h given always1 always2 returned =
      let step = bind-eq_of_returned (poll_ros2_topics ros gen graph) _ d given in
      let d1 = (poll_ros2_topics ros gen graph d).1 in
      let (services, _, last) =
        bind_returned (poll_ros2_services ros gen graph) _ d1
          (sym (ap (λ r. r.0) step) ∙ returned) in
      let d2 = (poll_ros2_services ros gen graph d1).1 in
      let now =
        store_ros2_topics ros gen graph found (store_ros2_services ros gen graph services d2) in
      let ascending : AreAscending found.topics =
        subst (Ensures (λ r. AreAscending r.topics)) given
          (poll_ros2_topics-AreAscending ros gen graph fuel d) in
      ap (λ r. view r.1.bridges) (step ∙ last)
      ∙ update_bridge_refines ros gen fuel now.seen now.bridges
          (IsAscending-HasUniqueKeys _ h.ros1_publishers) (IsAscending-HasUniqueKeys _ ascending.0)
          always1 always2

  -- Where the ROS 2 graph lists topics with unique names and gives for each the same two counts in
  -- every state, the stored state is well formed, the loop over the topics returns what it found, the
  -- calls for all bridges that are wanted then return in every state of the middlewares, and the
  -- poll of ROS 2 returns: each topic is bridged afterwards with the types that its target gives.
  -- From ROS 1 to 2 this is the target for what was stored of the publishers in ROS 1 and for the
  -- type listed in ROS 2, where it is the only one, more than the bridge's own subscription
  -- subscribes, and the topic is not `parameter_events`; from ROS 2 to 1 the target for the type listed, on the same terms for the
  -- bridge's own publisher, and for what was stored of the subscribers in ROS 1.
  pub ros2_poll_bridges :
      (d : Dynamic ros) (t : String) (listed : StdMap (List String))
      (publishers subscribers : String → ℕ)
      → IsWellFormed d
      → (graph.get_topic_names_and_types d.bridges.world).0 ≡ ok listed
      → HasUniqueKeys listed
      → Counts graph publishers subscribers
      → (poll_ros2_topics ros gen graph d).0 ≡ ok found
      → Creates (seen_1to2 ros gen (seen_after d)) (seen_after d).ros1_publishers
      → Creates (seen_2to1 ros gen (seen_after d)) (seen_after d).ros2_publishers
      → (ros2_poll ros gen graph fuel d).0 ≡ ok tt
      → ((view (ros2_poll ros gen graph fuel d).1.bridges).one_to_two t
          ≡ target_1to2 d.seen.bridge_all_1to2_topics
              (get_1to2_mapping gen)
              (find t d.seen.ros1_publishers)
              (reported (subscribers t - own_ends (contains t d.bridges.bridges_2to1)) t listed)
              ((view d.bridges).one_to_two t))
        × ((view (ros2_poll ros gen graph fuel d).1.bridges).two_to_one t
            ≡ target_2to1 d.seen.bridge_all_2to1_topics
                (get_2to1_mapping gen)
                (reported (publishers t - own_ends (contains t d.bridges.bridges_1to2)) t listed)
                (find t d.seen.ros1_subscribers)
                ((view d.bridges).two_to_one t))
  unfolding poll_ros2_topics
  ros2_poll_bridges d t listed publishers subscribers h lists unique counts given always1 always2
        returned =
      let reached = ros2_poll-target d h given always1 always2 returned in
      let asked = bind-eq_of_returned graph.get_topic_names_and_types _ d.bridges.world lists in
      let start : Ros2Topics = record {
        topics = record { publishers = []; subscribers = [] };
        ignored = d.already_ignored_topics;
      } in
      let (p, s) =
        collect_ros2_topics_lem graph publishers subscribers
          (λ topic. contains topic d.bridges.bridges_1to2)
          (λ topic. contains topic d.bridges.bridges_2to1) listed t d.already_ignored_topics found _
          counts unique (sym (ap (λ r. r.0) asked) ∙ given) in
      (
        ap (λ v. v.one_to_two t) reached
            ∙ ap
                (λ x.
                  target_1to2 d.seen.bridge_all_1to2_topics (get_1to2_mapping gen)
                    (find t d.seen.ros1_publishers) x ((view d.bridges).one_to_two t))
                s,
        ap (λ v. v.two_to_one t) reached
            ∙ ap
                (λ x.
                  target_2to1 d.seen.bridge_all_2to1_topics (get_2to1_mapping gen) x
                    (find t d.seen.ros1_subscribers) ((view d.bridges).two_to_one t))
                p,
      )
