-- ===== src/DynamicBridge/Polls/Invariant/Ros2.antt =====
-- What a poll of ROS 2 finds has ascending keys.
use ros1_bridge.Prelude.{ℕ, String, Bool, ◌==◌, List, [], ◌∷◌, Bool-cases, inl, inr}
use ros1_bridge.Prelude.Exec.{Ensures, Ensures-any, Ensures-and_then}
use ros1_bridge.StdMap.{StdMap, IsAscending, insert}
use ros1_bridge.Ros.{Ros}
use ros1_bridge.Factory.Registry.{Generated}
use ros1_bridge.DynamicBridge.Polls.{Graph, Dynamic, Topics, Ros2Topics, others}
use ros1_bridge.DynamicBridge.Polls.Ros2.{
  count_ros2_topic, collect_ros2_topics, poll_ros2_topics, poll_ros2_services,
}
use ros1_bridge.DynamicBridge.Polls.WellFormed.{
  AreAscending, note_ros2_topic-AreAscending, collect_ros2_services-IsAscending,
}
use ros1_bridge.DynamicBridge.Polls.Ros2.{collect_service_names}

module _ {World : Type 0} (graph : Graph World) where
  count_ros2_topic-AreAscending :
      (p s : Bool) (topic type : String) (found : Topics) (w : World)
      → AreAscending found
      → Ensures AreAscending (count_ros2_topic graph p s topic type found w).0
  unfolding count_ros2_topic
  count_ros2_topic-AreAscending p s topic type found w h =
      Ensures-and_then (λ _. Unit {0}) AreAscending (graph.count_publishers topic w) _
        (Ensures-any _)
        λ pn _.
          Ensures-and_then (λ _. Unit {0}) AreAscending (graph.count_subscribers topic _) _
            (Ensures-any _)
            λ sn _. note_ros2_topic-AreAscending topic type (others p pn) (others s sn) found h

  collect_ros2_topics-AreAscending :
      (p s : String → Bool) (topics : StdMap (List String)) (found : Ros2Topics) (w : World)
      → AreAscending found.topics
      → Ensures (λ r. AreAscending r.topics) (collect_ros2_topics graph p s topics found w).0
  unfolding collect_ros2_topics
  collect_ros2_topics-AreAscending p s [] found w h = h
  collect_ros2_topics-AreAscending p s ((topic, []) ∷ rest) found w h =
      elim (Bool-cases (topic == "parameter_events")) [
        | inl e ↦ rw e (collect_ros2_topics-AreAscending p s rest found w h)
        | inr e ↦ rw e tt
      ]
  collect_ros2_topics-AreAscending p s ((topic, type ∷ []) ∷ rest) found w h =
      elim (Bool-cases (topic == "parameter_events")) [
        | inl e ↦ rw e (collect_ros2_topics-AreAscending p s rest found w h)
        | inr e ↦ rw e (
            Ensures-and_then AreAscending (λ r. AreAscending r.topics) _ _
              (count_ros2_topic-AreAscending (p topic) (s topic) topic type found.topics w h)
              λ topics h'.
                collect_ros2_topics-AreAscending p s rest (record found { topics = topics }) _ h')
      ]
  collect_ros2_topics-AreAscending p s ((topic, type ∷ _ ∷ _) ∷ rest) found w h =
      elim (Bool-cases (topic == "parameter_events")) [
        | inl e ↦ rw e (collect_ros2_topics-AreAscending p s rest found w h)
        | inr e ↦ rw e (
            collect_ros2_topics-AreAscending p s rest
              (record found { ignored = insert topic tt found.ignored }) w h)
      ]

module _ (ros : Ros) (gen : Generated) (graph : Graph ros.World) (fuel : ℕ) where
  pub poll_ros2_topics-AreAscending :
      (s : Dynamic ros) → Ensures (λ r. AreAscending r.topics) (poll_ros2_topics ros gen graph s).0
  unfolding poll_ros2_topics
  poll_ros2_topics-AreAscending s =
      Ensures-and_then (λ _. Unit {0}) (λ r. AreAscending r.topics)
        (graph.get_topic_names_and_types s.bridges.world) _ (Ensures-any _)
        λ topics _. collect_ros2_topics-AreAscending graph _ _ topics _ _ (tt, tt)

  pub poll_ros2_services-IsAscending :
      (s : Dynamic ros)
      → Ensures (λ r. IsAscending r.services) (poll_ros2_services ros gen graph s).0
  unfolding poll_ros2_services
  poll_ros2_services-IsAscending s =
      Ensures-and_then (λ _. Unit {0}) (λ r. IsAscending r.services)
        (graph.get_node_names_and_namespaces s.bridges.world) _ (Ensures-any _)
        λ nodes _.
          Ensures-and_then (λ _. Unit {0}) (λ r. IsAscending r.services)
            (collect_service_names graph nodes [] _) _ (Ensures-any _)
            λ names _.
              Ensures-and_then (λ _. Unit {0}) (λ r. IsAscending r.services)
                (graph.get_service_names_and_types _) _ (Ensures-any _)
                λ services _. collect_ros2_services-IsAscending names services _ _ tt
