-- ===== src/DynamicBridge/Polls/Ros2.antt =====
-- `ros2_poll` in src/dynamic_bridge.cpp.
use ros1_bridge.Prelude.{ℕ, String, Bool, ◌&&◌, ◌==◌, if◌then◌else◌, List, [], ◌∷◌}
use ros1_bridge.Prelude.Exec.{Exec, undefined, pure, raise, ◌>>=◌, ◌>>◌}
use ros1_bridge.StdMap.{StdMap, contains, insert}
use ros1_bridge.Ros.{Ros}
use ros1_bridge.Factory.Registry.{Generated}
use ros1_bridge.DynamicBridge.Update.{update_bridge}
use ros1_bridge.DynamicBridge.Polls.{
  StdSet, Graph, Dynamic, Topics, Ros2Topics, Ros2Services, others, note_ros2_topic,
  collect_ros2_services, insert_all, on_world, on_bridges, modify,
}

module _ {World : Type 0} (graph : Graph World) where
  -- One topic with a single type: the two counts, without the bridge's own ends.
  unfoldable pub count_ros2_topic : Bool → Bool → String → String → Topics → Exec World Topics
  count_ros2_topic own_publisher own_subscriber topic type found = do
    publisher_count ← graph.count_publishers topic
    subscriber_count ← graph.count_subscribers topic
    pure (
        note_ros2_topic topic type (others own_publisher publisher_count)
          (others own_subscriber subscriber_count) found)

  -- The loop over the topics; `published` and `subscribed` tell for which topics the bridge has a
  -- publisher or a subscriber in ROS 2.
  unfoldable pub collect_ros2_topics :
      (String → Bool) → (String → Bool) → StdMap (List String) → Ros2Topics → Exec World Ros2Topics
  collect_ros2_topics published subscribed [] found = pure found
  collect_ros2_topics published subscribed ((topic, types) ∷ rest) found =
      let go_on = collect_ros2_topics published subscribed rest in
      if topic == "parameter_events" then go_on found else elim types [
        | [] ↦ raise undefined
        | type ∷ more ↦ elim more [
          | [] ↦ do
            topics ← count_ros2_topic (published topic) (subscribed topic) topic type found.topics
            go_on (record found { topics = topics })
          | _ ∷ _ ↦ go_on (record found { ignored = insert topic tt found.ignored })
        ]
      ]

  -- The services of every node but the bridge.
  unfoldable pub collect_service_names : List (String × String) → StdSet → Exec World StdSet
  collect_service_names [] names = pure names
  collect_service_names ((name, namespace) ∷ rest) names =
      let go_on = collect_service_names rest in
      if name == graph.name && namespace == graph.namespace then go_on names else do
        services ← graph.get_service_names_and_types_by_node name namespace
        go_on (insert_all services names)

module _ (ros : Ros) (gen : Generated) (graph : Graph ros.World) where
  abbrev pub store_ros2_services : Ros2Services → Dynamic ros → Dynamic ros
  store_ros2_services found s = record s {
    seen = record (s.seen) { ros2_services = found.services };
    already_ignored_services = found.ignored;
  }

  abbrev pub store_ros2_topics : Ros2Topics → Dynamic ros → Dynamic ros
  store_ros2_topics found s = record s {
    seen = record (s.seen) {
      ros2_publishers = found.topics.publishers;
      ros2_subscribers = found.topics.subscribers;
    };
    already_ignored_topics = found.ignored;
  }

  unfoldable pub poll_ros2_topics : Exec (Dynamic ros) Ros2Topics
  poll_ros2_topics s =
      on_world
        (do
          topics ← graph.get_topic_names_and_types
          collect_ros2_topics graph (λ topic. contains topic s.bridges.bridges_1to2)
              (λ topic. contains topic s.bridges.bridges_2to1) topics
              (record {
                topics = record { publishers = []; subscribers = [] };
                ignored = s.already_ignored_topics;
              }))
        s

  unfoldable pub poll_ros2_services : Exec (Dynamic ros) Ros2Services
  poll_ros2_services s =
      on_world
        (do
          nodes ← graph.get_node_names_and_namespaces
          names ← collect_service_names graph nodes []
          services ← graph.get_service_names_and_types
          collect_ros2_services names services
              (record { services = []; ignored = s.already_ignored_services }))
        s

  unfoldable pub ros2_poll : ℕ → Exec (Dynamic ros) (Unit {0})
  ros2_poll fuel = do
    topics ← poll_ros2_topics
    services ← poll_ros2_services
    modify (store_ros2_services services)
    modify (store_ros2_topics topics)
    λ s. on_bridges (update_bridge ros gen fuel s.seen) s
