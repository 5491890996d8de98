-- ===== src/Tests/Interleavings.antt =====
-- The theorems on interleaved polls, applied.
use ros1_bridge.Prelude.{ℕ, refl, false, none, some, [], ◌∷◌}
use ros1_bridge.Prelude.Exec.{pure}
use ros1_bridge.DynamicBridge.Polls.{
  Master, Graph, SystemState, Topics, Ros2Topics, Ros2Services, active_part, active_topics,
  collect_ros1_topics, add_untyped, collect_ros2_services,
}
use ros1_bridge.DynamicBridge.Polls.Ros1.{probe_part, probe_services, current_ros1_topics}
use ros1_bridge.DynamicBridge.Polls.Ros2.{
  poll_ros2_topics, poll_ros2_services, collect_ros2_topics, collect_service_names,
}
use ros1_bridge.DynamicBridge.Interleaving.{
  Ros1At, Ros2At, Threads, initial, Ros1Move, Ros2Move, Step, Steps,
}
use ros1_bridge.DynamicBridge.Interleaving.Consistency.{IsConsistent, interleaved-IsConsistent}
use ros1_bridge.Tests.{sim, gen}
use ros1_bridge.Tests.Polls.{net}

-- Two middlewares on which only a client of a service is there.
abbrev quiet_state : SystemState
quiet_state = record { publishers = some []; subscribers = some []; services = some (none ∷ []) }

abbrev quiet_master : Master ℕ
quiet_master = record { get_system_state = pure (some quiet_state); get_topics = pure (some []) }

abbrev quiet_graph : Graph ℕ
quiet_graph = record {
  name = "ros_bridge";
  namespace = "/";
  get_topic_names_and_types = pure [];
  count_publishers = λ topic. pure 0;
  count_subscribers = λ topic. pure 0;
  get_node_names_and_namespaces = pure [];
  get_service_names_and_types_by_node = λ name namespace. pure [];
  get_service_names_and_types = pure [];
}

abbrev start : Threads sim
start = record { dynamic = initial sim false false 0; ros1 = Ros1At.idle; ros2 = Ros2At.idle }

abbrev no_topics : Topics
no_topics = record { publishers = []; subscribers = [] }

abbrev no_ros2_topics : Ros2Topics
no_ros2_topics = record { topics = no_topics; ignored = [] }

abbrev no_ros2_services : Ros2Services
no_ros2_services = record { services = []; ignored = [] }

-- `ros2_poll` collects and stores its services while `ros1_poll` is between its two stores.
abbrev end : Threads sim
end = record {
  dynamic = initial sim false false 0;
  ros1 = Ros1At.listed [] no_topics;
  ros2 = Ros2At.services_stored no_ros2_services no_ros2_topics;
}

interleaving : Steps sim gen net quiet_master quiet_graph 1 start end
unfolding initial probe_part probe_services current_ros1_topics active_part active_topics
    collect_ros1_topics add_untyped poll_ros2_topics poll_ros2_services collect_ros2_topics
    collect_service_names collect_ros2_services
interleaving =
    let begins : Step sim gen net quiet_master quiet_graph 1 start _ =
      Step.ros1_moves (Ros1Move.probes 0 0 quiet_state [] refl refl) in
    let stores = Step.ros1_moves (Ros1Move.stores_services quiet_state []) in
    let collects = Step.ros2_moves (
      Ros2Move.collects (initial sim false false 0).bridges 0 no_ros2_services no_ros2_topics refl
        refl) in
    let stores2 = Step.ros2_moves (Ros2Move.stores_services no_ros2_services no_ros2_topics) in
    let lists = Step.ros1_moves (Ros1Move.lists quiet_state [] 0 [] refl) in
    Steps.later
      (Steps.later (Steps.later (Steps.later (Steps.later Steps.done begins) stores) collects)
        stores2)
      lists

interleaved-IsConsistent_example : IsConsistent end
interleaved-IsConsistent_example =
    interleaved-IsConsistent sim gen net quiet_master quiet_graph 1 false false 0 end interleaving
