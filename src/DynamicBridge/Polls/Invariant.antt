-- ===== src/DynamicBridge/Polls/Invariant.antt =====
-- What a poll finds has ascending keys, and the update that follows keeps every service bridged one
-- way at most.
pub mod Ros1
pub mod Ros2
use ros1_bridge.Prelude.{
  ℕ, String, Bool, ◌==◌, Option, none, some, List, [], ◌∷◌, Bool-cases, inl, inr,
}
use ros1_bridge.Prelude.Exec.{
  Exec, Ensures, Ensures-any, Ensures-and_then, and_then_keeps, and_then_uses, ◌>>=◌, ◌>>◌,
}
use ros1_bridge.StdMap.{StdMap, IsAscending, insert}
use ros1_bridge.Ros.{Ros}
use ros1_bridge.Factory.Registry.{Generated}
use ros1_bridge.DynamicBridge.Services.{Details}
use ros1_bridge.DynamicBridge.ServiceInfo.{Network, get_ros1_service_info}
use ros1_bridge.DynamicBridge.Update.{update_bridge}
use ros1_bridge.DynamicBridge.Update.Services.{update_bridge-IsOneWay}
use ros1_bridge.DynamicBridge.Polls.{
  SystemState, Master, Graph, Dynamic, Topics, Ros2Topics, Ros2Services, on_world, others,
}
use ros1_bridge.DynamicBridge.Polls.Ros1.{
  probe_services, probe_part, update, use_ros1_topics, use_system_state, ros1_poll,
}
use ros1_bridge.DynamicBridge.Polls.Ros2.{
  count_ros2_topic, collect_ros2_topics, poll_ros2_topics, poll_ros2_services, ros2_poll,
}
use ros1_bridge.DynamicBridge.Polls.WellFormed.{
  IsWellFormed, AreAscending, get_ros1_service_info-IsAscending, current_ros1_topics-AreAscending,
  note_ros2_topic-AreAscending, collect_ros2_services-IsAscending,
}
use ros1_bridge.DynamicBridge.Polls.Ros1.{store_ros1_services}
use ros1_bridge.DynamicBridge.Polls.Ros2.{
  collect_service_names, store_ros2_services, store_ros2_topics,
}
use ros1_bridge.DynamicBridge.Polls.{modify}

pub update-IsWellFormed :
    (ros : Ros) (gen : Generated) (fuel : ℕ) (s : Dynamic ros)
    → IsWellFormed s
    → IsWellFormed (record s { bridges = (update_bridge ros gen fuel s.seen s.bridges).1 })
update-IsWellFormed ros gen fuel s h = record {
  ros1_publishers = h.ros1_publishers;
  ros1_subscribers = h.ros1_subscribers;
  ros2_publishers = h.ros2_publishers;
  ros2_subscribers = h.ros2_subscribers;
  ros1_services = h.ros1_services;
  ros2_services = h.ros2_services;
  one_way = update_bridge-IsOneWay ros gen fuel s.seen s.bridges h.one_way;
}
