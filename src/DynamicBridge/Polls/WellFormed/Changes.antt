-- ===== src/DynamicBridge/Polls/WellFormed/Changes.antt =====
-- The changes that the polls make to what is stored keep it well formed.
use ros1_bridge.StdMap.{StdMap, IsAscending}
use ros1_bridge.Ros.{Ros}
use ros1_bridge.DynamicBridge.Services.{Details}
use ros1_bridge.DynamicBridge.Polls.{Dynamic, Topics, Ros2Topics, Ros2Services}
use ros1_bridge.DynamicBridge.Polls.WellFormed.{IsWellFormed, AreAscending}

module _ {ros : Ros} (s : Dynamic ros) (h : IsWellFormed s) where
  pub world-IsWellFormed :
      (w : ros.World) → IsWellFormed (record s { bridges = record (s.bridges) { world = w } })
  world-IsWellFormed w = record {
    ros1_publishers = h.ros1_publishers;
    ros1_subscribers = h.ros1_subscribers;
    ros2_publishers = h.ros2_publishers;
    ros2_subscribers = h.ros2_subscribers;
    ros1_services = h.ros1_services;
    ros2_services = h.ros2_services;
    one_way = h.one_way;
  }

  pub ros1_services-IsWellFormed :
      (services : StdMap Details)
      → IsAscending services
      → IsWellFormed (record s { seen = record (s.seen) { ros1_services = services } })
  ros1_services-IsWellFormed services a = record {
    ros1_publishers = h.ros1_publishers;
    ros1_subscribers = h.ros1_subscribers;
    ros2_publishers = h.ros2_publishers;
    ros2_subscribers = h.ros2_subscribers;
    ros1_services = a;
    ros2_services = h.ros2_services;
    one_way = h.one_way;
  }

  pub ros1_topics-IsWellFormed :
      (topics : Topics)
      → AreAscending topics
      → IsWellFormed (record s {
        seen = record (s.seen) {
          ros1_publishers = topics.publishers;
          ros1_subscribers = topics.subscribers;
        };
      })
  ros1_topics-IsWellFormed topics a = record {
    ros1_publishers = a.0;
    ros1_subscribers = a.1;
    ros2_publishers = h.ros2_publishers;
    ros2_subscribers = h.ros2_subscribers;
    ros1_services = h.ros1_services;
    ros2_services = h.ros2_services;
    one_way = h.one_way;
  }

  pub ros2_services-IsWellFormed :
      (found : Ros2Services)
      → IsAscending found.services
      → IsWellFormed (record s {
        seen = record (s.seen) { ros2_services = found.services };
        already_ignored_services = found.ignored;
      })
  ros2_services-IsWellFormed found a = record {
    ros1_publishers = h.ros1_publishers;
    ros1_subscribers = h.ros1_subscribers;
    ros2_publishers = h.ros2_publishers;
    ros2_subscribers = h.ros2_subscribers;
    ros1_services = h.ros1_services;
    ros2_services = a;
    one_way = h.one_way;
  }

  pub ros2_topics-IsWellFormed :
      (found : Ros2Topics)
      → AreAscending found.topics
      → IsWellFormed (record s {
        seen = record (s.seen) {
          ros2_publishers = found.topics.publishers;
          ros2_subscribers = found.topics.subscribers;
        };
        already_ignored_topics = found.ignored;
      })
  ros2_topics-IsWellFormed found a = record {
    ros1_publishers = h.ros1_publishers;
    ros1_subscribers = h.ros1_subscribers;
    ros2_publishers = a.0;
    ros2_subscribers = a.1;
    ros1_services = h.ros1_services;
    ros2_services = h.ros2_services;
    one_way = h.one_way;
  }
