-- ===== src/Tests/Polls.antt =====
-- The theorems on the polls, applied.
use native.Mathlib.Decide.{ℕ_discrete}
use ros1_bridge.Prelude.{
  ℕ, ◌-◌, String, ◌≡◌, refl, none, some, [], ◌∷◌, if◌then◌else◌, true, false, string_discrete, List,
  arith, Option,
}
use ros1_bridge.Prelude.Exec.{ok, pure}
use ros1_bridge.Prelude.Int.{pos}
use ros1_bridge.StdMap.{StdMap, find, insert}
use ros1_bridge.DynamicBridge.ServiceInfo.{
  Network, get_ros1_service_info, probe, probe_at, with_transport, talk, read_response, read_body,
  check_response, store_response, store_header, store_type, bytes_of_u32, u32_of_bytes,
}
use ros1_bridge.Text.{find_slash, substr_to, substr_from}
use ros1_bridge.DynamicBridge.Services.{Details}
use ros1_bridge.DynamicBridge.ServiceInfo.Probe.{Answered}
use ros1_bridge.DynamicBridge.ServiceInfo.Outcome.{
  Probed, get_ros1_service_info-Probed, u32_of_bytes-bytes_of_u32,
}
use ros1_bridge.DynamicBridge.Polls.{Master, Graph, Dynamic, SystemState, Ros2Topics}
use ros1_bridge.DynamicBridge.Polls.Ros1.{current_ros1_topics}
use ros1_bridge.DynamicBridge.Polls.Ros2.{collect_ros2_topics, count_ros2_topic}
use ros1_bridge.DynamicBridge.Polls.WellFormed.{IsWellFormed}
use ros1_bridge.DynamicBridge.Polls.Found.{
  last_type, own_ends, reported, or_else_string, current_ros1_topics_lem, collect_ros2_topics_lem,
}
use ros1_bridge.DynamicBridge.Polls.Found.Active.{is_active}
use ros1_bridge.DynamicBridge.Polls.{others, note_ros2_topic}
use ros1_bridge.Tests.{sim, seen, no_bridges}

-- A service that answers a probe with its type.
abbrev pub net : Network ℕ
net = record {
  node_name = "/ros_bridge";
  lookup_service = λ name. pure (some ("host", 1));
  connect = λ host port. pure true;
  write = λ bytes. pure tt;
  read = λ count. pure (pos count, bytes_of_u32 4);
  close = pure tt;
  header_write = λ header. 0 ∷ [];
  header_parse = λ bytes. some (("type", "demo/Add") ∷ []);
}

abbrev add_details : StdMap Details
add_details = ("/add", ("name", "Add") ∷ ("package", "demo") ∷ ("type", "demo/Add") ∷ []) ∷ []

add_probed : get_ros1_service_info net "/add" [] 0 ≡ (ok add_details, 0)
unfolding get_ros1_service_info probe probe_at with_transport talk read_response read_body
    u32_of_bytes check_response store_response store_header store_type find insert find_slash
    substr_to substr_from string_discrete ℕ_discrete
add_probed = refl

get_ros1_service_info-Probed_example :
    (response : Option (List ℕ)) × Answered net "/add" 0 response 0
    × Probed net.header_parse "/add" [] response add_details
get_ros1_service_info-Probed_example =
    get_ros1_service_info-Probed net "/add" [] add_details 0 0 add_probed

bytes_of_70000 : u32_of_bytes (bytes_of_u32 70000) ≡ 70000
bytes_of_70000 = u32_of_bytes-bytes_of_u32 70000 (omega arith)

abbrev pub state : SystemState
state = record {
  publishers = some (("/chatter", "/talker" ∷ "/ros_bridge" ∷ []) ∷ []);
  subscribers = some (("/chatter", "/ros_bridge" ∷ []) ∷ ("/news", "/reader" ∷ []) ∷ []);
  services = some (some "/add" ∷ none ∷ []);
}

abbrev pub topics : List (String × String)
topics = ("/chatter", "std_msgs/String") ∷ []

abbrev pub master : Master ℕ
master = record { get_system_state = pure (some state); get_topics = pure (some topics) }

abbrev pub graph : Graph ℕ
graph = record {
  name = "ros_bridge";
  namespace = "/";
  get_topic_names_and_types = pure (("/chatter", "std_msgs/msg/String" ∷ []) ∷ []);
  count_publishers = λ topic. pure 1;
  count_subscribers = λ topic. pure 2;
  get_node_names_and_namespaces = pure (("ros_bridge", "/") ∷ ("server", "/") ∷ []);
  get_service_names_and_types_by_node = λ name namespace. pure (("/sum", "demo/srv/Add" ∷ []) ∷ []);
  get_service_names_and_types = pure (("/sum", "demo/srv/Add" ∷ []) ∷ []);
}

abbrev pub start : Dynamic sim
start = record {
  seen = seen;
  bridges = no_bridges;
  already_ignored_topics = [];
  already_ignored_services = [];
}

pub start-IsWellFormed : IsWellFormed start
unfolding find
start-IsWellFormed = record {
  ros1_publishers = (tt, tt);
  ros1_subscribers = (tt, tt);
  ros2_publishers = (tt, tt);
  ros2_subscribers = (tt, tt);
  ros1_services = (tt, tt);
  ros2_services = (tt, tt);
  one_way = λ name h. refl;
}

current_ros1_topics_lem_example :
    (find "/news" (current_ros1_topics "/ros_bridge" state topics).publishers ≡ (
      if is_active "/ros_bridge" "/news" state.publishers then last_type "/news" topics else none))
    × (find "/news" (current_ros1_topics "/ros_bridge" state topics).subscribers ≡ (
        if is_active "/ros_bridge" "/news" state.subscribers
        then or_else_string (last_type "/news" topics) (some "")
        else none))
current_ros1_topics_lem_example = current_ros1_topics_lem "/ros_bridge" "/news" state topics

abbrev nothing_found : Ros2Topics
nothing_found = record { topics = record { publishers = []; subscribers = [] }; ignored = [] }

abbrev chatter_found : Ros2Topics
chatter_found = record {
  topics = record { publishers = []; subscribers = ("/chatter", "std_msgs/msg/String") ∷ [] };
  ignored = [];
}

abbrev ros2_topics : StdMap (List String)
ros2_topics = ("/chatter", "std_msgs/msg/String" ∷ []) ∷ []

-- The bridge publishes the topic itself, so that the one publisher does not count.
chatter_returned :
    (collect_ros2_topics graph (λ t. true) (λ t. false) ros2_topics nothing_found 0).0
    ≡ ok chatter_found
unfolding collect_ros2_topics count_ros2_topic note_ros2_topic others insert string_discrete
chatter_returned = refl

collect_ros2_topics_lem_example :
    (find "/chatter" chatter_found.topics.publishers
      ≡ reported (1 - own_ends true) "/chatter" ros2_topics)
    × (find "/chatter" chatter_found.topics.subscribers
        ≡ reported (2 - own_ends false) "/chatter" ros2_topics)
unfolding find
collect_ros2_topics_lem_example =
    collect_ros2_topics_lem graph (λ t. 1) (λ t. 2) (λ t. true) (λ t. false) ros2_topics "/chatter"
      [] chatter_found 0 (λ t w. (refl, refl)) (refl, tt) chatter_returned
