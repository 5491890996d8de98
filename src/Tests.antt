-- ===== src/Tests.antt =====
-- Middlewares that count the handles that they give out, on which the theorems are applied.
mod Updates
mod Refinement
mod Forwarding
mod Serialized
mod Services
mod Polls
mod Interleavings
mod Bridged
mod Lookups
mod Conversions
mod Listings
mod Sequences
mod Messages
mod Generator
mod Pipeline
mod Builtin
mod Parameters
mod Chatter
mod ParameterMain
use ros1_bridge.Prelude.{
  ℕ, suc, String, ◌≡◌, refl, false, true, Option, none, some, [], ◌∷◌, ◌==◌, string_discrete,
  if◌then◌else◌, subst, arith,
}
use ros1_bridge.Prelude.Exec.{Exec, ok, pure}
use ros1_bridge.Prelude.Int.{pos}
use ros1_bridge.StdMap.{StdMap, find}
use ros1_bridge.Ros.{Ros}
use ros1_bridge.Factory.Registry.{Generated, Mapping, ServiceMapping}
use ros1_bridge.DynamicBridge.Services.{Details}
use ros1_bridge.DynamicBridge.Update.{Seen, Bridges}

abbrev pub fresh : Exec ℕ ℕ
fresh n = (ok n, suc n)

abbrev pub sim : Ros
sim = record {
  World = ℕ;
  Ros1Publisher = ℕ;
  Ros1Subscriber = ℕ;
  Ros1Server = ℕ;
  Ros1Client = ℕ;
  Ros2Publisher = ℕ;
  Ros2Subscription = ℕ;
  Ros2Server = ℕ;
  Ros2Client = ℕ;
  Qos = ℕ;
  QosProfile = ℕ;
  keep_last = λ n. n;
  all_kept = 0;
  keep_all = λ q. 0;
  transient_local = λ q. q;
  sensor_data = λ n. n;
  qos_from_rmw = λ p. p;
  set_profile = λ q p. p;
  md5sum = λ message. message;
  datatype = λ message. message;
  definition = λ message. message;
  Library = ℕ;
  TypeSupport = ℕ;
  get_typesupport_library = λ type identifier. pure (some 0);
  get_typesupport_handle = λ type identifier library. pure (some library);
  advertise = λ message topic size latch. fresh;
  subscribe = λ options. fresh;
  advertise_service = λ type name callback. fresh;
  service_client = λ type name. fresh;
  get_param_cached = λ key. pure none;
  shutdown = λ server. pure tt;
  create_publisher = λ message topic qos. fresh;
  create_subscription = λ message topic qos callback. fresh;
  create_client = λ type name. fresh;
  create_service = λ type name callback. fresh;
}

abbrev pub string_mapping : Mapping
string_mapping = record {
  ros1_package = "std_msgs";
  ros1_message = "String";
  ros2_package = "std_msgs";
  ros2_message = "String";
}

abbrev add_mapping : ServiceMapping
add_mapping = record {
  ros1_package = "demo";
  ros1_name = "Add";
  ros2_package = "demo";
  ros2_name = "Add";
}

abbrev pub gen : Generated
gen = record {
  packages =
      record { messages = (string_mapping ∷ []) ∷ []; services = (add_mapping ∷ []) ∷ [] } ∷ [];
  mappings = string_mapping ∷ [];
  services = add_mapping ∷ [];
}

abbrev pub add_details : Details
add_details = ("name", "Add") ∷ ("package", "demo") ∷ []

abbrev pub sum_details : Details
sum_details = ("name", "srv/Add") ∷ ("package", "demo") ∷ []

-- A topic from ROS 1, a topic from ROS 2, and a service on each side.
abbrev pub seen : Seen
seen = record {
  ros1_publishers = ("/chatter", "std_msgs/String") ∷ [];
  ros1_subscribers = ("/news", "std_msgs/String") ∷ [];
  ros2_publishers = ("/news", "std_msgs/msg/String") ∷ [];
  ros2_subscribers = ("/chatter", "std_msgs/msg/String") ∷ [];
  ros1_services = ("/add", add_details) ∷ [];
  ros2_services = ("/sum", sum_details) ∷ [];
  bridge_all_1to2_topics = false;
  bridge_all_2to1_topics = false;
}

abbrev pub no_bridges : Bridges sim
no_bridges = record {
  bridges_1to2 = [];
  bridges_2to1 = [];
  service_bridges_1_to_2 = [];
  service_bridges_2_to_1 = [];
  world = 0;
  log = [];
}

-- What holds of the entry of a map with one entry holds of all its entries.
pub find_in_one {ℓ} :
    {V : Type 0} (k : String) (v : V) (P : String → V → Type ℓ)
    → P k v
    → (j : String) (u : V) → find j ((k, v) ∷ []) ≡ some u
    → P j u
unfolding find
find_in_one k v P p j u h = elim (string_discrete k j) [
  | yes same ↦ subst (P j) (ground arith) (subst (λ i. P i v) same p)
  | no differ ↦ absurd (ground arith)
]
