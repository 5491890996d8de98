-- ===== src/DynamicBridge/Polls.antt =====
-- The two polls that `main` in src/dynamic_bridge.cpp sets up. What the ROS 1 master and the ROS 2
-- graph answer comes from the arguments `Master` and `Graph`. Output is left out, and so is the
-- mutex: a poll here runs alone. Interleaving.antt has the polls as two threads.
pub mod Ros1
pub mod Ros2
pub mod Found
pub mod Bridged
pub mod WellFormed
pub mod Invariant
use ros1_bridge.Prelude.{
  ℕ, zero, suc, ◌-◌, String, Bool, true, false, not, ◌&&◌, ◌||◌, ◌==◌, if◌then◌else◌, Option, none,
  some, List, [], ◌∷◌,
}
use ros1_bridge.Prelude.Exec.{Exec, ok, undefined, pure, raise, ◌>>=◌, ◌>>◌}
use ros1_bridge.Prelude.Int.{ltb}
use ros1_bridge.StdMap.{StdMap, find, contains, insert}
use ros1_bridge.Text.{find_slash, substr_to, substr_from}
use ros1_bridge.Ros.{Ros}
use ros1_bridge.Factory.Registry.{Generated}
use ros1_bridge.DynamicBridge.Services.{Details}
use ros1_bridge.DynamicBridge.ServiceInfo.{Network, get_ros1_service_info}
use ros1_bridge.DynamicBridge.Update.{Seen, Bridges, update_bridge}

-- std::set<std::string>
abbrev pub StdSet : Type 0
StdSet = StdMap (Unit {0})

-- A topic with the nodes that publish it, or that subscribe to it.
abbrev pub Rows : Type 0
Rows = List (String × List String)

-- The payload of getSystemState: its parts, as far as it has them, and `none` for a service row
-- whose first entry is no text.
pub record SystemState : Type 0 where
  pub publishers : Option Rows
  pub subscribers : Option Rows
  pub services : Option (List (Option String))

pub record Master (World : Type 0) : Type 0 where
  pub get_system_state : Exec World (Option SystemState)
  -- ros::master::getTopics: each topic's name and datatype.
  pub get_topics : Exec World (Option (List (String × String)))

-- rclcpp::Node, and its graph interface.
pub record Graph (World : Type 0) : Type 0 where
  pub name : String
  pub namespace : String
  pub get_topic_names_and_types : Exec World (StdMap (List String))
  pub count_publishers : String → Exec World ℕ
  pub count_subscribers : String → Exec World ℕ
  pub get_node_names_and_namespaces : Exec World (List (String × String))
  pub get_service_names_and_types_by_node : String → String → Exec World (StdMap (List String))
  pub get_service_names_and_types : Exec World (StdMap (List String))

pub record Dynamic (ros : Ros) : Type 0 where
  pub seen : Seen
  pub bridges : Bridges ros
  pub already_ignored_topics : StdSet
  pub already_ignored_services : StdSet

-- Whether a node other than the bridge is among `nodes`.
unfoldable pub any_other : String → List String → Bool
any_other own [] = false
any_other own (node ∷ nodes) = not (node == own) || any_other own nodes

-- active_publishers, or active_subscribers
unfoldable pub active_topics : String → Rows → StdSet → StdSet
active_topics own [] active = active
active_topics own ((topic, nodes) ∷ rows) active =
    active_topics own rows (if any_other own nodes then insert topic tt active else active)

unfoldable pub active_part : String → Option Rows → StdSet
active_part own none = []
active_part own (some rows) = active_topics own rows []

pub record Topics : Type 0 where
  pub publishers : StdMap String
  pub subscribers : StdMap String

-- The loop over the topics of the master.
unfoldable pub collect_ros1_topics : StdSet → StdSet → List (String × String) → Topics → Topics
collect_ros1_topics publishers subscribers [] found = found
collect_ros1_topics publishers subscribers ((topic, datatype) ∷ rest) found =
    collect_ros1_topics publishers subscribers rest (record {
      publishers =
          if contains topic publishers
          then insert topic datatype found.publishers
          else found.publishers;
      subscribers =
          if contains topic subscribers
          then insert topic datatype found.subscribers
          else found.subscribers;
    })

-- The active subscribers that the master gives no type for.
unfoldable pub add_untyped : StdSet → StdMap String → StdMap String
add_untyped [] found = found
add_untyped ((topic, _) ∷ rest) found =
    add_untyped rest (if contains topic found then found else insert topic "" found)

-- Counts without the bridge's own publisher, or subscriber.
unfoldable pub others : Bool → ℕ → ℕ
others own count = if own then count - 1 else count

-- What the loop over the ROS 2 topics has found, and which topics it has warned of.
pub record Ros2Topics : Type 0 where
  pub topics : Topics
  pub ignored : StdSet

unfoldable pub note_ros2_topic : String → String → ℕ → ℕ → Topics → Topics
note_ros2_topic topic type publishers subscribers found = record {
  publishers = if ltb 0 publishers then insert topic type found.publishers else found.publishers;
  subscribers =
      if ltb 0 subscribers then insert topic type found.subscribers else found.subscribers;
}

-- What the loop over the ROS 2 services has found, and which it has warned of.
pub record Ros2Services : Type 0 where
  pub services : StdMap Details
  pub ignored : StdSet

-- active_ros2_services[service]["package"] = … and ["name"] = …
unfoldable pub note_ros2_service :
    StdSet → String → String → Option ℕ → StdMap Details → StdMap Details
note_ros2_service service_names service type none found = found
note_ros2_service service_names service type (some position) found =
    if contains service service_names
    then insert service
        (insert "name" (substr_from (suc position) type) (
          insert "package" (substr_to position type)
            (elim (find service found) [ some details ↦ details | none ↦ [] ])))
        found
    else found

-- The loop over the ROS 2 services. A service without a type is read out of bounds.
unfoldable pub collect_ros2_services :
    {W : Type 0} → StdSet → StdMap (List String) → Ros2Services → Exec W Ros2Services
collect_ros2_services names [] found = pure found
collect_ros2_services names ((service, []) ∷ rest) found = raise undefined
collect_ros2_services names ((service, type ∷ []) ∷ rest) found =
    collect_ros2_services names rest (record found {
      services = note_ros2_service names service type (find_slash type) found.services;
    })
collect_ros2_services names ((service, type ∷ _ ∷ _) ∷ rest) found =
    collect_ros2_services names rest (record found { ignored = insert service tt found.ignored })

abbrev pub insert_all : {V : Type 0} → StdMap V → StdSet → StdSet
insert_all [] set = set
insert_all ((name, _) ∷ rest) set = insert_all rest (insert name tt set)

module _ {ros : Ros} where
  abbrev pub on_world {ℓ} : {A : Type ℓ} → Exec ros.World A → Exec (Dynamic ros) A
  on_world m s =
      let (r, w) = m s.bridges.world in (r, record s { bridges = record (s.bridges) { world = w } })

  abbrev pub on_bridges {ℓ} : {A : Type ℓ} → Exec (Bridges ros) A → Exec (Dynamic ros) A
  on_bridges m s = let (r, b) = m s.bridges in (r, record s { bridges = b })

  abbrev pub modify : (Dynamic ros → Dynamic ros) → Exec (Dynamic ros) (Unit {0})
  modify f s = (ok tt, f s)
