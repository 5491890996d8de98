-- ===== src/DynamicBridge/Polls/Invariant/Ros1.antt =====
-- What the probes of a poll of ROS 1 have found has ascending keys.
use ros1_bridge.Prelude.{String, Option, none, some, List, [], ◌∷◌}
use ros1_bridge.Prelude.Exec.{Ensures, Ensures-and_then}
use ros1_bridge.StdMap.{StdMap, IsAscending}
use ros1_bridge.DynamicBridge.Services.{Details}
use ros1_bridge.DynamicBridge.ServiceInfo.{Network, get_ros1_service_info}
use ros1_bridge.DynamicBridge.Polls.Ros1.{probe_services, probe_part}
use ros1_bridge.DynamicBridge.Polls.WellFormed.{get_ros1_service_info-IsAscending}

probe_services-IsAscending :
    {World : Type 0} (net : Network World) (names : List (Option String)) (found : StdMap Details)
    (w : World)
    → IsAscending found
    → Ensures IsAscending (probe_services net names found w).0
unfolding probe_services
probe_services-IsAscending net [] found w h = h
probe_services-IsAscending net (none ∷ rest) found w h =
    probe_services-IsAscending net rest found w h
probe_services-IsAscending net (some name ∷ rest) found w h =
    Ensures-and_then IsAscending IsAscending (get_ros1_service_info net name found w)
      (probe_services net rest) (get_ros1_service_info-IsAscending net name found w h)
      λ found' h'. probe_services-IsAscending net rest found' _ h'

pub probe_part-IsAscending :
    {World : Type 0} (net : Network World) (names : Option (List (Option String))) (w : World)
    → Ensures IsAscending (probe_part net names w).0
unfolding probe_part
probe_part-IsAscending net none w = tt
probe_part-IsAscending net (some names) w = probe_services-IsAscending net names [] w tt
