-- ===== src/DynamicBridge/Polls/WellFormed.antt =====
-- The maps that the polls store have ascending keys, as every std::map does, and no service is
-- bridged both ways; so it stays from poll to poll.
pub mod Changes
use ros1_bridge.Prelude.{
  ℕ, String, Bool, true, false, if◌then◌else◌, Option, none, some, List, [], ◌∷◌, arith,
  Option-cases, inl, inr,
}
use ros1_bridge.Prelude.Exec.{Ensures, Ensures-any, Ensures-and_then}
use ros1_bridge.StdMap.{StdMap, find, IsAscending, insert, contains}
use ros1_bridge.StdMap.Order.{insert-IsAscending, erase-IsAscending}
use ros1_bridge.Ros.{Ros}
use ros1_bridge.Text.{find_slash}
use ros1_bridge.DynamicBridge.Services.{Details}
use ros1_bridge.DynamicBridge.ServiceInfo.{
  Network, probe, store_type, store_header, store_response, get_ros1_service_info, typed_details,
}
use ros1_bridge.DynamicBridge.Update.Services.{IsOneWay}
use ros1_bridge.DynamicBridge.Polls.{
  StdSet, SystemState, Dynamic, Topics, Ros2Topics, Ros2Services, collect_ros1_topics, add_untyped,
  active_part, note_ros2_topic, note_ros2_service, collect_ros2_services,
}
use ros1_bridge.DynamicBridge.Polls.Ros1.{current_ros1_topics}

pub record IsWellFormed {ros : Ros} (s : Dynamic ros) : Type 0 where
  pub ros1_publishers : IsAscending s.seen.ros1_publishers
  pub ros1_subscribers : IsAscending s.seen.ros1_subscribers
  pub ros2_publishers : IsAscending s.seen.ros2_publishers
  pub ros2_subscribers : IsAscending s.seen.ros2_subscribers
  pub ros1_services : IsAscending s.seen.ros1_services
  pub ros2_services : IsAscending s.seen.ros2_services
  pub one_way : IsOneWay s.bridges

abbrev pub AreAscending : Topics → Type 0
AreAscending found = IsAscending found.publishers × IsAscending found.subscribers

insert_if-IsAscending :
    {V : Type 0} (b : Bool) (k : String) (v : V) (m : StdMap V)
    → IsAscending m
    → IsAscending (if b then insert k v m else m)
insert_if-IsAscending true k v m h = insert-IsAscending k v m h
insert_if-IsAscending false k v m h = h

insert_unless-IsAscending :
    {V : Type 0} (b : Bool) (k : String) (v : V) (m : StdMap V)
    → IsAscending m
    → IsAscending (if b then m else insert k v m)
insert_unless-IsAscending true k v m h = h
insert_unless-IsAscending false k v m h = insert-IsAscending k v m h

store_type-IsAscending :
    (name : String) (type : Option String) (services : StdMap Details)
    → IsAscending services
    → Ensures IsAscending (store_type name type services)
unfolding store_type
store_type-IsAscending name none services h = erase-IsAscending name services h
store_type-IsAscending name (some type) services h = elim (Option-cases (find_slash type)) [
  | inl e ↦ rw (e, store_type) tt
  | inr (n, e) ↦ rw (e, store_type) (insert-IsAscending name (typed_details type n) services h)
]

store_header-IsAscending :
    (name : String) (header : Option (StdMap String)) (services : StdMap Details)
    → IsAscending services
    → Ensures IsAscending (store_header name header services)
unfolding store_header
store_header-IsAscending name none services h = insert-IsAscending name [] services h
store_header-IsAscending name (some header) services h =
    store_type-IsAscending name (find "type" header) _ (insert-IsAscending name [] services h)

store_response-IsAscending :
    {World : Type 0} (net : Network World) (name : String) (services : StdMap Details)
    (response : Option (List ℕ)) (w : World)
    → IsAscending services
    → Ensures IsAscending (store_response net name services response w).0
unfolding store_response
store_response-IsAscending net name services none w h = h
store_response-IsAscending net name services (some response) w h =
    store_header-IsAscending name (net.header_parse response) services h

pub get_ros1_service_info-IsAscending :
    {World : Type 0} (net : Network World) (name : String) (services : StdMap Details) (w : World)
    → IsAscending services
    → Ensures IsAscending (get_ros1_service_info net name services w).0
unfolding get_ros1_service_info
get_ros1_service_info-IsAscending net name services w h =
    Ensures-and_then (λ _. Unit {0}) IsAscending (probe net name w)
      (store_response net name services) (Ensures-any _)
      λ response _. store_response-IsAscending net name services response _ h

collect_ros1_topics-AreAscending :
    (ps ss : StdSet) (topics : List (String × String)) (found : Topics)
    → AreAscending found
    → AreAscending (collect_ros1_topics ps ss topics found)
unfolding collect_ros1_topics
collect_ros1_topics-AreAscending ps ss [] found h = h
collect_ros1_topics-AreAscending ps ss ((topic, datatype) ∷ rest) found h =
    collect_ros1_topics-AreAscending ps ss rest _
      (insert_if-IsAscending _ topic datatype _ h.0, insert_if-IsAscending _ topic datatype _ h.1)

add_untyped-IsAscending :
    (active : StdSet) (found : StdMap String)
    → IsAscending found
    → IsAscending (add_untyped active found)
unfolding add_untyped
add_untyped-IsAscending [] found h = h
add_untyped-IsAscending ((topic, _) ∷ rest) found h =
    add_untyped-IsAscending rest _ (insert_unless-IsAscending _ topic "" found h)

pub current_ros1_topics-AreAscending :
    (own : String) (state : SystemState) (topics : List (String × String))
    → AreAscending (current_ros1_topics own state topics)
unfolding current_ros1_topics
current_ros1_topics-AreAscending own state topics =
    let h =
      collect_ros1_topics-AreAscending (active_part own state.publishers)
        (active_part own state.subscribers) topics (record { publishers = []; subscribers = [] })
        (tt, tt) in
    (h.0, add_untyped-IsAscending (active_part own state.subscribers) _ h.1)

pub note_ros2_topic-AreAscending :
    (topic type : String) (p s : ℕ) (found : Topics)
    → AreAscending found
    → AreAscending (note_ros2_topic topic type p s found)
unfolding note_ros2_topic
note_ros2_topic-AreAscending topic type p s found h = ground (
  arith,
  insert-IsAscending topic type found.publishers h.0,
  insert-IsAscending topic type found.subscribers h.1,
)

note_ros2_service-IsAscending :
    (names : StdSet) (service type : String) (position : Option ℕ) (found : StdMap Details)
    → IsAscending found
    → IsAscending (note_ros2_service names service type position found)
unfolding note_ros2_service
note_ros2_service-IsAscending names service type none found h = h
note_ros2_service-IsAscending names service type (some position) found h =
    insert_if-IsAscending (contains service names) service _ found h

pub collect_ros2_services-IsAscending :
    {W : Type 0} (names : StdSet) (services : StdMap (List String)) (found : Ros2Services) (w : W)
    → IsAscending found.services
    → Ensures (λ r. IsAscending r.services) (collect_ros2_services names services found w).0
unfolding collect_ros2_services
collect_ros2_services-IsAscending names [] found w h = h
collect_ros2_services-IsAscending names ((service, []) ∷ rest) found w h = tt
collect_ros2_services-IsAscending names ((service, type ∷ []) ∷ rest) found w h =
    collect_ros2_services-IsAscending names rest _ w
      (note_ros2_service-IsAscending names service type (find_slash type) found.services h)
collect_ros2_services-IsAscending names ((service, type ∷ _ ∷ _) ∷ rest) found w h =
    collect_ros2_services-IsAscending names rest _ w h
