-- ===== src/Factory/Registry/Listing.antt =====
-- resource/get_mappings.cpp.em: get_all_message_mappings_2to1 and get_all_service_mappings_2to1, as
-- the entries of a std::multimap in iteration order.
use ros1_bridge.Prelude.{String, ◌<>◌, List, [], ◌∷◌, if◌then◌else◌}
use ros1_bridge.StdMap.{key_lt}
use ros1_bridge.Factory.Registry.{Mapping, ServiceMapping, Generated, ros1_name, ros2_name}

abbrev pub Multimap : Type 0
Multimap = List (String × String)

-- An entry stands behind those of its key.
unfoldable pub insert_last : String → String → Multimap → Multimap
insert_last k v [] = (k, v) ∷ []
insert_last k v ((j, w) ∷ m) =
    if key_lt k j then (k, v) ∷ (j, w) ∷ m else (j, w) ∷ insert_last k v m

abbrev insert_messages : List Mapping → Multimap → Multimap
insert_messages [] m = m
insert_messages (x ∷ xs) m = insert_messages xs (insert_last (ros2_name x) (ros1_name x) m)

abbrev insert_services : List ServiceMapping → Multimap → Multimap
insert_services [] m = m
insert_services (s ∷ ss) m = insert_services ss (
    insert_last (s.ros2_package <> ("/srv/" <> s.ros2_name))
      (s.ros1_package <> ("/" <> s.ros1_name)) m)

unfoldable pub get_all_message_mappings_2to1 : Generated → Multimap
get_all_message_mappings_2to1 gen = insert_messages gen.mappings []

unfoldable pub get_all_service_mappings_2to1 : Generated → Multimap
get_all_service_mappings_2to1 gen = insert_services gen.services []
