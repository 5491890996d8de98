-- ===== src/Generator/Order.antt =====
-- generate_messages: the mappings in an order in which each one stands behind those of the messages
-- that its fields have.
use ros1_bridge.Prelude.{
  ℕ, zero, suc, not, Option, none, some, List, [], ◌∷◌, ◌++◌, length, keep, map,
}
use ros1_bridge.Generator.{Message, Mapping, ◌==ₘ◌}

abbrev pub set_dependencies : List Message → Mapping → Mapping
set_dependencies ds m = record {
  ros1_msg = m.ros1_msg;
  ros2_msg = m.ros2_msg;
  fields_1_to_2 = m.fields_1_to_2;
  fields_2_to_1 = m.fields_2_to_1;
  depends_on_ros2_messages = ds;
  ros1_field_missing_in_ros2 = m.ros1_field_missing_in_ros2;
}

-- `m.depends_on_ros2_messages.remove(ros2_msg)`, where it is there.
abbrev pub satisfy : Message → Mapping → Mapping
satisfy ros2_msg m =
    set_dependencies (keep (λ d. not (ros2_msg ==ₘ d)) m.depends_on_ros2_messages) m

abbrev pub skip : Mapping → Option (Mapping × List Mapping) → Option (Mapping × List Mapping)
skip m none = none
skip m (some (picked, rest)) = some (picked, m ∷ rest)

abbrev pub pick_or :
    List Message
    → Mapping
    → List Mapping
    → Option (Mapping × List Mapping)
    → Option (Mapping × List Mapping)
pick_or [] m ms later = some (m, ms)
pick_or (d ∷ ds) m ms later = skip m later

-- The first mapping without unsatisfied dependencies, and the others.
unfoldable pub pick : List Mapping → Option (Mapping × List Mapping)
pick [] = none
pick (m ∷ ms) = pick_or m.depends_on_ros2_messages m ms (pick ms)

abbrev pub Ordered : Type 0
Ordered = List Mapping × List Mapping

abbrev pub go_on :
    (List Mapping → List Mapping → Option Ordered)
    → List Mapping
    → List Mapping
    → Option (Mapping × List Mapping)
    → Option Ordered
go_on loop ordered mappings none = some (ordered, mappings)
go_on loop ordered mappings (some (m, rest)) =
    loop (ordered ++ (m ∷ [])) (map (satisfy m.ros2_msg) rest)

-- The loop, for at most as many rounds; what it has ordered, and what is left.
unfoldable pub order : ℕ → List Mapping → List Mapping → Option Ordered
order rounds ordered [] = some (ordered, [])
order zero ordered (m ∷ ms) = none
order (suc rounds) ordered (m ∷ ms) = go_on (order rounds) ordered (m ∷ ms) (pick (m ∷ ms))

unfoldable pub order_mappings : List Mapping → Option Ordered
order_mappings mappings = order (length mappings) [] mappings
