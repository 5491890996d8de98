-- ===== src/Messages/Pointers.antt =====
-- include/ros1_bridge/factory.hpp: convert_1_to_2 and convert_2_to_1 of a factory on pointers to void.
-- A pointer is what it points to, with the name of its type; a cast to another type is undefined.
use ros1_bridge.Prelude.{String, ◌==◌, if◌then◌else◌}
use ros1_bridge.Prelude.Exec.{Result, ok, throw, undefined}
use ros1_bridge.Prelude.Results.{◌>>=◌}
use ros1_bridge.Factory.{Specialisation}
use ros1_bridge.Messages.{Value, FieldPairs, to_1, to_2, convert}

pub record Pointer : Type 0 where
  pub type : String
  pub pointee : Value

unfoldable pub static_cast : String → Pointer → Result Value
static_cast type p = if p.type == type then ok p.pointee else throw undefined

module _ (factory : Specialisation) (pairs : FieldPairs) where
  -- What `ros2_msg` points to afterwards.
  unfoldable pub convert_pointers_1_to_2 : (ros1_msg ros2_msg : Pointer) → Result Value
  convert_pointers_1_to_2 ros1_msg ros2_msg = do
    typed_ros1_msg ← static_cast factory.ros1_message ros1_msg
    typed_ros2_msg ← static_cast factory.ros2_message ros2_msg
    convert to_2 pairs typed_ros1_msg typed_ros2_msg

  unfoldable pub convert_pointers_2_to_1 : (ros2_msg ros1_msg : Pointer) → Result Value
  convert_pointers_2_to_1 ros2_msg ros1_msg = do
    typed_ros2_msg ← static_cast factory.ros2_message ros2_msg
    typed_ros1_msg ← static_cast factory.ros1_message ros1_msg
    convert to_1 pairs typed_ros2_msg typed_ros1_msg
