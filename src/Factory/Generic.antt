-- ===== src/Factory/Generic.antt =====
-- include/ros1_bridge/factory.hpp: `convert_2_to_1_generic` and `convert_1_to_2_generic`, which
-- convert a serialized message. The state is the message that is filled in, the value what the
-- function returns. The conversion in between is the generated one of Messages.antt, for the pair of
-- types that the factory is made for: it may fail an assertion.
pub mod Outcome
use ros1_bridge.Prelude.{
  ℕ, zero, suc, Bool, true, false, Option, none, some, List, [], ◌∷◌, length, resize,
}
use ros1_bridge.Prelude.Exec.{Exec, Result, ok, pure, ◌>>=◌, ◌>>◌}
use ros1_bridge.Messages.{Value, Conversion, to_1, to_2, convert_value}

-- What the two functions use of ros::serialization and of the middleware.
pub record Serialization : Type 1 where
  pub SerializedMessage : Type 0
  pub TypeSupport : Type 0
  -- A message that its default constructor made.
  pub fresh1 : Value
  pub fresh2 : Value
  -- rmw_deserialize and rmw_serialize, `none` and `false` where they do not return RMW_RET_OK.
  pub rmw_deserialize : SerializedMessage → TypeSupport → Value → Option Value
  pub rmw_serialize : Value → TypeSupport → Exec SerializedMessage Bool
  -- ros::serialization: serializationLength, serialize into a buffer, and deserialize from one.
  pub serialization_length : Value → ℕ
  pub serialize : Value → Exec (List ℕ) (Unit {0})
  pub deserialize : List ℕ → Value → Result Value

abbrev pub resize_to : ℕ → Exec (List ℕ) (Unit {0})
resize_to n buffer = (ok tt, resize 0 n buffer)

abbrev pub lift : {S A : Type 0} → Result A → Exec S A
lift r s = (r, s)

module _ (on : Serialization) (conversion : Conversion) where
  unfoldable pub write_ros1 : Option Value → Exec (List ℕ) Bool
  write_ros1 none = pure false
  write_ros1 (some ros2_typed_msg) = do
    ros1_typed_msg ← lift (convert_value to_1 conversion ros2_typed_msg on.fresh1)
    resize_to (on.serialization_length ros1_typed_msg)
    on.serialize ros1_typed_msg
    pure true

  unfoldable pub convert_2_to_1_generic :
      Option on.TypeSupport → on.SerializedMessage → Exec (List ℕ) Bool
  convert_2_to_1_generic none ros2_msg = pure false
  convert_2_to_1_generic (some type_support) ros2_msg =
      write_ros1 (on.rmw_deserialize ros2_msg type_support on.fresh2)

  unfoldable pub write_ros2 : on.TypeSupport → Result Value → Exec on.SerializedMessage Bool
  write_ros2 type_support deserialized = do
    ros1_typed_msg ← lift deserialized
    ros2_typed_msg ← lift (convert_value to_2 conversion ros1_typed_msg on.fresh2)
    on.rmw_serialize ros2_typed_msg type_support

  unfoldable pub convert_1_to_2_generic :
      Option on.TypeSupport → List ℕ → Exec on.SerializedMessage Bool
  convert_1_to_2_generic none ros1_msg = pure false
  convert_1_to_2_generic (some type_support) ros1_msg =
      write_ros2 type_support (on.deserialize ros1_msg on.fresh1)
