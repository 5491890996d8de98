-- ===== src/Convert.antt =====
-- src/convert_builtin_interfaces.cpp: times and durations. The fields have the widths of ros::Time,
-- ros::Duration and of the messages of builtin_interfaces; a value that does not fit its new type
-- wraps around at 2^32.
pub mod Wrap
pub mod Streams
pub mod Builtin
use ros1_bridge.Prelude.{ℕ}
use ros1_bridge.Prelude.Int.{ℤ, to_int32, to_uint32}

-- ros::Duration, with two int32_t.
pub record Ros1Duration : Type 0 where
  pub sec : ℤ
  pub nsec : ℤ

-- builtin_interfaces::msg::Duration, with an int32_t and a uint32_t.
pub record Ros2Duration : Type 0 where
  pub sec : ℤ
  pub nanosec : ℕ

-- ros::Time, with two uint32_t.
pub record Ros1Time : Type 0 where
  pub sec : ℕ
  pub nsec : ℕ

-- builtin_interfaces::msg::Time, with an int32_t and a uint32_t.
pub record Ros2Time : Type 0 where
  pub sec : ℤ
  pub nanosec : ℕ

unfoldable pub duration_1_to_2 : Ros1Duration → Ros2Duration
duration_1_to_2 d = record { sec = d.sec; nanosec = to_uint32 d.nsec }

unfoldable pub duration_2_to_1 : Ros2Duration → Ros1Duration
duration_2_to_1 d = record { sec = d.sec; nsec = to_int32 d.nanosec }

unfoldable pub time_1_to_2 : Ros1Time → Ros2Time
time_1_to_2 t = record { sec = to_int32 t.sec; nanosec = t.nsec }

unfoldable pub time_2_to_1 : Ros2Time → Ros1Time
time_2_to_1 t = record { sec = to_uint32 t.sec; nsec = t.nanosec }
