-- ===== src/Convert/Builtin.antt =====
-- src/builtin_interfaces_factories.cpp: the members of the factories for std_msgs/Duration and
-- std_msgs/Time, which forward to the conversions of the field that these messages hold.
use ros1_bridge.Prelude.{ℕ}
use ros1_bridge.Prelude.Exec.{Exec}
use ros1_bridge.Convert.{
  Ros1Duration, Ros2Duration, Ros1Time, Ros2Time, duration_1_to_2, duration_2_to_1, time_1_to_2,
  time_2_to_1,
}
use ros1_bridge.Convert.Streams.{
  Streams, Wire, Primitives, duration_wire, time_wire, convert_1_to_2, convert_2_to_1,
  length_2_as_1_stream,
}

-- std_msgs::Duration and std_msgs::Time.
pub record StdDuration : Type 0 where
  pub «data» : Ros1Duration

pub record StdTime : Type 0 where
  pub «data» : Ros1Time

unfoldable pub std_duration_1_to_2 : StdDuration → Ros2Duration
std_duration_1_to_2 ros1_msg = duration_1_to_2 ros1_msg.«data»

unfoldable pub std_duration_2_to_1 : Ros2Duration → StdDuration
std_duration_2_to_1 ros2_msg = record { «data» = duration_2_to_1 ros2_msg }

unfoldable pub std_time_1_to_2 : StdTime → Ros2Time
std_time_1_to_2 ros1_msg = time_1_to_2 ros1_msg.«data»

unfoldable pub std_time_2_to_1 : Ros2Time → StdTime
std_time_2_to_1 ros2_msg = record { «data» = time_2_to_1 ros2_msg }

module _ (streams : Streams) (on : Primitives streams) where
  -- internal_stream_translate_helper for each stream.
  unfoldable pub std_duration_wire : Wire streams Ros2Duration
  std_duration_wire = duration_wire streams on

  unfoldable pub std_time_wire : Wire streams Ros2Time
  std_time_wire = time_wire streams on

  unfoldable pub duration_to_stream : Ros2Duration → Exec streams.OStream (Unit {0})
  duration_to_stream = convert_2_to_1 std_duration_wire

  unfoldable pub duration_from_stream : Exec streams.IStream Ros2Duration
  duration_from_stream = convert_1_to_2 std_duration_wire

  unfoldable pub duration_stream_length : Ros2Duration → ℕ
  duration_stream_length = length_2_as_1_stream std_duration_wire

  unfoldable pub time_to_stream : Ros2Time → Exec streams.OStream (Unit {0})
  time_to_stream = convert_2_to_1 std_time_wire

  unfoldable pub time_from_stream : Exec streams.IStream Ros2Time
  time_from_stream = convert_1_to_2 std_time_wire

  unfoldable pub time_stream_length : Ros2Time → ℕ
  time_stream_length = length_2_as_1_stream std_time_wire
