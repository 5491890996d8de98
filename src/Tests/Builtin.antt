-- ===== src/Tests/Builtin.antt =====
-- The theorems on the stream conversions of std_msgs/Duration and std_msgs/Time, applied.
use ros1_bridge.Prelude.{ℕ, ◌%◌, ◌^◌, ◌≡◌, refl, List, [], ◌++◌, length, arith}
use ros1_bridge.Prelude.Exec.{ok}
use ros1_bridge.Prelude.Int.{ℤ, pos, negsuc, to_uint32}
use ros1_bridge.DynamicBridge.ServiceInfo.{bytes_of_u32}
use ros1_bridge.Convert.{Ros2Duration, Ros2Time}
use ros1_bridge.Convert.Streams.{convert_2_to_1, duration_wire, time_wire}
use ros1_bridge.Convert.Builtin.{
  StdDuration, StdTime, std_duration_wire, std_time_wire, std_duration_1_to_2, std_duration_2_to_1,
  std_time_1_to_2, std_time_2_to_1, duration_to_stream, duration_from_stream,
  duration_stream_length, time_to_stream, time_from_stream, time_stream_length,
}
use ros1_bridge.Convert.Streams.Agreement.{
  std_duration_bytes, std_time_bytes, durations_agree, times_agree,
}
use ros1_bridge.Tests.Conversions.{bytes, primitives, map_bytes, faithful}

abbrev int32_bytes : ℤ → List ℕ
int32_bytes z = bytes_of_u32 (to_uint32 z)

abbrev duration : Ros2Duration
duration = record { sec = pos 5; nanosec = 4294967295 }

abbrev std_duration : StdDuration
std_duration = record { «data» = record { sec = negsuc 0; nsec = negsuc 1 } }

abbrev wire_bytes : StdDuration → List ℕ
wire_bytes =
    std_duration_bytes bytes (λ s. s) (λ s. s) primitives int32_bytes bytes_of_u32 (λ s. map_bytes)
      (λ s. s ≡ "map")

durations_agree_test :
    ((duration_to_stream bytes primitives duration []).1
      ≡ [] ++ wire_bytes (std_duration_2_to_1 duration))
    × (duration_stream_length bytes primitives duration
        ≡ length (wire_bytes (std_duration_2_to_1 duration)) % 2 ^ 32)
    × ((duration_from_stream bytes primitives (wire_bytes std_duration ++ [])).0
        ≡ ok (std_duration_1_to_2 std_duration))
    × ((duration_from_stream bytes primitives (wire_bytes std_duration ++ [])).1 ≡ [])
unfolding duration_to_stream convert_2_to_1 std_duration_wire duration_wire
durations_agree_test =
    durations_agree bytes (λ s. s) (λ s. s) primitives int32_bytes bytes_of_u32 (λ s. map_bytes)
      (λ s. s ≡ "map") faithful refl (λ z h. refl) duration std_duration []
      (wire_bytes std_duration ++ []) [] (omega arith) (omega arith) (omega arith) refl refl

abbrev time : Ros2Time
time = record { sec = negsuc 0; nanosec = 7 }

abbrev std_time : StdTime
std_time = record { «data» = record { sec = 4294967295; nsec = 8 } }

abbrev time_bytes : StdTime → List ℕ
time_bytes =
    std_time_bytes bytes (λ s. s) (λ s. s) primitives int32_bytes bytes_of_u32 (λ s. map_bytes)
      (λ s. s ≡ "map")

times_agree_test :
    ((time_to_stream bytes primitives time []).1 ≡ [] ++ time_bytes (std_time_2_to_1 time))
    × (time_stream_length bytes primitives time
        ≡ length (time_bytes (std_time_2_to_1 time)) % 2 ^ 32)
    × ((time_from_stream bytes primitives (time_bytes std_time ++ [])).0
        ≡ ok (std_time_1_to_2 std_time))
    × ((time_from_stream bytes primitives (time_bytes std_time ++ [])).1 ≡ [])
unfolding time_to_stream convert_2_to_1 std_time_wire time_wire
times_agree_test =
    times_agree bytes (λ s. s) (λ s. s) primitives int32_bytes bytes_of_u32 (λ s. map_bytes)
      (λ s. s ≡ "map") faithful refl (λ z h. refl) time std_time [] (time_bytes std_time ++ []) []
      (omega arith) (omega arith) (omega arith) refl refl
