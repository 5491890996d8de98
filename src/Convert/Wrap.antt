-- ===== src/Convert/Wrap.antt =====
-- What the conversions of times and durations keep.
use ros1_bridge.Prelude.{◌≡◌, ap}
use ros1_bridge.Prelude.Int.{IsInt32, IsUint32, to_uint32-to_int32, to_int32-to_uint32}
use ros1_bridge.Convert.{
  Ros1Duration, Ros2Duration, Ros1Time, Ros2Time, duration_1_to_2, duration_2_to_1, time_1_to_2,
  time_2_to_1,
}

-- A duration of ROS 1 whose fields have 32 bits comes back from ROS 2 as it was, and one of ROS 2
-- from ROS 1.
pub duration_round_trips :
    (d : Ros1Duration) (e : Ros2Duration)
    → IsInt32 d.nsec
    → IsUint32 e.nanosec
    → (duration_2_to_1 (duration_1_to_2 d) ≡ d) × (duration_1_to_2 (duration_2_to_1 e) ≡ e)
unfolding duration_1_to_2 duration_2_to_1
duration_round_trips d e h k = (
  ap (λ n. record { sec = d.sec; nsec = n }) (to_int32-to_uint32 d.nsec h),
  ap (λ n. record { sec = e.sec; nanosec = n }) (to_uint32-to_int32 e.nanosec k),
)

-- A time of ROS 1 whose fields have 32 bits comes back from ROS 2 as it was, and one of ROS 2 from
-- ROS 1.
pub time_round_trips :
    (t : Ros1Time) (u : Ros2Time)
    → IsUint32 t.sec
    → IsInt32 u.sec
    → (time_2_to_1 (time_1_to_2 t) ≡ t) × (time_1_to_2 (time_2_to_1 u) ≡ u)
unfolding time_1_to_2 time_2_to_1
time_round_trips t u h k = (
  ap (λ n. record { sec = n; nsec = t.nsec }) (to_uint32-to_int32 t.sec h),
  ap (λ n. record { sec = n; nanosec = u.nanosec }) (to_int32-to_uint32 u.sec k),
)
