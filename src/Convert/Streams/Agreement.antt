-- ===== src/Convert/Streams/Agreement.antt =====
-- The stream conversions of std_msgs/Duration and std_msgs/Time against the conversions of the
-- messages: what is written is the message of ROS 1 on the wire.
use ros1_bridge.Prelude.{ℕ, ◌%◌, ◌^◌, String, ◌≡◌, sym, ap, ◌∙◌, List, ◌++◌, length}
use ros1_bridge.Prelude.Exec.{ok}
use ros1_bridge.Prelude.Int.{
  ℤ, IsInt32, IsUint32, to_int32, to_uint32, to_uint32-to_int32, to_int32-IsInt32,
  to_uint32-IsUint32,
}
use ros1_bridge.Convert.{
  Ros2Time, Ros2Duration, duration_1_to_2, duration_2_to_1, time_1_to_2, time_2_to_1,
}
use ros1_bridge.Convert.Streams.{Streams, Primitives}
use ros1_bridge.Convert.Streams.Faithful.{wire_round_trip}
use ros1_bridge.Convert.Streams.RoundTrip.{
  AreFaithful, duration_wire-IsFaithful, time_wire-IsFaithful,
}
use ros1_bridge.Convert.Builtin.{
  StdDuration, StdTime, std_duration_wire, std_time_wire, std_duration_1_to_2, std_duration_2_to_1,
  std_time_1_to_2, std_time_2_to_1, duration_to_stream, duration_from_stream,
  duration_stream_length, time_to_stream, time_from_stream, time_stream_length,
}

module _ (streams : Streams) (written : streams.OStream → List ℕ) (left : streams.IStream → List ℕ)
    (on : Primitives streams) (int32_bytes : ℤ → List ℕ) (uint32_bytes : ℕ → List ℕ)
    (string_bytes : String → List ℕ) (IsText : String → Type 0) where
  -- The messages of ROS 1 on the wire.
  abbrev pub std_duration_bytes : StdDuration → List ℕ
  std_duration_bytes m = int32_bytes m.«data».sec ++ int32_bytes m.«data».nsec

  abbrev pub std_time_bytes : StdTime → List ℕ
  std_time_bytes m = uint32_bytes m.«data».sec ++ uint32_bytes m.«data».nsec

  -- An int32_t has the bytes of the uint32_t that it is cast to.
  abbrev pub IsTwosComplement : Type 0
  IsTwosComplement = (z : ℤ) → IsInt32 z → int32_bytes z ≡ uint32_bytes (to_uint32 z)

  int32_bytes-to_int32 :
      (n : ℕ) → IsTwosComplement → IsUint32 n → int32_bytes (to_int32 n) ≡ uint32_bytes n
  int32_bytes-to_int32 n complement h =
      complement (to_int32 n) (to_int32-IsInt32 n h) ∙ ap uint32_bytes (to_uint32-to_int32 n h)

  -- With faithful fields, an empty length to start from and two's complement: writing a duration of
  -- ROS 2 to a stream, where it returns, appends the message of ROS 1 that it is converted to, and
  -- the length that is announced is that of this message; reading from a stream that starts with a
  -- message of ROS 1 gives what that message is converted to, and goes on behind it.
  pub durations_agree :
      AreFaithful streams written left on int32_bytes uint32_bytes string_bytes IsText
      → streams.get_length streams.fresh ≡ 0
      → IsTwosComplement
      → (d : Ros2Duration) (m : StdDuration) (out : streams.OStream) (input : streams.IStream)
        (more : List ℕ)
      → IsUint32 d.nanosec
      → IsInt32 m.«data».sec
      → IsInt32 m.«data».nsec
      → (duration_to_stream streams on d out).0 ≡ ok tt
      → left input ≡ std_duration_bytes m ++ more
      → (written (duration_to_stream streams on d out).1
          ≡ written out ++ std_duration_bytes (std_duration_2_to_1 d))
        × (duration_stream_length streams on d
            ≡ length (std_duration_bytes (std_duration_2_to_1 d)) % 2 ^ 32)
        × ((duration_from_stream streams on input).0 ≡ ok (std_duration_1_to_2 m))
        × (left (duration_from_stream streams on input).1 ≡ more)
  unfolding duration_to_stream duration_stream_length duration_from_stream std_duration_1_to_2
      std_duration_2_to_1 duration_1_to_2 duration_2_to_1 std_duration_wire
  durations_agree faithful empty complement d m out input more valid sec_valid nsec_valid returned
        starts =
      rw (int32_bytes-to_int32 d.nanosec complement valid) (
        wire_round_trip streams written left _
          (duration_wire-IsFaithful streams written left on int32_bytes uint32_bytes string_bytes
            IsText faithful)
          empty d (duration_1_to_2 m.«data») out input more
          (sec_valid, to_uint32-IsUint32 m.«data».nsec) returned
          (starts
            ∙ ap (λ l. (int32_bytes m.«data».sec ++ l) ++ more)
                (complement m.«data».nsec nsec_valid)))

  -- With faithful fields, an empty length to start from and two's complement: writing a time of ROS 2
  -- to a stream, where it returns, appends the message of ROS 1 that it is converted to, and the
  -- length that is announced is that of this message; reading from a stream that starts with a
  -- message of ROS 1 gives what that message is converted to, and goes on behind it.
  pub times_agree :
      AreFaithful streams written left on int32_bytes uint32_bytes string_bytes IsText
      → streams.get_length streams.fresh ≡ 0
      → IsTwosComplement
      → (t : Ros2Time) (m : StdTime) (out : streams.OStream) (input : streams.IStream)
        (more : List ℕ)
      → IsInt32 t.sec
      → IsUint32 m.«data».sec
      → IsUint32 m.«data».nsec
      → (time_to_stream streams on t out).0 ≡ ok tt
      → left input ≡ std_time_bytes m ++ more
      → (written (time_to_stream streams on t out).1
          ≡ written out ++ std_time_bytes (std_time_2_to_1 t))
        × (time_stream_length streams on t ≡ length (std_time_bytes (std_time_2_to_1 t)) % 2 ^ 32)
        × ((time_from_stream streams on input).0 ≡ ok (std_time_1_to_2 m))
        × (left (time_from_stream streams on input).1 ≡ more)
  unfolding time_to_stream time_stream_length time_from_stream std_time_1_to_2 std_time_2_to_1
      time_1_to_2 time_2_to_1 std_time_wire
  times_agree faithful empty complement t m out input more valid sec_valid nsec_valid returned
        starts =
      rw (sym (complement t.sec valid)) (
        wire_round_trip streams written left _
          (time_wire-IsFaithful streams written left on int32_bytes uint32_bytes string_bytes IsText
            faithful)
          empty t (time_1_to_2 m.«data») out input more
          (to_int32-IsInt32 m.«data».sec sec_valid, nsec_valid) returned
          (starts
            ∙ ap (λ l. (l ++ uint32_bytes m.«data».nsec) ++ more)
                (sym (int32_bytes-to_int32 m.«data».sec complement sec_valid))))
