-- ===== src/Convert/Streams/RoundTrip.antt =====
-- Writing a message to a stream of ROS 1, reading it back, and the length that is announced for it.
use ros1_bridge.Prelude.{ℕ, ◌%◌, ◌^◌, String, ◌≡◌, refl, List, ◌++◌, length, arith}
use ros1_bridge.Prelude.Exec.{ok}
use ros1_bridge.Prelude.Int.{ℤ, IsInt32, IsUint32}
use ros1_bridge.Convert.{Ros2Time, Ros2Duration}
use ros1_bridge.Convert.Streams.{
  Streams, Primitives, Header, time_wire, duration_wire, header_wire, convert_1_to_2,
  convert_2_to_1, length_2_as_1_stream,
}
use ros1_bridge.Convert.Streams.Faithful.{
  Writes-then, Reads-then, Reads-last, Counts-then, IsFaithful, pair-IsFaithful, wire_round_trip,
}

-- `written` is what an output stream holds, `left` what an input stream has yet to give.
module _ (streams : Streams) (written : streams.OStream → List ℕ)
    (left : streams.IStream → List ℕ) where
  module _ (on : Primitives streams) (int32_bytes : ℤ → List ℕ) (uint32_bytes : ℕ → List ℕ)
      (string_bytes : String → List ℕ) (IsText : String → Type 0) where
    pub record AreFaithful : Type 0 where
      pub int32 : IsFaithful streams written left on.int32 IsInt32 int32_bytes
      pub uint32 : IsFaithful streams written left on.uint32 IsUint32 uint32_bytes
      pub string : IsFaithful streams written left on.string IsText string_bytes

    abbrev pub duration_bytes : Ros2Duration → List ℕ
    duration_bytes d = int32_bytes d.sec ++ uint32_bytes d.nanosec

    abbrev pub IsDuration : Ros2Duration → Type 0
    IsDuration d = IsInt32 d.sec × IsUint32 d.nanosec

    abbrev pub time_bytes : Ros2Time → List ℕ
    time_bytes t = int32_bytes t.sec ++ uint32_bytes t.nanosec

    abbrev pub IsTime : Ros2Time → Type 0
    IsTime t = IsInt32 t.sec × IsUint32 t.nanosec

    abbrev pub header_bytes : Header → List ℕ
    header_bytes h = uint32_bytes 0 ++ (time_bytes h.stamp ++ string_bytes h.frame_id)

    abbrev pub IsHeader : Header → Type 0
    IsHeader h = IsTime h.stamp × IsText h.frame_id

    pub duration_wire-IsFaithful :
        AreFaithful
        → IsFaithful streams written left (duration_wire streams on) IsDuration duration_bytes
    unfolding duration_wire
    duration_wire-IsFaithful faithful =
        pair-IsFaithful streams written left on.int32 on.uint32 (duration_wire streams on)
          (λ sec nanosec. record { sec = sec; nanosec = nanosec }) (λ d. d.sec) (λ d. d.nanosec)
          (λ d. refl) refl faithful.int32 faithful.uint32

    pub time_wire-IsFaithful :
        AreFaithful → IsFaithful streams written left (time_wire streams on) IsTime time_bytes
    unfolding time_wire
    time_wire-IsFaithful faithful =
        pair-IsFaithful streams written left on.int32 on.uint32 (time_wire streams on)
          (λ sec nanosec. record { sec = sec; nanosec = nanosec }) (λ t. t.sec) (λ t. t.nanosec)
          (λ t. refl) refl faithful.int32 faithful.uint32

    header_wire-IsFaithful :
        AreFaithful → IsFaithful streams written left (header_wire streams on) IsHeader header_bytes
    unfolding header_wire
    header_wire-IsFaithful faithful =
        let stamps = time_wire-IsFaithful faithful in
        let time = time_wire streams on in
        record {
          puts = λ h.
              Writes-then streams written left (on.uint32.put 0) _ (uint32_bytes 0) _
                (faithful.uint32.puts 0)
                (Writes-then streams written left (time.put h.stamp) (on.string.put h.frame_id)
                  (time_bytes h.stamp) (string_bytes h.frame_id) (stamps.puts h.stamp)
                  (faithful.string.puts h.frame_id));
          gets = λ h valid.
              Reads-then streams written left on.uint32.get _ 0 h (uint32_bytes 0) _
                (faithful.uint32.gets 0 (omega arith))
                (Reads-then streams written left time.get _ h.stamp h (time_bytes h.stamp)
                  (string_bytes h.frame_id) (stamps.gets h.stamp valid.0)
                  (Reads-last streams written left on.string.get
                    (λ f. record { stamp = h.stamp; frame_id = f }) h.frame_id
                    (string_bytes h.frame_id) (faithful.string.gets h.frame_id valid.1)));
          counts = λ h.
              Counts-then streams written left (on.uint32.count 0) _ (uint32_bytes 0) _
                (faithful.uint32.counts 0)
                (Counts-then streams written left (time.count h.stamp) (on.string.count h.frame_id)
                  (time_bytes h.stamp) (string_bytes h.frame_id) (stamps.counts h.stamp)
                  (faithful.string.counts h.frame_id));
        }

    -- With faithful fields and an empty length to start from: writing a header, where it returns,
    -- appends its bytes; the length that is announced is the count of those bytes, as a
    -- uint32_t; and an input stream that starts with them gives the header back and goes on
    -- behind them.
    pub header_round_trip :
        AreFaithful
        → streams.get_length streams.fresh ≡ 0
        → (h : Header) (out : streams.OStream) (input : streams.IStream) (more : List ℕ)
        → IsHeader h
        → (convert_2_to_1 (header_wire streams on) h out).0 ≡ ok tt
        → left input ≡ header_bytes h ++ more
        → (written (convert_2_to_1 (header_wire streams on) h out).1
            ≡ written out ++ header_bytes h)
          × (length_2_as_1_stream (header_wire streams on) h ≡ length (header_bytes h) % 2 ^ 32)
          × ((convert_1_to_2 (header_wire streams on) input).0 ≡ ok h)
          × (left (convert_1_to_2 (header_wire streams on) input).1 ≡ more)
    header_round_trip faithful empty h =
        wire_round_trip streams written left (header_wire streams on)
          (header_wire-IsFaithful faithful) empty h h
