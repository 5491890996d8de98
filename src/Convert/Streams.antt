-- ===== src/Convert/Streams.antt =====
-- The stream helpers of src/convert_builtin_interfaces.cpp and src/builtin_interfaces_factories.cpp.
-- The streams are those of ros::serialization and come as the record `Streams`, with what `next`
-- does for each type of field as a `Wire`.
pub mod Faithful
pub mod RoundTrip
pub mod Agreement
use ros1_bridge.Prelude.{ℕ, String}
use ros1_bridge.Prelude.Exec.{Exec, pure, ◌>>=◌, ◌>>◌}
use ros1_bridge.Prelude.Int.{ℤ}
use ros1_bridge.Convert.{Ros2Duration, Ros2Time}

pub record Streams : Type 1 where
  pub OStream : Type 0
  pub IStream : Type 0
  pub LStream : Type 0
  -- LStream's constructor, and getLength.
  pub fresh : LStream
  pub get_length : LStream → ℕ

-- `next` of the three streams for a type of field.
pub record Wire (streams : Streams) (A : Type 0) : Type 0 where
  pub put : A → Exec streams.OStream (Unit {0})
  pub get : Exec streams.IStream A
  pub count : A → streams.LStream → streams.LStream

pub record Primitives (streams : Streams) : Type 0 where
  pub int32 : Wire streams ℤ
  pub uint32 : Wire streams ℕ
  pub string : Wire streams String

-- std_msgs::msg::Header
pub record Header : Type 0 where
  pub stamp : Ros2Time
  pub frame_id : String

module _ (streams : Streams) (on : Primitives streams) where
  -- internal_stream_translate_helper for each stream.
  unfoldable pub duration_wire : Wire streams Ros2Duration
  duration_wire = record {
    put = λ d. (do on.int32.put d.sec; on.uint32.put d.nanosec);
    get = (do
      sec ← on.int32.get
      nanosec ← on.uint32.get
      pure (record { sec = sec; nanosec = nanosec }));
    count = λ d stream. on.uint32.count d.nanosec (on.int32.count d.sec stream);
  }

  unfoldable pub time_wire : Wire streams Ros2Time
  time_wire = record {
    put = λ t. (do on.int32.put t.sec; on.uint32.put t.nanosec);
    get = (do
      sec ← on.int32.get
      nanosec ← on.uint32.get
      pure (record { sec = sec; nanosec = nanosec }));
    count = λ t stream. on.uint32.count t.nanosec (on.int32.count t.sec stream);
  }

  -- The header of ROS 1 starts with a number that the one of ROS 2 does not have: it is written
  -- as 0, and read and dropped.
  unfoldable pub header_wire : Wire streams Header
  header_wire = record {
    put = λ h. (do on.uint32.put 0; time_wire.put h.stamp; on.string.put h.frame_id);
    get = (do
      on.uint32.get
      stamp ← time_wire.get
      frame_id ← on.string.get
      pure (record { stamp = stamp; frame_id = frame_id }));
    count =
        λ h stream. on.string.count h.frame_id (time_wire.count h.stamp (on.uint32.count 0 stream));
  }

-- convert_2_to_1, convert_1_to_2 and length_2_as_1_stream of a factory.
module _ {streams : Streams} {A : Type 0} (wire : Wire streams A) where
  unfoldable pub convert_2_to_1 : A → Exec streams.OStream (Unit {0})
  convert_2_to_1 message out_stream = wire.put message out_stream

  unfoldable pub convert_1_to_2 : Exec streams.IStream A
  convert_1_to_2 in_stream = wire.get in_stream

  unfoldable pub length_2_as_1_stream : A → ℕ
  length_2_as_1_stream message = streams.get_length (wire.count message streams.fresh)
