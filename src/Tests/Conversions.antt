-- ===== src/Tests/Conversions.antt =====
-- The theorems on conversions, applied. The streams are lists of bytes, lowest byte first, and
-- know one text.
use ros1_bridge.Prelude.{
  ℕ, ◌+◌, ◌%◌, ◌^◌, String, ◌≡◌, refl, ap, sym, ◌∙◌, List, [], ◌∷◌, ◌++◌, length, arith,
}
use ros1_bridge.Prelude.Exec.{Exec, ok, throw, other}
use ros1_bridge.Prelude.Int.{
  ℤ, pos, negsuc, to_int32, to_uint32, to_int32-to_uint32, to_uint32-IsUint32,
}
use ros1_bridge.DynamicBridge.ServiceInfo.{bytes_of_u32, u32_of_bytes}
use ros1_bridge.DynamicBridge.ServiceInfo.Outcome.{u32_of_bytes-bytes_of_u32}
use ros1_bridge.Convert.{duration_1_to_2, duration_2_to_1, time_1_to_2, time_2_to_1}
use ros1_bridge.Convert.Wrap.{duration_round_trips, time_round_trips}
use ros1_bridge.Convert.Streams.{
  Streams, Primitives, Header, header_wire, time_wire, convert_1_to_2, convert_2_to_1,
  length_2_as_1_stream,
}
use ros1_bridge.Convert.Streams.RoundTrip.{AreFaithful, header_bytes, header_round_trip}

duration_round_trips_test :
    (duration_2_to_1 (duration_1_to_2 (record { sec = pos 1; nsec = negsuc 4 }))
      ≡ record { sec = pos 1; nsec = negsuc 4 })
    × (duration_1_to_2 (duration_2_to_1 (record { sec = pos 1; nanosec = 4294967291 }))
        ≡ record { sec = pos 1; nanosec = 4294967291 })
duration_round_trips_test =
    duration_round_trips (record { sec = pos 1; nsec = negsuc 4 })
      (record { sec = pos 1; nanosec = 4294967291 }) (omega arith) (omega arith)

time_round_trips_test :
    (time_2_to_1 (time_1_to_2 (record { sec = 4294967295; nsec = 7 }))
      ≡ record { sec = 4294967295; nsec = 7 })
    × (time_1_to_2 (time_2_to_1 (record { sec = negsuc 0; nanosec = 7 }))
        ≡ record { sec = negsuc 0; nanosec = 7 })
time_round_trips_test =
    time_round_trips (record { sec = 4294967295; nsec = 7 })
      (record { sec = negsuc 0; nanosec = 7 }) (omega arith) (omega arith)

abbrev pub bytes : Streams
bytes = record { OStream = List ℕ; IStream = List ℕ; LStream = ℕ; fresh = 0; get_length = λ n. n }

abbrev pub get_uint32 : Exec (List ℕ) ℕ
get_uint32 (a ∷ b ∷ c ∷ d ∷ more) = (ok (u32_of_bytes (a ∷ b ∷ c ∷ d ∷ [])), more)
get_uint32 s = (throw (other "Buffer Overrun"), s)

abbrev get_int32 : Exec (List ℕ) ℤ
get_int32 (a ∷ b ∷ c ∷ d ∷ more) = (ok (to_int32 (u32_of_bytes (a ∷ b ∷ c ∷ d ∷ []))), more)
get_int32 s = (throw (other "Buffer Overrun"), s)

abbrev pub map_bytes : List ℕ
map_bytes = 3 ∷ 0 ∷ 0 ∷ 0 ∷ 109 ∷ 97 ∷ 112 ∷ []

abbrev get_map : Exec (List ℕ) String
get_map (a ∷ b ∷ c ∷ d ∷ e ∷ f ∷ g ∷ more) = (ok "map", more)
get_map s = (throw (other "Buffer Overrun"), s)

abbrev pub append_bytes : {A : Type 0} → (A → List ℕ) → A → Exec (List ℕ) (Unit {0})
append_bytes f a s = (ok tt, s ++ f a)

abbrev count_bytes : {A : Type 0} → (A → List ℕ) → A → ℕ → ℕ
count_bytes f a n = (n + length (f a)) % 2 ^ 32

abbrev pub primitives : Primitives bytes
primitives = record {
  int32 = record {
    put = append_bytes (λ z. bytes_of_u32 (to_uint32 z));
    get = get_int32;
    count = count_bytes (λ z. bytes_of_u32 (to_uint32 z));
  };
  uint32 = record {
    put = append_bytes bytes_of_u32;
    get = get_uint32;
    count = count_bytes bytes_of_u32;
  };
  string = record {
    put = append_bytes (λ s. map_bytes);
    get = get_map;
    count = count_bytes (λ s. map_bytes);
  };
}

pub faithful :
    AreFaithful bytes
      (λ s. s)
      (λ s. s)
      primitives
      (λ z. bytes_of_u32 (to_uint32 z))
      bytes_of_u32
      (λ s. map_bytes)
      (λ s. s ≡ "map")
faithful = record {
  int32 = record {
    puts = λ a s h. refl;
    gets = λ a valid s more h. rw h (
      ap ok (
          ap to_int32 (u32_of_bytes-bytes_of_u32 (to_uint32 a) (to_uint32-IsUint32 a))
          ∙ to_int32-to_uint32 a valid),
      refl,
    );
    counts = λ a s. refl;
  };
  uint32 = record {
    puts = λ a s h. refl;
    gets = λ a valid s more h. rw h (ap ok (u32_of_bytes-bytes_of_u32 a valid), refl);
    counts = λ a s. refl;
  };
  string = record {
    puts = λ a s h. refl;
    gets = λ a valid s more h. rw h (ap ok (sym valid), refl);
    counts = λ a s. refl;
  };
}

abbrev header : Header
header = record { stamp = record { sec = pos 5; nanosec = 6 }; frame_id = "map" }

abbrev sent : List ℕ
sent =
    header_bytes bytes (λ s. s) (λ s. s) primitives (λ z. bytes_of_u32 (to_uint32 z)) bytes_of_u32
      (λ s. map_bytes) (λ s. s ≡ "map") header

header_round_trip_example :
    ((convert_2_to_1 (header_wire bytes primitives) header []).1 ≡ [] ++ sent)
    × (length_2_as_1_stream (header_wire bytes primitives) header ≡ length sent % 2 ^ 32)
    × ((convert_1_to_2 (header_wire bytes primitives) (sent ++ [])).0 ≡ ok header)
    × ((convert_1_to_2 (header_wire bytes primitives) (sent ++ [])).1 ≡ [])
unfolding convert_2_to_1 header_wire time_wire
header_round_trip_example =
    header_round_trip bytes (λ s. s) (λ s. s) primitives (λ z. bytes_of_u32 (to_uint32 z))
      bytes_of_u32 (λ s. map_bytes) (λ s. s ≡ "map") faithful refl header [] (sent ++ []) []
      ((omega arith, omega arith), refl) refl refl
