-- ===== src/Tests/Sequences.antt =====
-- The theorems on sequences, applied.
use ros1_bridge.Prelude.{ℕ, ◌+◌, ◌%◌, ◌^◌, ◌≡◌, refl, ap, List, [], ◌∷◌, ◌++◌, length, arith}
use ros1_bridge.Prelude.Exec.{ok}
use ros1_bridge.Prelude.Int.{ℤ, pos, negsuc, IsUint32}
use ros1_bridge.DynamicBridge.ServiceInfo.{bytes_of_u32}
use ros1_bridge.DynamicBridge.ServiceInfo.Outcome.{u32_of_bytes-bytes_of_u32}
use ros1_bridge.Convert.Streams.{
  Streams, Wire, convert_1_to_2, convert_2_to_1, length_2_as_1_stream,
}
use ros1_bridge.Convert.Streams.Faithful.{IsFaithful}
use ros1_bridge.Fields.{
  convert_sequence, convert_bounded_sequence, convert_elements, sequence_wire, put_elements,
}
use ros1_bridge.Fields.Elements.{sequences_round_trip}
use ros1_bridge.Fields.Streamed.{sequence_stream_round_trip}
use ros1_bridge.Tests.Conversions.{get_uint32, append_bytes}

abbrev there : ℕ → ℤ → ℤ
there n old = pos n

abbrev value_back : ℤ → ℕ
value_back (pos n) = n
value_back (negsuc n) = 0

sequences_round_trip_test :
    (convert_sequence
        (λ z old. value_back z)
        9
        (convert_sequence there (negsuc 0) (1 ∷ 2 ∷ []) (pos 7 ∷ []))
        (3 ∷ 4 ∷ 5 ∷ [])
      ≡ 1 ∷ 2 ∷ [])
    × (convert_bounded_sequence 2 there (negsuc 0) (1 ∷ 2 ∷ []) (pos 7 ∷ [])
        ≡ ok (convert_sequence there (negsuc 0) (1 ∷ 2 ∷ []) (pos 7 ∷ [])))
    × (convert_elements
          (λ z old. value_back z)
          (convert_elements there (1 ∷ 2 ∷ []) (pos 0 ∷ pos 0 ∷ []))
          (0 ∷ 0 ∷ [])
        ≡ 1 ∷ 2 ∷ [])
sequences_round_trip_test =
    sequences_round_trip there (λ z old. value_back z) (λ n. pos n) value_back (λ x y. refl)
      (λ y x. refl) (λ x. refl) (negsuc 0) 9 2 (1 ∷ 2 ∷ []) (pos 7 ∷ []) (3 ∷ 4 ∷ 5 ∷ [])
      (pos 0 ∷ pos 0 ∷ []) (0 ∷ 0 ∷ []) (omega arith) refl refl

abbrev short_bytes : Streams
short_bytes = record {
  OStream = List ℕ;
  IStream = List ℕ;
  LStream = ℕ;
  fresh = 0;
  get_length = λ n. n % 2 ^ 32;
}

abbrev uint32 : Wire short_bytes ℕ
uint32 = record {
  put = append_bytes bytes_of_u32;
  get = get_uint32;
  count = λ a n. n + length (bytes_of_u32 a);
}

faithful_uint32 : IsFaithful short_bytes (λ s. s) (λ s. s) uint32 IsUint32 bytes_of_u32
faithful_uint32 = record {
  puts = λ a s h. refl;
  gets = λ a valid s more h. rw h (ap ok (u32_of_bytes-bytes_of_u32 a valid), refl);
  counts = λ a s. omega arith;
}

abbrev two : List ℕ
two = bytes_of_u32 2 ++ (bytes_of_u32 70000 ++ (bytes_of_u32 5 ++ []))

sequence_stream_round_trip_example :
    ((convert_2_to_1 (sequence_wire uint32 uint32) (70000 ∷ 5 ∷ []) []).1 ≡ [] ++ two)
    × (length_2_as_1_stream (sequence_wire uint32 uint32) (70000 ∷ 5 ∷ []) ≡ length two % 2 ^ 32)
    × ((convert_1_to_2 (sequence_wire uint32 uint32) (two ++ [])).0 ≡ ok (70000 ∷ 5 ∷ []))
    × ((convert_1_to_2 (sequence_wire uint32 uint32) (two ++ [])).1 ≡ [])
unfolding convert_2_to_1 sequence_wire put_elements
sequence_stream_round_trip_example =
    sequence_stream_round_trip short_bytes (λ s. s) (λ s. s) uint32 uint32 IsUint32 bytes_of_u32
      bytes_of_u32 faithful_uint32 faithful_uint32 (λ s. omega arith) refl (70000 ∷ 5 ∷ [])
      (70000 ∷ 5 ∷ []) [] (two ++ []) [] (omega arith, (omega arith, tt)) (omega arith) refl refl
