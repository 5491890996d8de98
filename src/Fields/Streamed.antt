-- ===== src/Fields/Streamed.antt =====
-- Sequences on the streams of ROS 1.
use ros1_bridge.Prelude.{
  ℕ, ◌<◌, ◌%◌, ◌^◌, ◌≡◌, refl, sym, subst, List, [], ◌∷◌, ◌++◌, All, length, arith,
}
use mathlib.Core.List.{append-nil}
use ros1_bridge.Prelude.Exec.{ok}
use ros1_bridge.Prelude.Int.{IsUint32}
use ros1_bridge.Convert.Streams.{
  Streams, Wire, convert_1_to_2, convert_2_to_1, length_2_as_1_stream,
}
use ros1_bridge.Convert.Streams.Faithful.{
  Writes, Reads, Counts, Writes-then, Reads-then, Reads-last, Counts-then, IsFaithful,
  wire_round_trip,
}
use ros1_bridge.Fields.{put_elements, get_elements, count_elements, sequence_wire}

module _ (streams : Streams) (written : streams.OStream → List ℕ) (left : streams.IStream → List ℕ)
    {A : Type 0} (element : Wire streams A) (uint32 : Wire streams ℕ) (IsValid : A → Type 0)
    (bytes : A → List ℕ) (uint32_bytes : ℕ → List ℕ)
    (faithful : IsFaithful streams written left element IsValid bytes)
    (sizes : IsFaithful streams written left uint32 IsUint32 uint32_bytes)
    (short : (s : streams.LStream) → streams.get_length s < 2 ^ 32) where
  abbrev pub elements_bytes : List A → List ℕ
  elements_bytes [] = []
  elements_bytes (x ∷ xs) = bytes x ++ elements_bytes xs

  -- The size of a sequence, as a uint32_t, and its elements.
  abbrev pub sequence_bytes : List A → List ℕ
  sequence_bytes xs = uint32_bytes (length xs % 2 ^ 32) ++ elements_bytes xs

  abbrev pub IsSequence : List A → Type 0
  IsSequence xs = All IsValid xs × (length xs < 2 ^ 32)

  put_elements-Writes :
      (xs : List A) → Writes streams written left (put_elements element xs) (elements_bytes xs)
  unfolding put_elements
  put_elements-Writes [] s h = sym (append-nil (written s))
  put_elements-Writes (x ∷ xs) s h =
      Writes-then streams written left (element.put x) (put_elements element xs) (bytes x)
        (elements_bytes xs) (faithful.puts x) (put_elements-Writes xs) s h

  get_elements-Reads :
      (xs : List A)
      → All IsValid xs
      → Reads streams written left (get_elements element (length xs)) xs (elements_bytes xs)
  unfolding get_elements
  get_elements-Reads [] valid s more h = (refl, h)
  get_elements-Reads (x ∷ xs) (first, rest) s more h =
      Reads-then streams written left element.get _ x (x ∷ xs) (bytes x) (elements_bytes xs)
        (faithful.gets x first)
        (Reads-last streams written left (get_elements element (length xs)) (λ l. x ∷ l) xs
          (elements_bytes xs) (get_elements-Reads xs rest))
        s more h

  count_elements-Counts :
      (xs : List A) → Counts streams written left (count_elements element xs) (elements_bytes xs)
  unfolding count_elements
  count_elements-Counts [] s = omega (arith, short s)
  count_elements-Counts (x ∷ xs) s =
      Counts-then streams written left (element.count x) (count_elements element xs) (bytes x)
        (elements_bytes xs) (faithful.counts x) (count_elements-Counts xs) s

  sequence_wire-IsFaithful :
      IsFaithful streams written left (sequence_wire element uint32) IsSequence sequence_bytes
  unfolding sequence_wire
  sequence_wire-IsFaithful = record {
    puts = λ xs.
        Writes-then streams written left (uint32.put (length xs % 2 ^ 32)) (put_elements element xs)
          (uint32_bytes (length xs % 2 ^ 32)) (elements_bytes xs) (sizes.puts (length xs % 2 ^ 32))
          (put_elements-Writes xs);
    gets = λ xs valid.
        let size : length xs % 2 ^ 32 ≡ length xs = omega (arith, valid.1) in
        Reads-then streams written left uint32.get (get_elements element) (length xs % 2 ^ 32) xs
          (uint32_bytes (length xs % 2 ^ 32)) (elements_bytes xs)
          (sizes.gets (length xs % 2 ^ 32) (omega arith))
          (subst (λ n. Reads streams written left (get_elements element n) xs (elements_bytes xs))
            (sym size) (get_elements-Reads xs valid.0));
    counts = λ xs.
        Counts-then streams written left (uint32.count (length xs % 2 ^ 32))
          (count_elements element xs) (uint32_bytes (length xs % 2 ^ 32)) (elements_bytes xs)
          (sizes.counts (length xs % 2 ^ 32)) (count_elements-Counts xs);
  }

  -- Over a faithful stream for the elements and for the size, with lengths that are a uint32_t and an
  -- empty one to start from: writing a sequence, where it returns, appends its size, as a uint32_t,
  -- and the bytes of its elements; the length that is announced is the count of those bytes; and
  -- an input stream that starts with those of a sequence of valid elements, of fewer than 2^32,
  -- gives it back and goes on behind them.
  pub sequence_stream_round_trip :
      streams.get_length streams.fresh ≡ 0
      → (xs ys : List A) (out : streams.OStream) (input : streams.IStream) (more : List ℕ)
      → All IsValid ys
      → length ys < 2 ^ 32
      → (convert_2_to_1 (sequence_wire element uint32) xs out).0 ≡ ok tt
      → left input ≡ sequence_bytes ys ++ more
      → (written (convert_2_to_1 (sequence_wire element uint32) xs out).1
          ≡ written out ++ sequence_bytes xs)
        × (length_2_as_1_stream (sequence_wire element uint32) xs
            ≡ length (sequence_bytes xs) % 2 ^ 32)
        × ((convert_1_to_2 (sequence_wire element uint32) input).0 ≡ ok ys)
        × (left (convert_1_to_2 (sequence_wire element uint32) input).1 ≡ more)
  sequence_stream_round_trip empty xs ys out input more valid few returned starts =
      wire_round_trip streams written left (sequence_wire element uint32) sequence_wire-IsFaithful
        empty xs ys out input more (valid, few) returned starts
