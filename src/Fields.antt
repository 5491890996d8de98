-- ===== src/Fields.antt =====
-- resource/interface_factories.cpp.em: how the generated conversions treat a field that is an array
-- or a sequence. The conversion of an element, and its stream helper, come as arguments.
pub mod Elements
pub mod Streamed
pub mod Primitive
use ros1_bridge.Prelude.{
  ℕ, zero, suc, ◌%◌, ◌^◌, Bool, true, false, if◌then◌else◌, List, [], ◌∷◌, length, resize,
}
use ros1_bridge.Prelude.Exec.{Exec, Result, ok, throw, other, pure, ◌>>=◌, ◌>>◌}
use ros1_bridge.Prelude.Int.{ltb}
use ros1_bridge.Convert.Streams.{Streams, Wire}

-- The loop over two iterators: each element of the source is converted into the one that stands at
-- its place in the destination, until one of the two ends.
unfoldable pub convert_elements : {A B : Type 0} → (A → B → B) → List A → List B → List B
convert_elements convert [] ys = ys
convert_elements convert (x ∷ xs) [] = []
convert_elements convert (x ∷ xs) (y ∷ ys) = convert x y ∷ convert_elements convert xs ys

-- A sequence of any size.
unfoldable pub convert_sequence : {A B : Type 0} → (A → B → B) → B → List A → List B → List B
convert_sequence convert fresh source destination =
    convert_elements convert source (resize fresh (length source) destination)

-- A sequence with an upper bound for its size: the assertion.
unfoldable pub convert_bounded_sequence :
    {A B : Type 0} → ℕ → (A → B → B) → B → List A → List B → Result (List B)
convert_bounded_sequence maximum_size convert fresh source destination =
    if ltb maximum_size (length source)
    then throw (other "assertion failed")
    else ok (convert_sequence convert fresh source destination)

module _ {streams : Streams} {A : Type 0} (element : Wire streams A) where
  unfoldable pub put_elements : List A → Exec streams.OStream (Unit {0})
  put_elements [] = pure tt
  put_elements (x ∷ xs) = do element.put x; put_elements xs

  unfoldable pub get_elements : ℕ → Exec streams.IStream (List A)
  get_elements zero = pure []
  get_elements (suc n) = do x ← element.get; xs ← get_elements n; pure (x ∷ xs)

  unfoldable pub count_elements : List A → streams.LStream → streams.LStream
  count_elements [] stream = stream
  count_elements (x ∷ xs) stream = count_elements xs (element.count x stream)

  -- A sequence: its size as a uint32_t, and then its elements.
  unfoldable pub sequence_wire : Wire streams ℕ → Wire streams (List A)
  sequence_wire uint32 = record {
    put = λ xs. (do uint32.put (length xs % 2 ^ 32); put_elements xs);
    get = (do data_len ← uint32.get; get_elements data_len);
    count = λ xs stream. count_elements xs (uint32.count (length xs % 2 ^ 32) stream);
  }
