-- ===== src/Fields/Primitive.antt =====
-- resource/interface_factories.cpp.em: streamPrimitiveVector, which copies a vector of primitive
-- elements in one piece, as it lies in memory.
use ros1_bridge.Prelude.{
  ℕ, zero, suc, ◌*◌, ◌%◌, ◌^◌, ◌<◌, ◌≡◌, refl, sym, ap, ◌∙◌, subst, List, [], ◌∷◌, ◌++◌, length,
  length-append, arith,
}
use ros1_bridge.Prelude.Exec.{Exec, raise, undefined, pure, ◌>>=◌, ◌>>◌}
use ros1_bridge.Convert.Streams.{Streams, Wire}
use ros1_bridge.Convert.Streams.Faithful.{Writes}

-- An element in memory, and memcpy to and from the place that a stream advances over.
pub record Memory (streams : Streams) (A : Type 0) : Type 0 where
  pub size_of : ℕ
  pub bytes : A → List ℕ
  pub of_bytes : ℕ → List ℕ → List A
  pub write : List ℕ → Exec streams.OStream (Unit {0})
  pub read : ℕ → Exec streams.IStream (List ℕ)
  pub advance : ℕ → streams.LStream → streams.LStream

abbrev pub take : ℕ → List ℕ → List ℕ
take zero bs = []
take (suc n) [] = []
take (suc n) (b ∷ bs) = b ∷ take n bs

module _ {streams : Streams} {A : Type 0} (memory : Memory streams A) where
  abbrev pub all_bytes : List A → List ℕ
  all_bytes [] = []
  all_bytes (x ∷ xs) = memory.bytes x ++ all_bytes xs

  -- A uint32_t.
  abbrev pub data_length : ℕ → ℕ
  data_length n = n * memory.size_of % 2 ^ 32

  -- The front of a vector without elements is undefined.
  unfoldable pub write_vector : List A → Exec streams.OStream (Unit {0})
  write_vector [] = raise undefined
  write_vector (x ∷ xs) = memory.write (take (data_length (length (x ∷ xs))) (all_bytes (x ∷ xs)))

  unfoldable pub read_vector : ℕ → Exec streams.IStream (List A)
  read_vector zero = raise undefined
  read_vector (suc n) = do
    read_bytes ← memory.read (data_length (suc n))
    pure (memory.of_bytes (suc n) read_bytes)

  -- A sequence of primitive elements.
  unfoldable pub primitive_vector_wire : Wire streams ℕ → Wire streams (List A)
  primitive_vector_wire uint32 = record {
    put = λ xs. (do uint32.put (length xs % 2 ^ 32); write_vector xs);
    get = (do data_len ← uint32.get; read_vector data_len);
    count = λ xs stream.
        memory.advance (data_length (length xs)) (uint32.count (length xs % 2 ^ 32) stream);
  }

  take_whole : (bs : List ℕ) (n : ℕ) → n ≡ length bs → take n bs ≡ bs
  take_whole [] zero e = refl
  take_whole [] (suc n) e = absurd (omega (arith, e))
  take_whole (b ∷ bs) zero e = absurd (omega (arith, e))
  take_whole (b ∷ bs) (suc n) e = ap (λ l. b ∷ l) (take_whole bs n (omega (arith, e)))

  length-all_bytes :
      ((x : A) → length (memory.bytes x) ≡ memory.size_of)
      → (xs : List A) → length (all_bytes xs) ≡ length xs * memory.size_of
  length-all_bytes sized [] = omega arith
  length-all_bytes sized (x ∷ xs) =
      length-append (memory.bytes x) (all_bytes xs)
      ∙ omega (arith, sized x, length-all_bytes sized xs)

  -- With elements of one size, fewer than 2^32 bytes, and a memcpy that appends: a vector that is
  -- written appends the bytes of its elements.
  pub write_vector-Writes :
      (written : streams.OStream → List ℕ) (left : streams.IStream → List ℕ)
      → ((x : A) → length (memory.bytes x) ≡ memory.size_of)
      → ((bs : List ℕ) → Writes streams written left (memory.write bs) bs)
      → (xs : List A) → length xs * memory.size_of < 2 ^ 32
      → Writes streams written left (write_vector xs) (all_bytes xs)
  unfolding write_vector
  write_vector-Writes written left sized appends [] few s h = cc
  write_vector-Writes written left sized appends (x ∷ xs) few s h =
      let whole : take (data_length (length (x ∷ xs))) (all_bytes (x ∷ xs)) ≡ all_bytes (x ∷ xs) =
        take_whole (all_bytes (x ∷ xs)) (data_length (length (x ∷ xs)))
          (small (length (x ∷ xs) * memory.size_of) few ∙ sym (length-all_bytes sized (x ∷ xs))) in
      subst (λ bs. Writes streams written left (memory.write bs) (all_bytes (x ∷ xs))) (sym whole)
        (appends (all_bytes (x ∷ xs))) s h
    where
      small : (n : ℕ) → n < 2 ^ 32 → n % 2 ^ 32 ≡ n
      small n h = omega (arith, h)
