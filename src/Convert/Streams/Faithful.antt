-- ===== src/Convert/Streams/Faithful.antt =====
-- What a wire does to the bytes of its streams: the conditions that ros::serialization documents for
-- the types of fields, and that a wire made of them inherits.
use ros1_bridge.Prelude.{
  ℕ, ◌+◌, ◌%◌, ◌^◌, ◌≡◌, refl, sym, ap, ◌∙◌, subst, List, ◌++◌, length, length-append, arith,
}
use mathlib.Core.List.{append_assoc}
use ros1_bridge.Prelude.Exec.{Exec, ok, pure, ◌>>=◌, ◌>>◌, bind_returned, bind-eq_of_returned}
use ros1_bridge.Convert.Streams.{
  Streams, Wire, convert_1_to_2, convert_2_to_1, length_2_as_1_stream,
}

-- `written` is what an output stream holds, `left` what an input stream has yet to give.
module _ (streams : Streams) (written : streams.OStream → List ℕ)
    (left : streams.IStream → List ℕ) where
  -- A run appends `bytes` to an output stream, where it returns.
  abbrev pub Writes : Exec streams.OStream (Unit {0}) → List ℕ → Type 0
  Writes m bytes = (s : streams.OStream) → (m s).0 ≡ ok tt → written (m s).1 ≡ written s ++ bytes

  -- A run returns `a` and takes `bytes` from an input stream that starts with them.
  abbrev pub Reads : {A : Type 0} → Exec streams.IStream A → A → List ℕ → Type 0
  Reads m a bytes =
      (s : streams.IStream) (more : List ℕ)
      → left s ≡ bytes ++ more
      → ((m s).0 ≡ ok a) × (left (m s).1 ≡ more)

  -- The length grows by the count of `bytes`, as a uint32_t.
  abbrev pub Counts : (streams.LStream → streams.LStream) → List ℕ → Type 0
  Counts f bytes =
      (s : streams.LStream)
      → streams.get_length (f s) ≡ (streams.get_length s + length bytes) % 2 ^ 32

  pub Writes-then :
      (m n : Exec streams.OStream (Unit {0})) (xs ys : List ℕ)
      → Writes m xs
      → Writes n ys
      → Writes (m >> n) (xs ++ ys)
  Writes-then m n xs ys first second s h =
      let (_, e, rest) = bind_returned m (λ _. n) s h in
      rw rest (
        second (m s).1 (sym (ap (λ x. x.0) rest) ∙ h)
        ∙ ap (λ l. l ++ ys) (first s e)
        ∙ append_assoc (written s) xs ys)

  pub Reads-then :
      {A B : Type 0} (m : Exec streams.IStream A) (f : A → Exec streams.IStream B) (a : A) (b : B)
      (xs ys : List ℕ)
      → Reads m a xs
      → Reads (f a) b ys
      → Reads (m >>= f) b (xs ++ ys)
  Reads-then m f a b xs ys first second s more h =
      let (e, l) = first s (ys ++ more) (h ∙ append_assoc xs ys more) in
      rw (bind-eq_of_returned m f s e) (second (m s).1 more l)

  pub Reads-last :
      {A B : Type 0} (m : Exec streams.IStream A) (f : A → B) (a : A) (xs : List ℕ)
      → Reads m a xs
      → Reads (m >>= λ x. pure (f x)) (f a) xs
  Reads-last m f a xs first s more h =
      let (e, l) = first s more h in rw (bind-eq_of_returned m (λ x. pure (f x)) s e) (refl, l)

  pub Counts-then :
      (f g : streams.LStream → streams.LStream) (xs ys : List ℕ)
      → Counts f xs
      → Counts g ys
      → Counts (λ s. g (f s)) (xs ++ ys)
  Counts-then f g xs ys first second s = omega (arith, first s, second (f s), length-append xs ys)

  -- What ros::serialization documents for a type of field.
  pub record IsFaithful {A : Type 0} (wire : Wire streams A) (IsValid : A → Type 0)
      (bytes : A → List ℕ) : Type 0 where
    pub puts : (a : A) → Writes (wire.put a) (bytes a)
    pub gets : (a : A) → IsValid a → Reads wire.get a (bytes a)
    pub counts : (a : A) → Counts (wire.count a) (bytes a)

  -- A wire for a message of two fields.
  pub pair-IsFaithful :
      {A B C : Type 0} (a : Wire streams A) (b : Wire streams B) (wire : Wire streams C)
      (make : A → B → C) (first : C → A) (second : C → B) {P : A → Type 0} {Q : B → Type 0}
      {xs : A → List ℕ} {ys : B → List ℕ}
      → ((c : C) → make (first c) (second c) ≡ c)
      → wire ≡ record {
        put = λ c. (do a.put (first c); b.put (second c));
        get = (do x ← a.get; y ← b.get; pure (make x y));
        count = λ c stream. b.count (second c) (a.count (first c) stream);
      }
      → IsFaithful a P xs
      → IsFaithful b Q ys
      → IsFaithful wire (λ c. P (first c) × Q (second c)) (λ c. xs (first c) ++ ys (second c))
  pair-IsFaithful a b wire make first second {P} {Q} {xs} {ys} whole same l r = rw same (record {
    puts = λ c.
        Writes-then (a.put (first c)) (b.put (second c)) _ _ (l.puts (first c)) (r.puts (second c));
    gets = λ c valid.
        Reads-then a.get _ (first c) c (xs (first c)) (ys (second c)) (l.gets (first c) valid.0) (
          subst (λ d. Reads (b.get >>= λ y. pure (make (first c) y)) d (ys (second c))) (whole c)
            (Reads-last b.get (make (first c)) (second c) (ys (second c))
              (r.gets (second c) valid.1)));
    counts = λ c.
        Counts-then (a.count (first c)) (b.count (second c)) _ _ (l.counts (first c))
          (r.counts (second c));
  })

  pub wire_round_trip :
      {A : Type 0} (wire : Wire streams A) {IsValid : A → Type 0} {bytes : A → List ℕ}
      → IsFaithful wire IsValid bytes
      → streams.get_length streams.fresh ≡ 0
      → (a b : A) (out : streams.OStream) (input : streams.IStream) (more : List ℕ) → IsValid b
      → (convert_2_to_1 wire a out).0 ≡ ok tt
      → left input ≡ bytes b ++ more
      → (written (convert_2_to_1 wire a out).1 ≡ written out ++ bytes a)
        × (length_2_as_1_stream wire a ≡ length (bytes a) % 2 ^ 32)
        × ((convert_1_to_2 wire input).0 ≡ ok b)
        × (left (convert_1_to_2 wire input).1 ≡ more)
  unfolding convert_1_to_2 convert_2_to_1 length_2_as_1_stream
  wire_round_trip wire faithful empty a b out input more valid returned starts =
      let (value, rest) = faithful.gets b valid input more starts in
      (
        faithful.puts a out returned,
        omega (arith, faithful.counts a streams.fresh, empty),
        value,
        rest,
      )
