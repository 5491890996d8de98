-- ===== src/Factory/Generic/Outcome.antt =====
-- What the conversions of serialized messages give, and their round trip.
use ros1_bridge.Prelude.{
  ℕ, Bool, ◌≡◌, refl, true, false, Option, none, some, List, length, length-resize, ◌⊎◌, ◌≢◌, inl,
  inr,
}
use ros1_bridge.Prelude.Exec.{Result, ok, throw}
use ros1_bridge.Messages.{Value, Conversion, to_1, to_2, convert_value}
use ros1_bridge.Messages.Types.{FieldType, HasType, Converts}
use ros1_bridge.Messages.Preserved.{Gives, convert_value-Keeps}
use ros1_bridge.Factory.Generic.{
  Serialization, write_ros1, write_ros2, convert_2_to_1_generic, convert_1_to_2_generic,
}

-- The call returns true and leaves the message's form on the wire, or ends with the exception of the
-- conversion and leaves what was there.
abbrev pub Leaves :
    {Wire : Type 0} → (Value → Wire) → Wire → Result Value → Result Bool × Wire → Type 0
Leaves wire old (ok m) call = call ≡ (ok true, wire m)
Leaves wire old (throw e) call = call ≡ (throw e, old)

module _ (on : Serialization) (τ₁ τ₂ : FieldType) where
  -- What the two serializations document, for messages of the declared types: `bytes` is the message
  -- on the wire of ROS 1, and `sent` the one of ROS 2. A default constructor makes such a message.
  pub record IsFaithful (bytes : Value → List ℕ) (sent : Value → on.SerializedMessage)
      : Type 0 where
    pub fresh1 : HasType on.fresh1 τ₁
    pub fresh2 : HasType on.fresh2 τ₂
    pub length_bytes : (m : Value) → HasType m τ₁ → length (bytes m) ≡ on.serialization_length m
    pub serialize :
        (m : Value) (buffer : List ℕ)
        → HasType m τ₁
        → length buffer ≡ on.serialization_length m
        → on.serialize m buffer ≡ (ok tt, bytes m)
    pub deserialize : (m old : Value) → HasType m τ₁ → on.deserialize (bytes m) old ≡ ok m
    pub rmw_serialize :
        (m : Value) (support : on.TypeSupport) (old : on.SerializedMessage)
        → HasType m τ₂
        → on.rmw_serialize m support old ≡ (ok true, sent m)
    pub rmw_deserialize :
        (m old : Value) (support : on.TypeSupport)
        → HasType m τ₂
        → on.rmw_deserialize (sent m) support old ≡ some m

  module _ (conversion : Conversion) (bytes : Value → List ℕ) (sent : Value → on.SerializedMessage)
      (faithful : IsFaithful bytes sent) (converts : Converts conversion τ₁ τ₂) where
    written_ros1 :
        (m2 : Value) (buffer : List ℕ) (r : Result Value)
        → convert_value to_1 conversion m2 on.fresh1 ≡ r
        → Gives to_1 τ₁ r
        → Leaves bytes buffer r (write_ros1 on conversion (some m2) buffer)
    unfolding write_ros1
    written_ros1 m2 buffer (ok m1) e typed =
        rw (e, write_ros1) (rw (faithful.serialize m1 _ typed (length-resize 0 _ buffer)) refl)
    written_ros1 m2 buffer (throw ex) e typed = rw (e, write_ros1) refl

    written_ros2 :
        (support : on.TypeSupport) (m1 : Value) (out : on.SerializedMessage) (r : Result Value)
        → convert_value to_2 conversion m1 on.fresh2 ≡ r
        → Gives to_2 τ₂ r
        → Leaves sent out r (write_ros2 on conversion support (ok m1) out)
    unfolding write_ros2
    written_ros2 support m1 out (ok m2) e typed =
        rw (e, write_ros2) (faithful.rmw_serialize m2 support out typed)
    written_ros2 support m1 out (throw ex) e typed = rw (e, write_ros2) refl

    typed_1 :
        (m2 : Value) → HasType m2 τ₂ → Gives to_1 τ₁ (convert_value to_1 conversion m2 on.fresh1)
    typed_1 m2 h = convert_value-Keeps to_1 conversion τ₁ τ₂ converts m2 on.fresh1 h faithful.fresh1

    typed_2 :
        (m1 : Value) → HasType m1 τ₁ → Gives to_2 τ₂ (convert_value to_2 conversion m1 on.fresh2)
    typed_2 m1 h = convert_value-Keeps to_2 conversion τ₁ τ₂ converts m1 on.fresh2 h faithful.fresh2

    -- Over serializations that are faithful for messages of the declared types, for a conversion that
    -- compiles for them: without a type support both conversions of a serialized message
    -- return false and leave the message to fill in as it was. With one, they return true and leave
    -- the serialized form of the converted message there, whatever it held and however long it was,
    -- or, where the generated conversion fails, end with its exception and leave it as it was.
    pub generic_conversions :
        (support : Option on.TypeSupport) (m1 m2 : Value) (buffer : List ℕ)
        (out : on.SerializedMessage)
        → HasType m1 τ₁
        → HasType m2 τ₂
        → ((support ≡ none)
            × (convert_2_to_1_generic on conversion support (sent m2) buffer ≡ (ok false, buffer))
            × (convert_1_to_2_generic on conversion support (bytes m1) out ≡ (ok false, out)))
          ⊎ ((support ≢ none)
              × Leaves bytes buffer
                  (convert_value to_1 conversion m2 on.fresh1)
                  (convert_2_to_1_generic on conversion support (sent m2) buffer)
              × Leaves sent out
                  (convert_value to_2 conversion m1 on.fresh2)
                  (convert_1_to_2_generic on conversion support (bytes m1) out))
    unfolding convert_2_to_1_generic convert_1_to_2_generic
    generic_conversions none m1 m2 buffer out h1 h2 = inl (refl, refl, refl)
    generic_conversions (some support) m1 m2 buffer out h1 h2 = inr (
      λ e. cc,
      rw (faithful.rmw_deserialize m2 on.fresh2 support h2) (
          written_ros1 m2 buffer (convert_value to_1 conversion m2 on.fresh1) refl (typed_1 m2 h2)),
      rw (faithful.deserialize m1 on.fresh1 h1) (
          written_ros2 support m1 out (convert_value to_2 conversion m1 on.fresh2) refl
            (typed_2 m1 h1)),
    )
