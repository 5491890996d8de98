-- ===== src/Tests/Serialized.antt =====
-- The theorems on conversions of serialized messages, applied. A message of ROS 1 is its data, a byte
-- for each element, and one of ROS 2, whose data has two elements at most, is serialized as itself.
use ros1_bridge.Prelude.{
  ℕ, ◌≡◌, ◌≢◌, ◌⊎◌, refl, sym, ap, subst, true, false, Option, none, some, List, [], ◌∷◌, length,
  arith, string_discrete,
}
use ros1_bridge.Prelude.Exec.{ok, throw, other}
use ros1_bridge.Prelude.Int.{pos, negsuc}
use ros1_bridge.Messages.{
  Primitive, Value, Members, Elements, Container, Conversion, FieldPairs, to_1, to_2, get, set,
  convert_value, convert_field, convert_each, copy, admits,
}
use ros1_bridge.Messages.Types.{
  PrimitiveType, IsOf, FieldType, Spec, HasType, HasMembers, Each, Converts, Fits, Compiles,
}
use ros1_bridge.Factory.Generic.{
  Serialization, write_ros2, convert_1_to_2_generic, convert_2_to_1_generic,
}
use ros1_bridge.Factory.Generic.Outcome.{Leaves, IsFaithful, generic_conversions}

abbrev byte : ℕ → Value
byte n = Value.primitive (Primitive.integer (pos n))

abbrev byte_type : FieldType
byte_type = FieldType.plain (PrimitiveType.unsigned 8)

abbrev data_type_1 : FieldType
data_type_1 = FieldType.struct (Spec.field "data" (FieldType.unbounded byte_type) Spec.nothing)

abbrev data_type_2 : FieldType
data_type_2 = FieldType.struct (Spec.field "data" (FieldType.bounded 2 byte_type) Spec.nothing)

abbrev data_message : Elements → Value
data_message xs = Value.message (Members.member "data" (Value.vector xs) Members.end)

abbrev data_conversion : Conversion
data_conversion = Conversion.sub_message (
    FieldPairs.pair ("data" ∷ []) ("data" ∷ []) (Container.bounded_sequence 2 (byte 0) (byte 0))
      Conversion.copied FieldPairs.done)

abbrev encoded : Elements → List ℕ
encoded Elements.nil = []
encoded (Elements.cons (Value.primitive (Primitive.integer (pos n))) xs) = n ∷ encoded xs
encoded (Elements.cons x xs) = encoded xs

abbrev decoded : List ℕ → Elements
decoded [] = Elements.nil
decoded (n ∷ ns) = Elements.cons (byte n) (decoded ns)

abbrev wire : Value → List ℕ
wire (Value.message (Members.member name (Value.vector xs) Members.end)) = encoded xs
wire v = []

number_of :
    (p : Primitive) → IsOf p (PrimitiveType.unsigned 8) → (n : ℕ) × (Value.primitive p ≡ byte n)
number_of (Primitive.boolean b) h = absurd h
number_of (Primitive.integer (pos n)) h = (n, refl)
number_of (Primitive.integer (negsuc n)) h = absurd h
number_of (Primitive.floating bits) h = absurd h
number_of (Primitive.text s) h = absurd h

byte_of : (v : Value) → HasType v byte_type → (n : ℕ) × (v ≡ byte n)
byte_of _ (HasType.primitive {p} t) = number_of p t

decoded-encoded : (xs : Elements) → Each xs byte_type → decoded (encoded xs) ≡ xs
decoded-encoded _ Each.nil = refl
decoded-encoded (Elements.cons x xs) (Each.cons t rest) =
    let (n, same) = byte_of x t in
    subst (λ v. decoded (encoded (Elements.cons v xs)) ≡ Elements.cons v xs) (sym same)
      (ap (Elements.cons (byte n)) (decoded-encoded xs rest))

abbrev data_wire : Serialization
data_wire = record {
  SerializedMessage = Value;
  TypeSupport = ℕ;
  fresh1 = data_message Elements.nil;
  fresh2 = data_message Elements.nil;
  rmw_deserialize = λ sent support old. some sent;
  rmw_serialize = λ m support old. (ok true, m);
  serialization_length = λ m. length (wire m);
  serialize = λ m old. (ok tt, wire m);
  deserialize = λ bytes old. ok (data_message (decoded bytes));
}

deserialize-wire : (m : Value) → HasType m data_type_1 → data_message (decoded (wire m)) ≡ m
deserialize-wire _
      (HasType.struct (HasMembers.member (HasType.unbounded {xs} each) HasMembers.end)) =
    ap data_message (decoded-encoded xs each)

no_data_1 : HasType (data_message Elements.nil) data_type_1
no_data_1 = HasType.struct (HasMembers.member (HasType.unbounded Each.nil) HasMembers.end)

no_data_2 : HasType (data_message Elements.nil) data_type_2
no_data_2 =
    HasType.struct (HasMembers.member (HasType.bounded Each.nil (omega arith)) HasMembers.end)

data_wire-IsFaithful : IsFaithful data_wire data_type_1 data_type_2 wire (λ m. m)
data_wire-IsFaithful = record {
  fresh1 = no_data_1;
  fresh2 = no_data_2;
  length_bytes = λ m h. refl;
  serialize = λ m buffer h e. refl;
  deserialize = λ m old h. ap ok (deserialize-wire m h);
  rmw_serialize = λ m support old h. refl;
  rmw_deserialize = λ m old support h. refl;
}

data_converts : Converts data_conversion data_type_1 data_type_2
unfolding string_discrete
data_converts = Converts.sub_message (
    Compiles.pair refl refl
      (Fits.bounded_sequence (HasType.primitive (omega arith)) (HasType.primitive (omega arith))
        Converts.copied)
      Compiles.done)

abbrev three_bytes : Elements
three_bytes = Elements.cons (byte 4) (Elements.cons (byte 5) (Elements.cons (byte 6) Elements.nil))

abbrev one_byte : Elements
one_byte = Elements.cons (byte 7) Elements.nil

bytes-HasType : Each three_bytes byte_type
bytes-HasType = Each.cons (HasType.primitive (omega arith)) (
    Each.cons (HasType.primitive (omega arith))
      (Each.cons (HasType.primitive (omega arith)) Each.nil))

one_byte-HasType : HasType (data_message one_byte) data_type_2
one_byte-HasType = HasType.struct (
    HasMembers.member
      (HasType.bounded (Each.cons (HasType.primitive (omega arith)) Each.nil) (omega arith))
      HasMembers.end)

abbrev support : Option ℕ
support = some 0

-- Three bytes are too many for ROS 2; the other way the byte replaces what the buffer held.
generic_conversions_example :
    ((support ≡ none)
      × (convert_2_to_1_generic data_wire data_conversion support
            (data_message one_byte)
            (1 ∷ 2 ∷ [])
          ≡ (ok false, 1 ∷ 2 ∷ []))
      × (convert_1_to_2_generic data_wire data_conversion support
            (4 ∷ 5 ∷ 6 ∷ [])
            (data_message one_byte)
          ≡ (ok false, data_message one_byte)))
    ⊎ ((support ≢ none)
        × Leaves wire
            (1 ∷ 2 ∷ [])
            (convert_value to_1 data_conversion (data_message one_byte) (data_message Elements.nil))
            (convert_2_to_1_generic data_wire data_conversion support
              (data_message one_byte)
              (1 ∷ 2 ∷ []))
        × Leaves
            (λ m. m)
            (data_message one_byte)
            (convert_value to_2 data_conversion
              (data_message three_bytes)
              (data_message Elements.nil))
            (convert_1_to_2_generic data_wire data_conversion support
              (4 ∷ 5 ∷ 6 ∷ [])
              (data_message one_byte)))
generic_conversions_example =
    generic_conversions data_wire data_type_1 data_type_2 data_conversion wire (λ m. m)
      data_wire-IsFaithful data_converts support (data_message three_bytes) (data_message one_byte)
      (1 ∷ 2 ∷ []) (data_message one_byte)
      (HasType.struct (HasMembers.member (HasType.unbounded bytes-HasType) HasMembers.end))
      one_byte-HasType

three_bytes_fail :
    convert_1_to_2_generic data_wire data_conversion support
      (4 ∷ 5 ∷ 6 ∷ [])
      (data_message one_byte)
    ≡ (throw (other "assertion failed"), data_message one_byte)
unfolding convert_1_to_2_generic write_ros2 convert_value convert_field convert_each copy admits get
    set string_discrete
three_bytes_fail = refl
