-- ===== src/Tests/Messages.antt =====
-- The generated conversions of a message with a nested one, a time, a bounded sequence and an array.
use ros1_bridge.Prelude.{◌-◌, ◌^◌, ◌≡◌, refl, true, String, [], ◌∷◌, arith, string_discrete}
use ros1_bridge.Prelude.Exec.{ok, throw, other}
use ros1_bridge.Prelude.Int.{pos, negsuc}
use ros1_bridge.Convert.{Ros1Time, Ros2Time, time_1_to_2, time_2_to_1}
use ros1_bridge.Messages.{
  Primitive, Value, Members, Elements, Container, Conversion, FieldPairs, to_1, to_2, get, set,
  convert, convert_value, convert_field, convert_each, convert_builtin, copy, admits,
}
use ros1_bridge.Messages.Types.{
  PrimitiveType, FieldType, Spec, HasType, HasMembers, Each, Converts, Fits, Compiles,
}
use ros1_bridge.Messages.Specified.{Fulfils, leaves, are_distinct, is_distinct}
use ros1_bridge.Messages.Preserved.{Gives}
use ros1_bridge.Messages.RoundTrip.{Restores}
use ros1_bridge.Messages.Outcome.{conversion-Gives, conversion-Fulfils, conversion_round_trip}

abbrev number : Primitive
number = Primitive.integer (pos 5)

abbrev small : FieldType
small = FieldType.plain (PrimitiveType.signed 8)

abbrev five : Value
five = Value.primitive number

abbrev zero_small : Value
zero_small = Value.primitive (Primitive.integer (pos 0))

abbrev pub two : Value → Value → Value
two x y = Value.vector (Elements.cons x (Elements.cons y Elements.nil))

abbrev pub text_of : String → Value
text_of s = Value.primitive (Primitive.text s)

abbrev late : Ros1Time
late = record { sec = 2 ^ 31; nsec = 7 }

-- In ROS 1 the name lies in a nested message, in ROS 2 beside the other fields, as `label`.
abbrev ros1_type : FieldType
ros1_type = FieldType.struct (
    Spec.field "header"
      (FieldType.struct (
        Spec.field "seq" small
          (Spec.field "name" (FieldType.plain PrimitiveType.string) Spec.nothing)))
      (Spec.field "stamps" (FieldType.unbounded FieldType.time_1)
        (Spec.field "pair" (FieldType.fixed 2 small) Spec.nothing)))

abbrev ros2_type : FieldType
ros2_type = FieldType.struct (
    Spec.field "label" (FieldType.plain PrimitiveType.string) (
      Spec.field "stamps" (FieldType.bounded 1 FieldType.time_2)
        (Spec.field "pair" (FieldType.fixed 2 small) Spec.nothing)))

abbrev ros1_message : Value → String → Value → Value → Value
ros1_message seq name stamps both = Value.message (
    Members.member "header"
      (Value.message (Members.member "seq" seq (Members.member "name" (text_of name) Members.end)))
      (Members.member "stamps" stamps (Members.member "pair" both Members.end)))

abbrev ros2_message : String → Value → Value → Value
ros2_message label stamps both = Value.message (
    Members.member "label" (text_of label)
      (Members.member "stamps" stamps (Members.member "pair" both Members.end)))

abbrev no_time_1 : Ros1Time
no_time_1 = record { sec = 0; nsec = 0 }

abbrev no_time_2 : Ros2Time
no_time_2 = record { sec = pos 0; nanosec = 0 }

abbrev pub pairs : FieldPairs
pairs = FieldPairs.pair ("header" ∷ "name" ∷ []) ("label" ∷ []) Container.single Conversion.copied (
    FieldPairs.pair ("stamps" ∷ []) ("stamps" ∷ [])
      (Container.bounded_sequence 1 (Value.ros1_time no_time_1) (Value.ros2_time no_time_2))
      Conversion.builtin
      (FieldPairs.pair ("pair" ∷ []) ("pair" ∷ []) Container.array Conversion.copied
        FieldPairs.done))

abbrev one_stamp : Value
one_stamp = Value.vector (Elements.cons (Value.ros1_time late) Elements.nil)

abbrev empty : Value
empty = Value.vector Elements.nil

abbrev pub sent : Value
sent = ros1_message five "map" one_stamp (two five zero_small)

abbrev pub target : Value
target = ros2_message "old" empty (two zero_small zero_small)

abbrev back_target : Value
back_target = ros1_message zero_small "" empty (two five five)

abbrev pub received : Value
received =
    ros2_message "map"
      (Value.vector (
        Elements.cons (Value.ros2_time (record { sec = negsuc (2 ^ 31 - 1); nanosec = 7 }))
          Elements.nil))
      (two five zero_small)

sent_to_2 : convert to_2 pairs sent target ≡ ok received
unfolding convert convert_value convert_field convert_each convert_builtin copy admits get set
    string_discrete time_1_to_2
sent_to_2 = refl

-- Two stamps are above the bound.
too_many_stamps :
    convert to_2 pairs
      (ros1_message five "map"
        (two (Value.ros1_time late) (Value.ros1_time late))
        (two five zero_small))
      target
    ≡ throw (other "assertion failed")
unfolding convert convert_value convert_field convert_each convert_builtin copy admits get set
    string_discrete time_1_to_2
too_many_stamps = refl

pairs-Compiles : Compiles pairs ros1_type ros2_type
unfolding string_discrete
pairs-Compiles = Compiles.pair refl refl (Fits.single Converts.copied) (
    Compiles.pair refl refl
      (Fits.bounded_sequence (HasType.time_1 (omega arith) (omega arith))
        (HasType.time_2 (omega arith) (omega arith)) Converts.time)
      (Compiles.pair refl refl (Fits.array Converts.copied) Compiles.done))

two-HasType :
    (x y : Value) → HasType x small → HasType y small → HasType (two x y) (FieldType.fixed 2 small)
two-HasType x y h k = HasType.fixed (Each.cons h (Each.cons k Each.nil)) refl

five-HasType : HasType five small
five-HasType = HasType.primitive (omega arith)

zero-HasType : HasType zero_small small
zero-HasType = HasType.primitive (omega arith)

ros1_message-HasType :
    (seq : Value) (name : String) (stamps both : Value)
    → HasType seq small
    → HasType stamps (FieldType.unbounded FieldType.time_1)
    → HasType both (FieldType.fixed 2 small)
    → HasType (ros1_message seq name stamps both) ros1_type
ros1_message-HasType seq name stamps both h k l = HasType.struct (
    HasMembers.member
      (HasType.struct
        (HasMembers.member h (HasMembers.member (HasType.primitive tt) HasMembers.end)))
      (HasMembers.member k (HasMembers.member l HasMembers.end)))

sent-HasType : HasType sent ros1_type
sent-HasType =
    ros1_message-HasType five "map" one_stamp (two five zero_small) five-HasType
      (HasType.unbounded (Each.cons (HasType.time_1 (omega arith) (omega arith)) Each.nil))
      (two-HasType five zero_small five-HasType zero-HasType)

target-HasType : HasType target ros2_type
target-HasType = HasType.struct (
    HasMembers.member (HasType.primitive tt) (
      HasMembers.member (HasType.bounded Each.nil (omega arith)) (
        HasMembers.member (two-HasType zero_small zero_small zero-HasType zero-HasType)
          HasMembers.end)))

back_target-HasType : HasType back_target ros1_type
back_target-HasType =
    ros1_message-HasType zero_small "" empty (two five five) zero-HasType
      (HasType.unbounded Each.nil) (two-HasType five five five-HasType five-HasType)

conversion-Gives_example : Gives to_2 ros2_type (convert to_2 pairs sent target)
conversion-Gives_example =
    conversion-Gives to_2 pairs ros1_type ros2_type sent target pairs-Compiles sent-HasType
      target-HasType

pairs_distinct_2 : are_distinct to_2 pairs ≡ true
unfolding are_distinct is_distinct string_discrete
pairs_distinct_2 = refl

pairs_distinct_1 : are_distinct to_1 pairs ≡ true
unfolding are_distinct is_distinct string_discrete
pairs_distinct_1 = refl

seq_free : leaves to_1 pairs ("header" ∷ "seq" ∷ []) ≡ true
unfolding string_discrete
seq_free = refl

abbrev returned : Value
returned = ros1_message zero_small "map" one_stamp (two five zero_small)

received_to_1 : convert to_1 pairs received back_target ≡ ok returned
unfolding convert convert_value convert_field convert_each convert_builtin copy admits get set
    string_discrete time_2_to_1
received_to_1 = refl

conversion-Fulfils_example :
    Fulfils to_1 pairs received returned
    × (get ("header" ∷ "seq" ∷ []) returned ≡ get ("header" ∷ "seq" ∷ []) back_target)
conversion-Fulfils_example =
    conversion-Fulfils to_1 pairs received back_target returned ("header" ∷ "seq" ∷ [])
      pairs_distinct_1 seq_free received_to_1

conversion_round_trip_example :
    (back : Value) × (convert to_1 pairs received back_target ≡ ok back) × Restores pairs sent back
conversion_round_trip_example =
    conversion_round_trip pairs ros1_type ros2_type sent target received back_target pairs-Compiles
      pairs_distinct_2 pairs_distinct_1 sent-HasType target-HasType back_target-HasType sent_to_2
