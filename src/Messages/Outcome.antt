-- ===== src/Messages/Outcome.antt =====
-- The generated convert_1_to_2 and convert_2_to_1: their types, and what they do.
use ros1_bridge.Prelude.{◌≡◌, true, inl, inr, String, List}
use ros1_bridge.Prelude.Exec.{ok, Result-cases}
use ros1_bridge.Messages.{Value, FieldPairs, Side, to_1, to_2, get, convert}
use ros1_bridge.Messages.Types.{FieldType, HasType, Compiles}
use ros1_bridge.Messages.Specified.{Fulfils, leaves, are_distinct}
use ros1_bridge.Messages.Preserved.{Gives, source_type, target_type, convert-HasType}
use ros1_bridge.Messages.Fulfilled.{convert-Fulfils, convert-Leaves}
use ros1_bridge.Messages.RoundTrip.{Restores, pairs-ComesBack}

-- Where the conversion of a pair of messages compiles: from messages of the declared types, the
-- conversion to ROS 1 returns a message of the declared type, and so does that to ROS 2, unless it
-- fails the assertion on the size of a bounded sequence.
pub conversion-Gives :
    (side : Side) (pairs : FieldPairs) (τ₁ τ₂ : FieldType) (source target : Value)
    → Compiles pairs τ₁ τ₂
    → HasType source (source_type side τ₁ τ₂)
    → HasType target (target_type side τ₁ τ₂)
    → Gives side (target_type side τ₁ τ₂) (convert side pairs source target)
conversion-Gives side pairs τ₁ τ₂ source target compiles typed typed_target =
    convert-HasType side pairs τ₁ τ₂ compiles source target typed typed_target

-- Where no two pairs of fields write to one place: after a conversion that returned, each mapped
-- field of the target is the conversion of the field of the source that it is mapped to, whatever
-- the target held before, in nested messages and in each element of a vector too, and a vector
-- whose size is not fixed has the source's size; what a path reads that no pair writes to is as it
-- was.
pub conversion-Fulfils :
    (side : Side) (pairs : FieldPairs) (source target out : Value) (path : List String)
    → are_distinct side pairs ≡ true
    → leaves side pairs path ≡ true
    → convert side pairs source target ≡ ok out
    → Fulfils side pairs source out × (get path out ≡ get path target)
conversion-Fulfils side pairs source target out path distinct free returned = (
  convert-Fulfils side pairs distinct source target out returned,
  convert-Leaves side pairs source target out path free returned,
)

-- Where the conversion of a pair of messages compiles, and no two pairs of fields write to one
-- place: a message of ROS 1 of the declared type that has been converted to ROS 2 is converted back
-- without a failure, and each mapped field, in nested messages and in vectors too, comes back as it
-- was, whatever the two targets held.
pub conversion_round_trip :
    (pairs : FieldPairs) (τ₁ τ₂ : FieldType) (source target there back_target : Value)
    → Compiles pairs τ₁ τ₂
    → are_distinct to_2 pairs ≡ true
    → are_distinct to_1 pairs ≡ true
    → HasType source τ₁
    → HasType target τ₂
    → HasType back_target τ₁
    → convert to_2 pairs source target ≡ ok there
    → (back : Value) × (convert to_1 pairs there back_target ≡ ok back) × Restores pairs source back
conversion_round_trip pairs τ₁ τ₂ source target there back_target compiles distinct distinct_back
      typed typed_target typed_back returned =
    let given : Gives to_2 τ₂ (convert to_2 pairs source target) =
      conversion-Gives to_2 pairs τ₁ τ₂ source target compiles typed typed_target in
    let typed_there : HasType there τ₂ = rw returned at given in
    let gives : Gives to_1 τ₁ (convert to_1 pairs there back_target) =
      conversion-Gives to_1 pairs τ₁ τ₂ there back_target compiles typed_there typed_back in
    elim (Result-cases (convert to_1 pairs there back_target)) [
      | inl (back, e) ↦
          let typed_result : HasType back τ₁ = rw e at gives in
          (
            back,
            e,
            pairs-ComesBack pairs τ₁ τ₂ compiles source there back typed typed_there typed_result
                (convert-Fulfils to_2 pairs distinct source target there returned)
                (convert-Fulfils to_1 pairs distinct_back there back_target back e),
          )
      | inr (exception, e) ↦ let bad : ⊥ = rw e at gives in absurd bad
    ]
