-- ===== src/Messages/Specified.antt =====
-- What a generated conversion is to do: the mapped fields of its target are the conversions of the
-- fields they are mapped to.
use ros1_bridge.Prelude.{◌≡◌, Bool, true, ◌&&◌, String, Option, some, List}
use ros1_bridge.Prelude.Exec.{ok}
use ros1_bridge.Messages.{
  Value, Elements, Container, single, sequence, bounded_sequence, array, Conversion, copied,
  builtin, sub_message, FieldPairs, done, pair, Side, size, get, source_fields, target_fields,
  convert_builtin,
}
use ros1_bridge.Messages.Paths.{apart}

-- The two vectors go together, element by element, as far as both go.
abbrev pub Together : (Value → Value → Type 0) → Elements → Elements → Type 0
Together R (Elements.cons x xs) (Elements.cons y ys) = R x y × Together R xs ys
Together R xs ys = Unit

abbrev pub Vectors : (Elements → Elements → Type 0) → Value → Value → Type 0
Vectors R (Value.vector xs) (Value.vector ys) = R xs ys
Vectors R x y = ⊥

-- A vector whose size is not fixed has the size of its source.
abbrev pub InContainer : Container → (Value → Value → Type 0) → Value → Value → Type 0
InContainer single R x y = R x y
InContainer (sequence _ _) R x y = Vectors (λ xs ys. (size ys ≡ size xs) × Together R xs ys) x y
InContainer (bounded_sequence _ _ _) R x y =
    Vectors (λ xs ys. (size ys ≡ size xs) × Together R xs ys) x y
InContainer array R x y = Vectors (Together R) x y

-- What a selection gives in each of the two messages.
abbrev pub Selected : (Value → Value → Type 0) → Option Value → Option Value → Type 0
Selected R (some x) (some y) = R x y
Selected R x y = ⊥

unfoldable mutual
  -- The second value is the conversion of the first.
  pub IsConversion : Side → Conversion → Value → Value → Type 0
  IsConversion side copied x y = y ≡ x
  IsConversion side builtin x y = ok y ≡ convert_builtin side x
  IsConversion side (sub_message pairs) x y = Fulfils side pairs x y

  pub Fulfils : Side → FieldPairs → Value → Value → Type 0
  Fulfils side done source target = Unit
  Fulfils side (pair p q container k rest) source target =
      Selected (InContainer container (IsConversion side k)) (get (source_fields side p q) source)
        (get (target_fields side p q) target)
      × Fulfils side rest source target

-- No pair writes to `path`, or to a part of it, or to something that it is a part of.
abbrev pub leaves : Side → FieldPairs → List String → Bool
leaves side done path = true
leaves side (pair p q container k rest) path =
    apart path (target_fields side p q) && leaves side rest path

unfoldable mutual
  -- No two pairs write to one place, in nested conversions too.
  pub is_distinct : Side → Conversion → Bool
  is_distinct side copied = true
  is_distinct side builtin = true
  is_distinct side (sub_message pairs) = are_distinct side pairs

  pub are_distinct : Side → FieldPairs → Bool
  are_distinct side done = true
  are_distinct side (pair p q container k rest) =
      leaves side rest (target_fields side p q) && is_distinct side k && are_distinct side rest
