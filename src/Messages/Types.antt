-- ===== src/Messages/Types.antt =====
-- The declared types of messages, and which generated conversions compile for a pair of them.
use ros1_bridge.Prelude.{
  ℕ, ◌-◌, ◌^◌, ◌≤◌, ◌<◌, ◌≡◌, String, Option, none, some, List, [], ◌∷◌, ◌==◌, if◌then◌else◌,
}
use ros1_bridge.Prelude.Int.{pos, negsuc, IsInt32, IsUint32}
use ros1_bridge.Convert.{Ros1Duration, Ros2Duration, Ros1Time, Ros2Time}
use ros1_bridge.Messages.{
  Primitive, boolean, integer, floating, text, Value, Members, Elements, size, Container,
  Conversion, FieldPairs,
}

pub data PrimitiveType : Type 0 where
  bool : PrimitiveType
  signed : (width : ℕ) → PrimitiveType
  unsigned : (width : ℕ) → PrimitiveType
  float : (width : ℕ) → PrimitiveType
  string : PrimitiveType

abbrev pub IsOf : Primitive → PrimitiveType → Type 0
IsOf (boolean b) bool = Unit
IsOf (integer (pos n)) (signed width) = n < 2 ^ (width - 1)
IsOf (integer (negsuc n)) (signed width) = n < 2 ^ (width - 1)
IsOf (integer (pos n)) (unsigned width) = n < 2 ^ width
IsOf (floating bits) (float width) = bits < 2 ^ width
IsOf (text s) string = Unit
IsOf p t = ⊥

mutual
  pub data FieldType : Type 0 where
    plain : PrimitiveType → FieldType
    duration_1 : FieldType
    duration_2 : FieldType
    time_1 : FieldType
    time_2 : FieldType
    struct : Spec → FieldType
    unbounded : FieldType → FieldType
    bounded : (maximum_size : ℕ) → FieldType → FieldType
    fixed : (static_size : ℕ) → FieldType → FieldType

  pub data Spec : Type 0 where
    nothing : Spec
    field : (name : String) → FieldType → Spec → Spec

-- The fields of times and durations are within their widths.
mutual
  pub data HasType : Value → FieldType → Type 0 where
    primitive :
        {p : Primitive} {t : PrimitiveType} → IsOf p t → HasType (Value.primitive p) (plain t)
    duration_1 :
        {d : Ros1Duration}
        → IsInt32 d.sec
        → IsInt32 d.nsec
        → HasType (Value.ros1_duration d) FieldType.duration_1
    duration_2 :
        {d : Ros2Duration}
        → IsInt32 d.sec
        → IsUint32 d.nanosec
        → HasType (Value.ros2_duration d) FieldType.duration_2
    time_1 :
        {t : Ros1Time}
        → IsUint32 t.sec
        → IsUint32 t.nsec
        → HasType (Value.ros1_time t) FieldType.time_1
    time_2 :
        {t : Ros2Time}
        → IsInt32 t.sec
        → IsUint32 t.nanosec
        → HasType (Value.ros2_time t) FieldType.time_2
    struct :
        {ms : Members} {s : Spec}
        → HasMembers ms s
        → HasType (Value.message ms) (FieldType.struct s)
    unbounded :
        {xs : Elements} {τ : FieldType}
        → Each xs τ
        → HasType (Value.vector xs) (FieldType.unbounded τ)
    bounded :
        {xs : Elements} {maximum_size : ℕ} {τ : FieldType}
        → Each xs τ
        → size xs ≤ maximum_size
        → HasType (Value.vector xs) (FieldType.bounded maximum_size τ)
    fixed :
        {xs : Elements} {static_size : ℕ} {τ : FieldType}
        → Each xs τ
        → size xs ≡ static_size
        → HasType (Value.vector xs) (FieldType.fixed static_size τ)

  pub data HasMembers : Members → Spec → Type 0 where
    end : HasMembers Members.end nothing
    member :
        {name : String} {v : Value} {τ : FieldType} {ms : Members} {s : Spec}
        → HasType v τ
        → HasMembers ms s
        → HasMembers (Members.member name v ms) (field name τ s)

  pub data Each : Elements → FieldType → Type 0 where
    nil : {τ : FieldType} → Each Elements.nil τ
    cons :
        {x : Value} {xs : Elements} {τ : FieldType}
        → HasType x τ
        → Each xs τ
        → Each (Elements.cons x xs) τ

abbrev pub find_field : String → Spec → Option FieldType
find_field f nothing = none
find_field f (field g τ s) = let rest = find_field f s in if g == f then some τ else rest

abbrev pub field_of : String → FieldType → Option FieldType
field_of f (struct s) = find_field f s
field_of f τ = none

abbrev and_then : Option FieldType → (FieldType → Option FieldType) → Option FieldType
and_then none k = none
and_then (some τ) k = k τ

-- The type of a selection.
abbrev pub type_at : List String → FieldType → Option FieldType
type_at [] τ = some τ
type_at (f ∷ path) τ = and_then (field_of f τ) (type_at path)

mutual
  -- Fields of different primitive types, which C++ converts, are left out.
  pub data Converts : Conversion → FieldType → FieldType → Type 0 where
    copied : {t : PrimitiveType} → Converts Conversion.copied (plain t) (plain t)
    duration : Converts Conversion.builtin duration_1 duration_2
    time : Converts Conversion.builtin time_1 time_2
    sub_message :
        {pairs : FieldPairs} {τ₁ τ₂ : FieldType}
        → Compiles pairs τ₁ τ₂
        → Converts (Conversion.sub_message pairs) τ₁ τ₂

  -- The static_asserts of the two directions together ask for arrays of one size.
  pub data Fits : Container → Conversion → FieldType → FieldType → Type 0 where
    single : {k : Conversion} {τ₁ τ₂ : FieldType} → Converts k τ₁ τ₂ → Fits Container.single k τ₁ τ₂
    sequence :
        {fresh_1 fresh_2 : Value} {k : Conversion} {τ₁ τ₂ : FieldType}
        → HasType fresh_1 τ₁
        → HasType fresh_2 τ₂
        → Converts k τ₁ τ₂
        → Fits (Container.sequence fresh_1 fresh_2) k (unbounded τ₁) (unbounded τ₂)
    bounded_sequence :
        {maximum_size : ℕ} {fresh_1 fresh_2 : Value} {k : Conversion} {τ₁ τ₂ : FieldType}
        → HasType fresh_1 τ₁
        → HasType fresh_2 τ₂
        → Converts k τ₁ τ₂
        → Fits
            (Container.bounded_sequence maximum_size fresh_1 fresh_2)
            k
            (unbounded τ₁)
            (bounded maximum_size τ₂)
    array :
        {static_size : ℕ} {k : Conversion} {τ₁ τ₂ : FieldType}
        → Converts k τ₁ τ₂
        → Fits Container.array k (fixed static_size τ₁) (fixed static_size τ₂)

  pub data Compiles : FieldPairs → FieldType → FieldType → Type 0 where
    done : {τ₁ τ₂ : FieldType} → Compiles FieldPairs.done τ₁ τ₂
    pair :
        {ros1_fields ros2_fields : List String} {container : Container} {k : Conversion}
        {rest : FieldPairs} {τ₁ τ₂ σ₁ σ₂ : FieldType}
        → type_at ros1_fields τ₁ ≡ some σ₁
        → type_at ros2_fields τ₂ ≡ some σ₂
        → Fits container k σ₁ σ₂
        → Compiles rest τ₁ τ₂
        → Compiles (FieldPairs.pair ros1_fields ros2_fields container k rest) τ₁ τ₂
