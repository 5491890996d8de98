-- ===== src/Messages.antt =====
-- resource/interface_factories.cpp.em: convert_1_to_2 and convert_2_to_1 of a mapped pair of messages,
-- over messages as trees of named fields. A conversion is what the template writes out for the pairs
-- of fields that it is given: both directions go through the same pairs, and nested Factory calls are
-- nested conversions.
pub mod Types
pub mod Pointers
pub mod Services
pub mod Paths
pub mod Typed
pub mod Preserved
pub mod Specified
pub mod Fulfilled
pub mod RoundTrip
pub mod Outcome
use ros1_bridge.Prelude.{
  ℕ, zero, suc, Bool, true, false, ◌&&◌, String, Option, none, some, List, [], ◌∷◌, ◌==◌,
  if◌then◌else◌,
}
use ros1_bridge.Prelude.Exec.{Result, ok, throw, undefined, other}
use ros1_bridge.Prelude.Results.{◌>>=◌}
use ros1_bridge.Prelude.Int.{ℤ, ltb}
use ros1_bridge.Convert.{
  Ros1Duration, Ros2Duration, Ros1Time, Ros2Time, duration_1_to_2, duration_2_to_1, time_1_to_2,
  time_2_to_1,
}

-- A float stands for its bits.
pub data Primitive : Type 0 where
  boolean : Bool → Primitive
  integer : ℤ → Primitive
  floating : (bits : ℕ) → Primitive
  text : String → Primitive

mutual
  pub data Value : Type 0 where
    primitive : Primitive → Value
    ros1_duration : Ros1Duration → Value
    ros2_duration : Ros2Duration → Value
    ros1_time : Ros1Time → Value
    ros2_time : Ros2Time → Value
    message : Members → Value
    vector : Elements → Value

  pub data Members : Type 0 where
    end : Members
    member : (name : String) → Value → Members → Members

  pub data Elements : Type 0 where
    nil : Elements
    cons : Value → Elements → Elements

abbrev pub size : Elements → ℕ
size nil = 0
size (cons x xs) = suc (size xs)

-- std::vector's resize, with the value of a new element.
abbrev pub resized : Value → ℕ → Elements → Elements
resized fresh zero xs = nil
resized fresh (suc n) nil = cons fresh (resized fresh n nil)
resized fresh (suc n) (cons x xs) = cons x (resized fresh n xs)

abbrev pub find_member : String → Members → Option Value
find_member f end = none
find_member f (member g v ms) = let rest = find_member f ms in if g == f then some v else rest

abbrev pub member_of : String → Value → Option Value
member_of f (message ms) = find_member f ms
member_of f v = none

abbrev pub change_member : String → (Value → Value) → Members → Members
change_member f h end = end
change_member f h (member g v ms) =
    let rest = change_member f h ms in if g == f then member g (h v) ms else member g v rest

abbrev pub change : String → (Value → Value) → Value → Value
change f h (message ms) = message (change_member f h ms)
change f h v = v

abbrev pub and_then {ℓ} : {A : Type ℓ} → Option Value → (Value → Option A) → Option A
and_then none k = none
and_then (some v) k = k v

-- A selection as `msg.a.b`, and the assignment to one.
unfoldable pub get : List String → Value → Option Value
get [] v = some v
get (f ∷ path) v = and_then (member_of f v) (get path)

unfoldable pub set : List String → Value → Value → Value
set [] w v = w
set (f ∷ path) w v = change f (set path w) v

-- What the template branches on in the type of the ROS 2 field. `fresh_1` and `fresh_2` are what a
-- resized vector gets for a new element.
pub data Container : Type 0 where
  single : Container
  sequence : (fresh_1 fresh_2 : Value) → Container
  bounded_sequence : (maximum_size : ℕ) (fresh_1 fresh_2 : Value) → Container
  array : Container

mutual
  pub data Conversion : Type 0 where
    copied : Conversion
    builtin : Conversion
    sub_message : FieldPairs → Conversion

  pub data FieldPairs : Type 0 where
    done : FieldPairs
    pair :
        (ros1_fields ros2_fields : List String) → Container → Conversion → FieldPairs → FieldPairs

-- The function that is generated.
pub data Side : Type 0 where
  to_2 : Side
  to_1 : Side

abbrev pub source_fields : Side → List String → List String → List String
source_fields to_2 ros1_fields ros2_fields = ros1_fields
source_fields to_1 ros1_fields ros2_fields = ros2_fields

abbrev pub target_fields : Side → List String → List String → List String
target_fields to_2 ros1_fields ros2_fields = ros2_fields
target_fields to_1 ros1_fields ros2_fields = ros1_fields

abbrev pub fresh_element : Side → Value → Value → Value
fresh_element to_2 fresh_1 fresh_2 = fresh_2
fresh_element to_1 fresh_1 fresh_2 = fresh_1

-- ros1_bridge::convert_1_to_2 and convert_2_to_1, by the types of what they are given.
unfoldable pub convert_builtin : Side → Value → Result Value
convert_builtin to_2 (ros1_duration d) = ok (ros2_duration (duration_1_to_2 d))
convert_builtin to_2 (ros1_time t) = ok (ros2_time (time_1_to_2 t))
convert_builtin to_1 (ros2_duration d) = ok (ros1_duration (duration_2_to_1 d))
convert_builtin to_1 (ros2_time t) = ok (ros1_time (time_2_to_1 t))
convert_builtin side v = throw undefined

-- The assignment, or std::copy of one element.
unfoldable pub copy : Value → Result Value
copy (primitive p) = ok (primitive p)
copy v = throw undefined

-- The loop over two iterators, where the conversion of an element may fail.
unfoldable pub convert_each : (Value → Value → Result Value) → Elements → Elements → Result Elements
convert_each convert nil ys = ok ys
convert_each convert (cons x xs) nil = ok nil
convert_each convert (cons x xs) (cons y ys) = do
  z ← convert x y
  zs ← convert_each convert xs ys
  ok (cons z zs)

abbrev pub elements_of : Value → Result Elements
elements_of (vector xs) = ok xs
elements_of v = throw undefined

-- The size is asserted only on the way to ROS 2.
unfoldable pub admits : Side → ℕ → ℕ → Bool
admits to_2 maximum_size n = if ltb maximum_size n then false else true
admits to_1 maximum_size n = true

unfoldable pub convert_field :
    Side → Container → (Value → Value → Result Value) → Value → Value → Result Value
convert_field side single convert x y = convert x y
convert_field side (sequence fresh_1 fresh_2) convert x y = do
  xs ← elements_of x
  ys ← elements_of y
  zs ← convert_each convert xs (resized (fresh_element side fresh_1 fresh_2) (size xs) ys)
  ok (vector zs)
convert_field side (bounded_sequence maximum_size fresh_1 fresh_2) convert x y = do
  xs ← elements_of x
  ys ← elements_of y
  zs ←
      (if admits side maximum_size (size xs)
        then convert_each convert xs (resized (fresh_element side fresh_1 fresh_2) (size xs) ys)
        else throw (other "assertion failed"))
  ok (vector zs)
convert_field side array convert x y = do
  xs ← elements_of x
  ys ← elements_of y
  zs ← convert_each convert xs ys
  ok (vector zs)

abbrev pub present : Option Value → Result Value
present none = throw undefined
present (some v) = ok v

unfoldable mutual
  pub convert_value : Side → Conversion → Value → Value → Result Value
  convert_value side copied x y = copy x
  convert_value side builtin x y = convert_builtin side x
  convert_value side (sub_message pairs) x y = convert side pairs x y

  -- One statement for each pair, in order: `source` is only read.
  pub convert : Side → FieldPairs → Value → Value → Result Value
  convert side done source target = ok target
  convert side (pair ros1_fields ros2_fields container conversion rest) source target = do
    x ← present (get (source_fields side ros1_fields ros2_fields) source)
    y ← present (get (target_fields side ros1_fields ros2_fields) target)
    z ← convert_field side container (convert_value side conversion) x y
    convert side rest source (set (target_fields side ros1_fields ros2_fields) z target)
