-- ===== src/Factory/Registry.antt =====
-- The lookup of factories and of type mappings: src/builtin_interfaces_factories.cpp and the code
-- that the templates resource/get_factory.cpp.em, pkg_factories.cpp.em, interface_factories.cpp.em
-- and get_mappings.cpp.em generate. What the generator fills in is the argument `Generated`.
pub mod Selection
pub mod Listing
use ros1_bridge.Prelude.{
  String, ◌<>◌, ◌==◌, ◌&&◌, ◌||◌, if◌then◌else◌, Option, none, some, List, [], ◌∷◌,
}
use ros1_bridge.Prelude.Exec.{Exec, raise, runtime_error}
use ros1_bridge.Ros.{Ros}
use ros1_bridge.Factory.{Specialisation, ServiceFactory, Factory, make_factory}

pub record Mapping : Type 0 where
  pub ros1_package : String
  pub ros1_message : String
  pub ros2_package : String
  pub ros2_message : String

abbrev pub ros1_name : Mapping → String
ros1_name m = m.ros1_package <> "/" <> m.ros1_message

abbrev pub ros2_name : Mapping → String
ros2_name m = m.ros2_package <> "/msg/" <> m.ros2_message

pub record ServiceMapping : Type 0 where
  pub ros1_package : String
  pub ros1_name : String
  pub ros2_package : String
  pub ros2_name : String

-- The mappings of each message and of each service interface of a ROS 2 package.
pub record Package : Type 0 where
  pub messages : List (List Mapping)
  pub services : List (List ServiceMapping)

pub record Generated : Type 0 where
  pub packages : List Package
  pub mappings : List Mapping
  pub services : List ServiceMapping

-- `factory = f(x); if (factory) { return factory; }` for each `x` in turn.
abbrev pub first_some {ℓ κ} : {A : Type ℓ} {B : Type κ} → (A → Option B) → List A → Option B
first_some f [] = none
first_some f (x ∷ xs) = let rest = first_some f xs in elim (f x) [ some b ↦ some b | none ↦ rest ]

-- The test of a pair of type names, and the factory that is made for it.
unfoldable pub specialise : String → String → Mapping → Option Specialisation
specialise ros1_type_name ros2_type_name m =
    if (ros1_type_name == ros1_name m || ros1_type_name == "") && ros2_type_name == ros2_name m
    then some (record {
      ros1_message = ros1_name m;
      ros2_message = ros2_name m;
      ros1_type_name = ros1_name m;
      ros2_type_name = ros2_type_name;
    })
    else none

abbrev pub builtin_mappings : List Mapping
builtin_mappings =
    record {
      ros1_package = "std_msgs";
      ros1_message = "Duration";
      ros2_package = "builtin_interfaces";
      ros2_message = "Duration";
    }
    ∷ record {
      ros1_package = "std_msgs";
      ros1_message = "Time";
      ros2_package = "builtin_interfaces";
      ros2_message = "Time";
    }
    ∷ []

abbrev pub get_factory_builtin_interfaces : String → String → Option Specialisation
get_factory_builtin_interfaces r1 r2 = first_some (specialise r1 r2) builtin_mappings

abbrev pub get_factory_interface : String → String → List Mapping → Option Specialisation
get_factory_interface r1 r2 = first_some (specialise r1 r2)

abbrev pub get_factory_package : String → String → Package → Option Specialisation
get_factory_package r1 r2 p = first_some (get_factory_interface r1 r2) p.messages

-- The specialisation that `get_factory` makes, if any fits.
unfoldable pub select : Generated → String → String → Option Specialisation
select gen r1 r2 = elim (get_factory_builtin_interfaces r1 r2) [
  | some s ↦ some s
  | none ↦ first_some (get_factory_package r1 r2) gen.packages
]

abbrev pub no_specialisation : String
no_specialisation = "No template specialization for the pair"

unfoldable pub get_factory :
    (ros : Ros) → Generated → String → String → Exec ros.World (Factory ros)
get_factory ros gen r1 r2 = elim (select gen r1 r2) [
  | some s ↦ make_factory ros s
  | none ↦ raise (runtime_error no_specialisation)
]

-- The test of a service interface.
unfoldable pub specialise_service :
    String → String → String → ServiceMapping → Option ServiceFactory
specialise_service ros_id package_name service_name s =
    if (ros_id == "ros1" && (package_name == s.ros1_package && service_name == s.ros1_name))
      || (ros_id == "ros2"
          && (package_name == s.ros2_package && service_name == ("srv/" <> s.ros2_name)))
    then some (record {
      ros1_type = s.ros1_package <> "/" <> s.ros1_name;
      ros2_type = s.ros2_package <> "/srv/" <> s.ros2_name;
    })
    else none

abbrev pub get_service_factory_package : String → String → String → Package → Option ServiceFactory
get_service_factory_package i p n pkg =
    first_some (first_some (specialise_service i p n)) pkg.services

unfoldable pub get_service_factory : Generated → String → String → String → Option ServiceFactory
get_service_factory gen ros_id package_name service_name =
    first_some (get_service_factory_package ros_id package_name service_name) gen.packages

-- The ROS 2 type for a ROS 1 type, and back: the first mapping that has the name.
unfoldable pub get_1to2_mapping : Generated → String → Option String
get_1to2_mapping gen ros1_type_name =
    first_some (λ m. if ros1_type_name == ros1_name m then some (ros2_name m) else none)
      gen.mappings

unfoldable pub get_2to1_mapping : Generated → String → Option String
get_2to1_mapping gen ros2_type_name =
    first_some (λ m. if ros2_type_name == ros2_name m then some (ros1_name m) else none)
      gen.mappings
