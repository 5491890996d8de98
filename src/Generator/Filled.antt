-- ===== src/Generator/Filled.antt =====
-- generate_cpp: what the templates for the lookups are filled in with, for each package of ROS 2 and
-- each of its interfaces.
use ros1_bridge.Prelude.{Bool, not, ◌&&◌, String, List, ◌==◌, keep, map}
use ros1_bridge.Factory.Registry.{ServiceMapping, Package, Generated}
use ros1_bridge.Factory.Registry
use ros1_bridge.Generator.{Message, Mapping}

-- The names that the templates take from a mapping.
abbrev pub names_of : Mapping → Registry.Mapping
names_of m = record {
  ros1_package = m.ros1_msg.package_name;
  ros1_message = m.ros1_msg.message_name;
  ros2_package = m.ros2_msg.package_name;
  ros2_message = m.ros2_msg.message_name;
}

abbrev pub is_mapped : String → Message → Mapping → Bool
is_mapped package_name interface m =
    m.ros2_msg.package_name == package_name && m.ros2_msg.message_name == interface.message_name

-- The mappings of one interface of a package.
abbrev pub mapped_msgs : String → List Mapping → Message → List Registry.Mapping
mapped_msgs package_name mappings interface =
    map names_of (keep (is_mapped package_name interface) mappings)

abbrev pub mapped_services : String → List ServiceMapping → Message → List ServiceMapping
mapped_services package_name services interface =
    keep (λ s. s.ros2_package == package_name && s.ros2_name == interface.message_name) services

abbrev pub of_package : String → List Message → List Message
of_package package_name interfaces = keep (λ i. i.package_name == package_name) interfaces

abbrev pub fill_package :
    List Message → List Message → List Mapping → List ServiceMapping → String → Package
fill_package msgs srvs mappings services package_name = record {
  messages = map (mapped_msgs package_name mappings) (of_package package_name msgs);
  services = map (mapped_services package_name services) (of_package package_name srvs);
}

abbrev pub custom_packages : List String → List String
custom_packages names = keep (λ name. not (name == "builtin_interfaces")) names

-- `package_names` is the set of the packages that have messages or services.
unfoldable pub generate_cpp :
    (package_names : List String)
    → List Message
    → List Message
    → List Mapping
    → List ServiceMapping
    → Generated
generate_cpp package_names msgs srvs mappings services = record {
  packages = map (fill_package msgs srvs mappings services) (custom_packages package_names);
  mappings = map names_of mappings;
  services = services;
}
