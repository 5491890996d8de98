-- ===== src/DynamicBridge.antt =====
-- src/dynamic_bridge.cpp: the records that its functions share.
pub mod Options
pub mod Topics
pub mod Directions
pub mod Services
pub mod Update
pub mod ServiceInfo
pub mod Polls
pub mod Interleaving
use ros1_bridge.Prelude.{String}

-- From ROS 1 to ROS 2, or back.
pub data Way : Type 0 where
  one_to_two two_to_one : Way

pub record TypeNames : Type 0 where
  pub ros1_type_name : String
  pub ros2_type_name : String

-- Bridge1to2HandlesAndMessageTypes and Bridge2to1HandlesAndMessageTypes.
pub record HandlesAndMessageTypes (Handles : Type 0) : Type 0 where
  pub bridge_handles : Handles
  pub types : TypeNames

-- What is printed, with the values that the text holds.
pub data Event : Type 0 where
  replace_bridge : Way → String → Event
  created_bridge : Way → String → TypeNames → Event
  failed_bridge : Way → String → TypeNames → String → Event
  check_supported_pairs : Event
  removed_bridge : Way → String → Event
  created_service_bridge : Way → String → Event
  failed_service_bridge : String → Event
  removed_service_bridge : Way → String → Event
  failed_removal : Way → String → Event
