-- ===== src/ParameterBridge.antt =====
-- src/parameter_bridge.cpp.
pub mod Services
pub mod Qos
pub mod Topics
pub mod Main
use ros1_bridge.Prelude.{String, Bool, Option, List}
use ros1_bridge.Prelude.Exec.{Result}
use ros1_bridge.Prelude.Int.{ℤ}

-- XmlRpc::XmlRpcValue. Access to a member, and the casts, throw where the value has another type.
-- A member that is missing is an invalid value.
pub record XmlRpc : Type 1 where
  pub Value : Type 0
  pub is_array : Value → Bool
  pub elements : Value → List Value
  pub member : String → Value → Result Value
  pub as_string : Value → Result String
  pub as_int : Value → Result ℤ
  pub is_struct : Value → Bool
  pub has_member : String → Value → Bool
  pub is_int : Value → Bool
  pub is_string : Value → Bool

-- The exception XmlRpc::XmlRpcException, which is no `runtime_error`.
abbrev pub xml_rpc_exception : String
xml_rpc_exception = "XmlRpc::XmlRpcException"
