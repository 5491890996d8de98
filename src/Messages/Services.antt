-- ===== src/Messages/Services.antt =====
-- resource/interface_factories.cpp.em: translate_1_to_2 and translate_2_to_1 of the requests and the
-- responses of a service.
use ros1_bridge.Prelude.{Bool, String, List, [], ◌∷◌, if◌then◌else◌}
use ros1_bridge.Prelude.Exec.{Result}
use ros1_bridge.Messages.{
  Value, FieldPairs, Side, done, pair, single, sequence, copied, sub_message, convert,
}

-- An entry of `service["fields"]`: the names, what the template branches on, the pairs of fields of
-- the two message types where the field is not basic, and a new element of either side.
pub record ServiceField : Type 0 where
  pub ros1_name : String
  pub ros2_name : String
  pub array : Bool
  pub basic : Bool
  pub pairs : FieldPairs
  pub fresh_1 : Value
  pub fresh_2 : Value

-- An array is resized and gone through like a sequence without a bound.
unfoldable pub service_pairs : List ServiceField → FieldPairs
service_pairs [] = done
service_pairs (f ∷ fs) =
    pair (f.ros1_name ∷ []) (f.ros2_name ∷ [])
      (if f.array then sequence f.fresh_1 f.fresh_2 else single)
      (if f.basic then copied else sub_message f.pairs) (service_pairs fs)

unfoldable pub translate : Side → List ServiceField → Value → Value → Result Value
translate side fields request_from request_to =
    convert side (service_pairs fields) request_from request_to
