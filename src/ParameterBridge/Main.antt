-- ===== src/ParameterBridge/Main.antt =====
-- `main` in src/parameter_bridge.cpp up to the spinners: the names of the parameters, and the three
-- loops one after the other. What is printed is left out.
pub mod Parameter
pub mod Lists
pub mod Outcome
use ros1_bridge.Prelude.{String, Bool, if◌then◌else◌, Option, none, some, List, [], ◌∷◌}
use ros1_bridge.Prelude.Exec.{Exec, Result, pure, ◌>>=◌, ◌>>◌}
use ros1_bridge.Ros.{Ros}
use ros1_bridge.Factory.{ServiceBridge1to2, ServiceBridge2to1}
use ros1_bridge.Factory.Registry.{Generated}
use ros1_bridge.Bridge.{BridgeHandles}
use ros1_bridge.ParameterBridge.{XmlRpc}
use ros1_bridge.ParameterBridge.Qos.{QosSetters}
use ros1_bridge.ParameterBridge.Services.{
  Listed, on_world, bridge_services_1_to_2, bridge_services_2_to_1,
}
use ros1_bridge.ParameterBridge.Topics.{bridge_topics}

pub record ParameterNames : Type 0 where
  pub topics : String
  pub services_1_to_2 : String
  pub services_2_to_1 : String

unfoldable pub or_default : String → List String → String
or_default name [] = name
or_default name (arg ∷ rest) = arg

abbrev pub after_first : List String → List String
after_first [] = []
after_first (arg ∷ args) = args

-- From `argv`, whose first text is the program.
unfoldable pub parameter_names : List String → ParameterNames
parameter_names argv = record {
  topics = or_default "topics" (after_first argv);
  services_1_to_2 = or_default "services_1_to_2" (after_first (after_first argv));
  services_2_to_1 = or_default "services_2_to_1" (after_first (after_first (after_first argv)));
}

-- The three lists of `main`, and the state of the middlewares.
pub record AllHandles (ros : Ros) : Type 0 where
  pub all_handles : List (BridgeHandles ros)
  pub service_bridges_1_to_2 : List (ServiceBridge1to2 ros)
  pub service_bridges_2_to_1 : List (ServiceBridge2to1 ros)
  pub world : ros.World

module _ {ros : Ros} where
  abbrev pub on_topics :
      {A : Type 0} → Exec (Listed (BridgeHandles ros) ros.World) A → Exec (AllHandles ros) A
  on_topics m s =
      let (r, st) = m (record { bridges = s.all_handles; world = s.world }) in
      (r, record s { all_handles = st.bridges; world = st.world })

  abbrev pub on_services_1_to_2 :
      {A : Type 0} → Exec (Listed (ServiceBridge1to2 ros) ros.World) A → Exec (AllHandles ros) A
  on_services_1_to_2 m s =
      let (r, st) = m (record { bridges = s.service_bridges_1_to_2; world = s.world }) in
      (r, record s { service_bridges_1_to_2 = st.bridges; world = st.world })

  abbrev pub on_services_2_to_1 :
      {A : Type 0} → Exec (Listed (ServiceBridge2to1 ros) ros.World) A → Exec (AllHandles ros) A
  on_services_2_to_1 m s =
      let (r, st) = m (record { bridges = s.service_bridges_2_to_1; world = s.world }) in
      (r, record s { service_bridges_2_to_1 = st.bridges; world = st.world })

module _ (ros : Ros) (gen : Generated) (qos : QosSetters ros) (xml : XmlRpc)
    (get_param : String → Exec ros.World (Option xml.Value)) where
  unfoldable pub use_topics :
      Option xml.Value → Exec (Listed (BridgeHandles ros) ros.World) (Unit {0})
  use_topics none = pure tt
  use_topics (some topics) =
      if xml.is_array topics then bridge_topics ros gen qos xml (xml.elements topics) else pure tt

  unfoldable pub bridge_parameter_topics :
      String → Exec (Listed (BridgeHandles ros) ros.World) (Unit {0})
  bridge_parameter_topics parameter_name = do
    found ← on_world ros gen xml get_param (get_param parameter_name)
    use_topics found

  unfoldable pub bridge_parameters : List String → Exec (AllHandles ros) (Unit {0})
  bridge_parameters argv = do
    on_topics (bridge_parameter_topics (parameter_names argv).topics)
    on_services_1_to_2
        (bridge_services_1_to_2 ros gen xml get_param (parameter_names argv).services_1_to_2)
    on_services_2_to_1
        (bridge_services_2_to_1 ros gen xml get_param (parameter_names argv).services_2_to_1)
