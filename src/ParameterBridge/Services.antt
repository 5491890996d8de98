-- ===== src/ParameterBridge/Services.antt =====
-- The two loops over services in `main` of src/parameter_bridge.cpp. What is printed is left out.
pub mod Entries
pub mod Outcome
use ros1_bridge.Prelude.{
  ℕ, suc, String, ◌<>◌, Bool, ◌==◌, if◌then◌else◌, Option, none, some, List, [], ◌∷◌, ◌++◌,
}
use ros1_bridge.Prelude.Exec.{Exec, Result, ok, throw, runtime_error, pure, ◌>>=◌, ◌>>◌}
use ros1_bridge.Prelude.Int.{ℤ}
use ros1_bridge.Text.{find_slash, substr_to, substr_from}
use ros1_bridge.Ros.{Ros}
use ros1_bridge.Factory.{ServiceFactory, ServiceBridge1to2, ServiceBridge2to1}
use ros1_bridge.Factory.Registry.{Generated}
use ros1_bridge.DynamicBridge.Services.{ServiceDirection}
use ros1_bridge.DynamicBridge.Update.{
  ros1_services_direction, ros2_services_direction, default_timeout,
}
use ros1_bridge.ParameterBridge.{XmlRpc}

-- The list of bridges, and the state of the middlewares.
pub record Listed (Bridge World : Type 0) : Type 0 where
  pub bridges : List Bridge
  pub world : World

abbrev pub lift : {S A : Type 0} → Result A → Exec S A
lift r s = (r, s)

-- The type, where the entry may name the package on its own.
unfoldable pub full_type_name : String → String → String
full_type_name package_name type_name =
    if package_name == "" then type_name else package_name <> ("/" <> type_name)

-- What an entry of the parameter says.
pub record Entry : Type 0 where
  pub service_name : String
  pub type_name : String

module _ (xml : XmlRpc) where
  unfoldable pub text_at : String → xml.Value → Result String
  text_at key value = elim (xml.member key value) [ ok v ↦ xml.as_string v | throw e ↦ throw e ]

  unfoldable pub read_entry : xml.Value → Result Entry
  read_entry value =
      ((do
        service_name ← lift (text_at "service" value)
        type_name ← lift (text_at "type" value)
        package_name ← lift (text_at "package" value)
        pure (record {
          service_name = service_name;
          type_name = full_type_name package_name type_name;
        }))
        (tt {0})).0

module _ {Bridge World : Type 0} (d : ServiceDirection Bridge World) where
  unfoldable pub keep_bridge :
      Listed Bridge World → Result Bridge × World → Result (Unit {0}) × Listed Bridge World
  keep_bridge st (ok bridge, world) =
      (ok tt, record { bridges = st.bridges ++ (bridge ∷ []); world = world })
  keep_bridge st (throw (runtime_error what), world) = (ok tt, record st { world = world })
  keep_bridge st (throw e, world) = (throw e, record st { world = world })

  unfoldable pub create_for : String → Option ServiceFactory → Exec (Listed Bridge World) (Unit {0})
  create_for name none st = (ok tt, st)
  create_for name (some factory) st = keep_bridge st (d.create factory name st.world)

  -- The factory for a type that is split at its first slash.
  unfoldable pub factory_at : String → Option ServiceFactory
  factory_at type_name = elim (find_slash type_name) [
    | none ↦ none
    | some index ↦ d.factory_for (substr_to index type_name) (substr_from (suc index) type_name)
  ]

  unfoldable pub bridge_entries :
      (xml : XmlRpc) → List xml.Value → Exec (Listed Bridge World) (Unit {0})
  bridge_entries xml [] = pure tt
  bridge_entries xml (value ∷ rest) = do
    entry ← lift (read_entry xml value)
    create_for entry.service_name (factory_at entry.type_name)
    bridge_entries xml rest

module _ (ros : Ros) (gen : Generated) (xml : XmlRpc)
    (get_param : String → Exec ros.World (Option xml.Value)) where
  abbrev pub on_world : {A Bridge : Type 0} → Exec ros.World A → Exec (Listed Bridge ros.World) A
  on_world m st = let (r, w) = m st.world in (r, record st { world = w })

  -- ROS 1 services in ROS 2
  unfoldable pub services_1_to_2 :
      Option xml.Value → Exec (Listed (ServiceBridge1to2 ros) ros.World) (Unit {0})
  services_1_to_2 none = pure tt
  services_1_to_2 (some services) =
      if xml.is_array services
      then (do
        found ←
            on_world (ros.get_param_cached "ros1_bridge/parameter_bridge/service_execution_timeout")
        bridge_entries (ros2_services_direction ros gen (default_timeout found)) xml
            (xml.elements services))
      else pure tt

  unfoldable pub bridge_services_1_to_2 :
      String → Exec (Listed (ServiceBridge1to2 ros) ros.World) (Unit {0})
  bridge_services_1_to_2 parameter_name = do
    found ← on_world (get_param parameter_name)
    services_1_to_2 found

  -- ROS 2 services in ROS 1
  unfoldable pub services_2_to_1 :
      Option xml.Value → Exec (Listed (ServiceBridge2to1 ros) ros.World) (Unit {0})
  services_2_to_1 none = pure tt
  services_2_to_1 (some services) =
      if xml.is_array services
      then bridge_entries (ros1_services_direction ros gen) xml (xml.elements services)
      else pure tt

  unfoldable pub bridge_services_2_to_1 :
      String → Exec (Listed (ServiceBridge2to1 ros) ros.World) (Unit {0})
  bridge_services_2_to_1 parameter_name = do
    found ← on_world (get_param parameter_name)
    services_2_to_1 found
