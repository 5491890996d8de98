-- ===== src/ParameterBridge/Topics.antt =====
-- The loop over topics in `main` of src/parameter_bridge.cpp. What is printed is left out.
pub mod Entries
pub mod Outcome
use ros1_bridge.Prelude.{
  ℕ, String, Bool, ◌==◌, if◌then◌else◌, Option, none, some, List, [], ◌∷◌, ◌++◌,
}
use ros1_bridge.Prelude.Exec.{Exec, Result, ok, throw, runtime_error, pure, ◌>>=◌, ◌>>◌}
use ros1_bridge.Prelude.Int.{nat_eq}
use ros1_bridge.Ros.{Ros}
use ros1_bridge.Factory.Registry.{Generated}
use ros1_bridge.Bridge.{
  BridgeHandles, create_bidirectional_bridge, create_bidirectional_bridge_of_queue_size,
}
use ros1_bridge.ParameterBridge.{XmlRpc}
use ros1_bridge.ParameterBridge.Services.{Listed, lift, text_at}
use ros1_bridge.ParameterBridge.Qos.{QosSetters, to_size_t, then_do, qos_from_params}

pub record TopicEntry : Type 0 where
  pub topic_name : String
  pub type_name : String
  pub queue_size : ℕ

-- A size of 0 stands for the default.
unfoldable pub queue_size_or_default : ℕ → ℕ
queue_size_or_default queue_size = if nat_eq queue_size 0 then 100 else queue_size

unfoldable pub read_topic : (xml : XmlRpc) → xml.Value → Result TopicEntry
read_topic xml value = then_do (text_at xml "topic" value) (λ topic_name.
    then_do (text_at xml "type" value) (λ type_name.
      then_do (then_do (xml.member "queue_size" value) xml.as_int) (λ queue_size. ok (record {
        topic_name = topic_name;
        type_name = type_name;
        queue_size = queue_size_or_default (to_size_t queue_size);
      }))))

module _ (ros : Ros) (gen : Generated) (qos : QosSetters ros) (xml : XmlRpc) where
  -- The try block.
  unfoldable pub create_handles : xml.Value → TopicEntry → Exec ros.World (BridgeHandles ros)
  create_handles value entry =
      if xml.has_member "qos" value
      then (do
        qos_settings ← lift (then_do (xml.member "qos" value) (qos_from_params ros qos xml))
        create_bidirectional_bridge ros gen "" entry.type_name entry.topic_name entry.queue_size
            qos_settings)
      else create_bidirectional_bridge_of_queue_size ros gen "" entry.type_name entry.topic_name
          entry.queue_size

  unfoldable pub keep_handles :
      Listed (BridgeHandles ros) ros.World
      → Result (BridgeHandles ros) × ros.World
      → Result (Unit {0}) × Listed (BridgeHandles ros) ros.World
  keep_handles st (ok handles, world) =
      (ok tt, record { bridges = st.bridges ++ (handles ∷ []); world = world })
  keep_handles st (throw (runtime_error what), world) = (ok tt, record st { world = world })
  keep_handles st (throw e, world) = (throw e, record st { world = world })

  unfoldable pub bridge_one_topic :
      xml.Value → TopicEntry → Exec (Listed (BridgeHandles ros) ros.World) (Unit {0})
  bridge_one_topic value entry st = keep_handles st (create_handles value entry st.world)

  unfoldable pub bridge_topics :
      List xml.Value → Exec (Listed (BridgeHandles ros) ros.World) (Unit {0})
  bridge_topics [] = pure tt
  bridge_topics (value ∷ rest) = do
    entry ← lift (read_topic xml value)
    bridge_one_topic value entry
    bridge_topics rest
