-- ===== src/ParameterBridge/Topics/Outcome.antt =====
-- The bridges that the loop over an array of topics makes.
use ros1_bridge.Prelude.{String, ◌≡◌, ◌≢◌, sym, ◌∙◌, List, [], ◌∷◌, ◌++◌}
use mathlib.Core.List.{append_assoc, append-nil}
use ros1_bridge.Prelude.Exec.{
  Exception, Result, ok, throw, runtime_error, out_of_range, undefined, out_of_fuel, other,
  and_then, ◌>>◌,
}
use ros1_bridge.Ros.{Ros}
use ros1_bridge.Factory.Registry.{Generated}
use ros1_bridge.Bridge.{BridgeHandles}
use ros1_bridge.ParameterBridge.{XmlRpc}
use ros1_bridge.ParameterBridge.Services.{Listed}
use ros1_bridge.ParameterBridge.Qos.{QosSetters}
use ros1_bridge.ParameterBridge.Topics.{
  TopicEntry, read_topic, create_handles, keep_handles, bridge_one_topic, bridge_topics,
}
use ros1_bridge.ParameterBridge.Topics.Entries.{
  ReadsTopic, Creates, read_topic-ReadsTopic, create_handles-Creates,
}

module _ (ros : Ros) (gen : Generated) (qos : QosSetters ros) (xml : XmlRpc) where
  -- The run over an array of topics: the state of the middlewares before it, the bridges that it
  -- adds, how it ends, and the state after it. A value whose creation throws a `runtime_error` gives
  -- no bridge. A value that cannot be read ends the run with the exception, and so does any other
  -- exception of the creation.
  pub data AllBridged
      : List xml.Value
        → ros.World
        → List (BridgeHandles ros)
        → Result (Unit {0})
        → ros.World
        → Type 0 where
    done : {w : ros.World} → AllBridged [] w [] (ok tt) w
    unreadable :
        {value : xml.Value} {rest : List xml.Value} {w : ros.World} {e : Exception}
        → ReadsTopic xml value (throw e)
        → AllBridged (value ∷ rest) w [] (throw e) w
    failed :
        {value : xml.Value} {rest : List xml.Value} {entry : TopicEntry} {what : String}
        {w next after : ros.World} {new : List (BridgeHandles ros)} {r : Result (Unit {0})}
        → ReadsTopic xml value (ok entry)
        → Creates ros gen qos xml value entry w (throw (runtime_error what), next)
        → AllBridged rest next new r after
        → AllBridged (value ∷ rest) w new r after
    created :
        {value : xml.Value} {rest : List xml.Value} {entry : TopicEntry}
        {handles : BridgeHandles ros} {w next after : ros.World} {new : List (BridgeHandles ros)}
        {r : Result (Unit {0})}
        → ReadsTopic xml value (ok entry)
        → Creates ros gen qos xml value entry w (ok handles, next)
        → AllBridged rest next new r after
        → AllBridged (value ∷ rest) w (handles ∷ new) r after
    escaped :
        {value : xml.Value} {rest : List xml.Value} {entry : TopicEntry} {w next : ros.World}
        {e : Exception}
        → ReadsTopic xml value (ok entry)
        → Creates ros gen qos xml value entry w (throw e, next)
        → ((what : String) → e ≢ runtime_error what)
        → AllBridged (value ∷ rest) w [] (throw e) next

  abbrev RunOf :
      List xml.Value
      → Listed (BridgeHandles ros) ros.World
      → Result (Unit {0}) × Listed (BridgeHandles ros) ros.World
      → Type 0
  RunOf values st run =
      (new : List (BridgeHandles ros)) × AllBridged values st.world new run.0 run.1.world
      × (run.1.bridges ≡ st.bridges ++ new)

  module _ (value : xml.Value) (rest : List xml.Value)
      (again : (st : Listed (BridgeHandles ros) ros.World)
        → RunOf rest st (bridge_topics ros gen qos xml rest st))
      (st : Listed (BridgeHandles ros) ros.World) where
    kept-RunOf :
        (entry : TopicEntry) (x : Result (BridgeHandles ros) × ros.World)
        → ReadsTopic xml value (ok entry)
        → Creates ros gen qos xml value entry st.world x
        → RunOf
            (value ∷ rest)
            st
            (and_then (keep_handles ros gen qos xml st x) (λ _. bridge_topics ros gen qos xml rest))
    unfolding keep_handles
    kept-RunOf entry (ok handles, next) reads creates =
        let (new, ends, same) =
          again (record { bridges = st.bridges ++ (handles ∷ []); world = next }) in
        (
          handles ∷ new,
          created reads creates ends,
          same ∙ append_assoc st.bridges (handles ∷ []) new,
        )
    kept-RunOf entry (throw (runtime_error what), next) reads creates =
        let (new, ends, same) = again (record st { world = next }) in
        (new, failed reads creates ends, same)
    kept-RunOf entry (throw out_of_range, next) reads creates =
        ([], escaped reads creates (λ what h. cc), sym (append-nil st.bridges))
    kept-RunOf entry (throw undefined, next) reads creates =
        ([], escaped reads creates (λ what h. cc), sym (append-nil st.bridges))
    kept-RunOf entry (throw out_of_fuel, next) reads creates =
        ([], escaped reads creates (λ what h. cc), sym (append-nil st.bridges))
    kept-RunOf entry (throw (other text), next) reads creates =
        ([], escaped reads creates (λ what h. cc), sym (append-nil st.bridges))

    value-RunOf :
        (r : Result TopicEntry)
        → ReadsTopic xml value r
        → RunOf (value ∷ rest) st (
            and_then
              (r, st)
              (λ entry.
                bridge_one_topic ros gen qos xml value entry >> bridge_topics ros gen qos xml rest))
    unfolding bridge_one_topic
    value-RunOf (throw e) reads = ([], unreadable reads, sym (append-nil st.bridges))
    value-RunOf (ok entry) reads =
        kept-RunOf entry (create_handles ros gen qos xml value entry st.world) reads
          (create_handles-Creates ros gen qos xml value entry st.world)

  -- The loop over the topics of an array adds the handles of the values in their order. For each it
  -- reads the topic, the type and the queue size, where 0 stands for 100, and makes a bridge in both
  -- directions for them, with the settings of its member "qos" where there is one. There are no
  -- handles where reading the settings or the creation throws a `runtime_error`. The loop ends with
  -- the first exception of reading a value and with any other exception of the creation, with the
  -- handles that it has added before, and returns where there is none.
  pub bridge_topics-AllBridged :
      (values : List xml.Value) (st : Listed (BridgeHandles ros) ros.World)
      → (new : List (BridgeHandles ros)) × AllBridged values st.world new
          (bridge_topics ros gen qos xml values st).0
          (bridge_topics ros gen qos xml values st).1.world
        × ((bridge_topics ros gen qos xml values st).1.bridges ≡ st.bridges ++ new)
  unfolding bridge_topics
  bridge_topics-AllBridged [] st = ([], done, sym (append-nil st.bridges))
  bridge_topics-AllBridged (value ∷ rest) st =
      value-RunOf value rest (bridge_topics-AllBridged rest) st (read_topic xml value)
        (read_topic-ReadsTopic xml value)
