-- ===== src/ParameterBridge/Services/Outcome.antt =====
-- The bridges that the loop over an array of services makes.
use ros1_bridge.Prelude.{String, ◌≡◌, ◌≢◌, refl, sym, ◌∙◌, Option, none, some, List, [], ◌∷◌, ◌++◌}
use mathlib.Core.List.{append_assoc, append-nil}
use ros1_bridge.Prelude.Exec.{
  Exception, Result, ok, throw, runtime_error, out_of_range, undefined, out_of_fuel, other,
  and_then, ◌>>◌,
}
use ros1_bridge.Factory.{ServiceFactory}
use ros1_bridge.DynamicBridge.Services.{ServiceDirection}
use ros1_bridge.ParameterBridge.{XmlRpc}
use ros1_bridge.ParameterBridge.Services.{
  Listed, Entry, read_entry, keep_bridge, create_for, factory_at, bridge_entries,
}
use ros1_bridge.ParameterBridge.Services.Entries.{
  Reads, FactoryOf, texts, read_entry-Reads, factory_at-FactoryOf,
}

module _ {Bridge World : Type 0} (d : ServiceDirection Bridge World) (xml : XmlRpc) where
  -- The run over an array of services: the state of the middlewares before it, the bridges that it
  -- adds, how it ends, and the state after it. A value whose type has no factory gives no bridge, and
  -- neither does one whose factory's call throws a `runtime_error`. A value that cannot be read ends
  -- the run with the exception, and so does any other exception of a call.
  pub data Ends : List xml.Value → World → List Bridge → Result (Unit {0}) → World → Type 0 where
    done : {w : World} → Ends [] w [] (ok tt) w
    unreadable :
        {value : xml.Value} {rest : List xml.Value} {w : World} {e : Exception}
        → Reads xml value (throw e)
        → Ends (value ∷ rest) w [] (throw e) w
    no_factory :
        {value : xml.Value} {rest : List xml.Value} {name type : String} {w after : World}
        {new : List Bridge} {r : Result (Unit {0})}
        → Reads xml value (ok (name, type))
        → FactoryOf d type none
        → Ends rest w new r after
        → Ends (value ∷ rest) w new r after
    failed :
        {value : xml.Value} {rest : List xml.Value} {name type what : String}
        {factory : ServiceFactory} {w next after : World} {new : List Bridge}
        {r : Result (Unit {0})}
        → Reads xml value (ok (name, type))
        → FactoryOf d type (some factory)
        → d.create factory name w ≡ (throw (runtime_error what), next)
        → Ends rest next new r after
        → Ends (value ∷ rest) w new r after
    created :
        {value : xml.Value} {rest : List xml.Value} {name type : String} {factory : ServiceFactory}
        {bridge : Bridge} {w next after : World} {new : List Bridge} {r : Result (Unit {0})}
        → Reads xml value (ok (name, type))
        → FactoryOf d type (some factory)
        → d.create factory name w ≡ (ok bridge, next)
        → Ends rest next new r after
        → Ends (value ∷ rest) w (bridge ∷ new) r after
    escaped :
        {value : xml.Value} {rest : List xml.Value} {name type : String} {factory : ServiceFactory}
        {w next : World} {e : Exception}
        → Reads xml value (ok (name, type))
        → FactoryOf d type (some factory)
        → d.create factory name w ≡ (throw e, next)
        → ((what : String) → e ≢ runtime_error what)
        → Ends (value ∷ rest) w [] (throw e) next

  abbrev RunOf :
      List xml.Value → Listed Bridge World → Result (Unit {0}) × Listed Bridge World → Type 0
  RunOf values st run =
      (new : List Bridge) × Ends values st.world new run.0 run.1.world
      × (run.1.bridges ≡ st.bridges ++ new)

  module _ (value : xml.Value) (rest : List xml.Value)
      (again : (st : Listed Bridge World) → RunOf rest st (bridge_entries d xml rest st))
      (st : Listed Bridge World) where
    kept-RunOf :
        (name type : String) (factory : ServiceFactory) (x : Result Bridge × World)
        → Reads xml value (ok (name, type))
        → FactoryOf d type (some factory)
        → d.create factory name st.world ≡ x
        → RunOf (value ∷ rest) st (and_then (keep_bridge d st x) (λ _. bridge_entries d xml rest))
    unfolding keep_bridge
    kept-RunOf name type factory (ok bridge, next) reads found e =
        let (new, ends, same) =
          again (record { bridges = st.bridges ++ (bridge ∷ []); world = next }) in
        (bridge ∷ new, created reads found e ends, same ∙ append_assoc st.bridges (bridge ∷ []) new)
    kept-RunOf name type factory (throw (runtime_error what), next) reads found e =
        let (new, ends, same) = again (record st { world = next }) in
        (new, failed reads found e ends, same)
    kept-RunOf name type factory (throw out_of_range, next) reads found e =
        ([], escaped reads found e (λ what h. cc), sym (append-nil st.bridges))
    kept-RunOf name type factory (throw undefined, next) reads found e =
        ([], escaped reads found e (λ what h. cc), sym (append-nil st.bridges))
    kept-RunOf name type factory (throw out_of_fuel, next) reads found e =
        ([], escaped reads found e (λ what h. cc), sym (append-nil st.bridges))
    kept-RunOf name type factory (throw (other text), next) reads found e =
        ([], escaped reads found e (λ what h. cc), sym (append-nil st.bridges))

    factory-RunOf :
        (name type : String) (o : Option ServiceFactory)
        → Reads xml value (ok (name, type))
        → FactoryOf d type o
        → RunOf (value ∷ rest) st ((create_for d name o >> bridge_entries d xml rest) st)
    unfolding create_for
    factory-RunOf name type none reads found =
        let (new, ends, same) = again st in (new, no_factory reads found ends, same)
    factory-RunOf name type (some factory) reads found =
        kept-RunOf name type factory (d.create factory name st.world) reads found refl

    value-RunOf :
        (r : Result Entry)
        → Reads xml value (texts xml r)
        → RunOf (value ∷ rest) st (
            and_then
              (r, st)
              (λ entry.
                create_for d entry.service_name (factory_at d entry.type_name)
                >> bridge_entries d xml rest))
    value-RunOf (throw e) reads = ([], unreadable reads, sym (append-nil st.bridges))
    value-RunOf (ok entry) reads =
        factory-RunOf entry.service_name entry.type_name (factory_at d entry.type_name) reads
          (factory_at-FactoryOf d entry.type_name)

  -- The loop over the services of an array adds the bridges of the values in their order. For each
  -- it reads the service's name, and the type with its package, and calls the factory of the texts
  -- before and behind the first slash of the type, for the service's name. There is no bridge where
  -- the type has no slash, no factory is found or its call throws a `runtime_error`. The loop
  -- ends with the first exception of reading a value and with any other exception of a call, with
  -- the bridges that it has added before, and returns where there is none.
  pub bridge_entries-Ends :
      (values : List xml.Value) (st : Listed Bridge World)
      → (new : List Bridge) × Ends values st.world new
          (bridge_entries d xml values st).0
          (bridge_entries d xml values st).1.world
        × ((bridge_entries d xml values st).1.bridges ≡ st.bridges ++ new)
  unfolding bridge_entries
  bridge_entries-Ends [] st = ([], done, sym (append-nil st.bridges))
  bridge_entries-Ends (value ∷ rest) st =
      value-RunOf value rest (bridge_entries-Ends rest) st (read_entry xml value)
        (read_entry-Reads xml value)
