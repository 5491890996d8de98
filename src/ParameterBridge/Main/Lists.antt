-- ===== src/ParameterBridge/Main/Lists.antt =====
-- What each of the three loops of src/parameter_bridge.cpp makes from its parameter.
use ros1_bridge.Prelude.{
  ℕ, zero, suc, String, ◌≡◌, refl, sym, ap, subst, ◌∙◌, Option, none, some, List, [], ◌∷◌, ◌++◌,
}
use ros1_bridge.Prelude.Exec.{Exec, Result, ok, bind_returned, ◌>>=◌}
use ros1_bridge.Prelude.Int.{ℤ, pos}
use ros1_bridge.Ros.{Ros}
use ros1_bridge.Factory.{ServiceBridge1to2, ServiceBridge2to1}
use ros1_bridge.Factory.Registry.{Generated}
use ros1_bridge.Bridge.{BridgeHandles}
use ros1_bridge.DynamicBridge.Services.{ServiceDirection}
use ros1_bridge.DynamicBridge.Update.{
  ros1_services_direction, ros2_services_direction, default_timeout,
}
use ros1_bridge.ParameterBridge.{XmlRpc}
use ros1_bridge.ParameterBridge.Qos.{QosSetters}
use ros1_bridge.ParameterBridge.Services.{
  Listed, on_world, services_1_to_2, services_2_to_1, bridge_services_1_to_2,
  bridge_services_2_to_1, bridge_entries,
}
use ros1_bridge.ParameterBridge.Services.Outcome.{Ends, bridge_entries-Ends}
use ros1_bridge.ParameterBridge.Topics.{bridge_topics}
use ros1_bridge.ParameterBridge.Topics.Outcome.{AllBridged, bridge_topics-AllBridged}
use ros1_bridge.ParameterBridge.Main.Parameter.{FromParameter, parameter_lem, looped}
use ros1_bridge.ParameterBridge.Main.{or_default, after_first, use_topics, bridge_parameter_topics}

-- The argument of the program at an index, or what stands for it where there are fewer.
abbrev pub argument : String → ℕ → List String → String
argument name index [] = name
argument name zero (arg ∷ argv) = arg
argument name (suc index) (arg ∷ argv) = argument name index argv

pub argument_1 :
    (name : String) (argv : List String) → or_default name (after_first argv) ≡ argument name 1 argv
unfolding or_default
argument_1 name [] = refl
argument_1 name (p ∷ []) = refl
argument_1 name (p ∷ a ∷ rest) = refl

pub argument_2 :
    (name : String) (argv : List String)
    → or_default name (after_first (after_first argv)) ≡ argument name 2 argv
unfolding or_default
argument_2 name [] = refl
argument_2 name (p ∷ []) = refl
argument_2 name (p ∷ a ∷ []) = refl
argument_2 name (p ∷ a ∷ b ∷ rest) = refl

pub argument_3 :
    (name : String) (argv : List String)
    → or_default name (after_first (after_first (after_first argv))) ≡ argument name 3 argv
unfolding or_default
argument_3 name [] = refl
argument_3 name (p ∷ []) = refl
argument_3 name (p ∷ a ∷ []) = refl
argument_3 name (p ∷ a ∷ b ∷ []) = refl
argument_3 name (p ∷ a ∷ b ∷ c ∷ rest) = refl

module _ (ros : Ros) (gen : Generated) (qos : QosSetters ros) (xml : XmlRpc)
    (get_param : String → Exec ros.World (Option xml.Value)) where
  -- The bridges of a loop that has returned.
  abbrev pub Topics : List xml.Value → List (BridgeHandles ros) → Type 0
  Topics values bridges =
      (w : ros.World) × (after : ros.World) × AllBridged ros gen qos xml values w bridges (ok tt)
        after

  -- The timeout of the calls is a parameter of its own, 5 where that is missing.
  abbrev pub Services1to2 : List xml.Value → List (ServiceBridge1to2 ros) → Type 0
  Services1to2 values bridges =
      (before : ros.World) × (found : Option ℤ) × (w : ros.World) × (after : ros.World)
      × (ros.get_param_cached "ros1_bridge/parameter_bridge/service_execution_timeout" before
          ≡ (ok found, w))
      × Ends
          (ros2_services_direction ros gen (elim found [ none ↦ pos 5 | some timeout ↦ timeout ]))
          xml values w bridges (ok tt) after

  abbrev pub Services2to1 : List xml.Value → List (ServiceBridge2to1 ros) → Type 0
  Services2to1 values bridges =
      (w : ros.World) × (after : ros.World) × Ends (ros1_services_direction ros gen) xml values w
        bridges (ok tt) after

  returned_topics :
      (values : List xml.Value) (st : Listed (BridgeHandles ros) ros.World)
      → (bridge_topics ros gen qos xml values st).0 ≡ ok tt
      → (new : List (BridgeHandles ros)) × Topics values new
        × ((bridge_topics ros gen qos xml values st).1.bridges ≡ st.bridges ++ new)
  returned_topics values st h =
      let (new, ends, same) = bridge_topics-AllBridged ros gen qos xml values st in
      let run = bridge_topics ros gen qos xml values st in
      (
        new,
        (
          st.world,
          run.1.world,
          subst (λ r. AllBridged ros gen qos xml values st.world new r run.1.world) h ends,
        ),
        same,
      )

  returned_entries :
      {Bridge : Type 0} (d : ServiceDirection Bridge ros.World) (values : List xml.Value)
      (st : Listed Bridge ros.World)
      → (bridge_entries d xml values st).0 ≡ ok tt
      → (new : List Bridge) × Ends d xml values st.world new
          (ok tt)
          (bridge_entries d xml values st).1.world
        × ((bridge_entries d xml values st).1.bridges ≡ st.bridges ++ new)
  returned_entries d values st h =
      let (new, ends, same) = bridge_entries-Ends d xml values st in
      let run = bridge_entries d xml values st in
      (new, subst (λ r. Ends d xml values st.world new r run.1.world) h ends, same)

  pub topics-FromParameter :
      (name : String) (w : ros.World)
      → (bridge_parameter_topics ros gen qos xml get_param name
          (record { bridges = []; world = w })).0
        ≡ ok tt
      → FromParameter ros gen xml get_param Topics name
          (bridge_parameter_topics ros gen qos xml get_param name
            (record { bridges = []; world = w })).1.bridges
  unfolding bridge_parameter_topics use_topics
  topics-FromParameter name w h =
      let made = Topics in
      let use_value = use_topics ros gen qos xml get_param in
      parameter_lem ros gen xml get_param made use_value name w (λ st. refl) (λ v st e. rw e refl)
        (λ v st e empty k.
          looped ros gen xml get_param made use_value (xml.elements v) st
            (bridge_topics ros gen qos xml (xml.elements v) st) (use_value (some v) st) (rw e refl)
            empty (returned_topics (xml.elements v) st) k)
        h

  pub services_1_to_2-FromParameter :
      (name : String) (w : ros.World)
      → (bridge_services_1_to_2 ros gen xml get_param name (record { bridges = []; world = w })).0
        ≡ ok tt
      → FromParameter ros gen xml get_param Services1to2 name
          (bridge_services_1_to_2 ros gen xml get_param name
            (record { bridges = []; world = w })).1.bridges
  unfolding bridge_services_1_to_2 services_1_to_2
  services_1_to_2-FromParameter name w h =
      let use_value = services_1_to_2 ros gen xml get_param in
      parameter_lem ros gen xml get_param Services1to2 use_value name w (λ st. refl)
        (λ v st e. rw e refl)
        (λ v st e empty k. timed v st empty (use_value (some v) st) (rw e refl) k) h
    where
      timeout : Exec (Listed (ServiceBridge1to2 ros) ros.World) (Option ℤ)
      timeout =
          on_world ros gen xml get_param
            (ros.get_param_cached "ros1_bridge/parameter_bridge/service_execution_timeout")

      loop : List xml.Value → Option ℤ → Exec (Listed (ServiceBridge1to2 ros) ros.World) (Unit {0})
      loop values found =
          bridge_entries (ros2_services_direction ros gen (default_timeout found)) xml values

      timed :
          (v : xml.Value) (st : Listed (ServiceBridge1to2 ros) ros.World)
          → st.bridges ≡ []
          → (r : Result (Unit {0}) × Listed (ServiceBridge1to2 ros) ros.World)
          → r ≡ (timeout >>= loop (xml.elements v)) st
          → r.0 ≡ ok tt
          → Services1to2 (xml.elements v) r.1.bridges
      timed v st empty r same k =
          let (found, got, rest) =
            bind_returned timeout (loop (xml.elements v)) st (sym (ap (λ x. x.0) same) ∙ k) in
          looped ros gen xml get_param Services1to2 (services_1_to_2 ros gen xml get_param)
            (xml.elements v) (timeout st).1 (loop (xml.elements v) found (timeout st).1) r
            (same ∙ rest) empty
            (λ h.
              let d = ros2_services_direction ros gen (default_timeout found) in
              let st1 = (timeout st).1 in
              let (new, ends, added) = returned_entries d (xml.elements v) st1 h in
              (
                new,
                (
                  st.world,
                  found,
                  st1.world,
                  (bridge_entries d xml (xml.elements v) st1).1.world,
                  ap (λ r. (r, st1.world)) got,
                  ends,
                ),
                added,
              ))
            k

  pub services_2_to_1-FromParameter :
      (name : String) (w : ros.World)
      → (bridge_services_2_to_1 ros gen xml get_param name (record { bridges = []; world = w })).0
        ≡ ok tt
      → FromParameter ros gen xml get_param Services2to1 name
          (bridge_services_2_to_1 ros gen xml get_param name
            (record { bridges = []; world = w })).1.bridges
  unfolding bridge_services_2_to_1 services_2_to_1
  services_2_to_1-FromParameter name w h =
      let use_value = services_2_to_1 ros gen xml get_param in
      let d = ros1_services_direction ros gen in
      parameter_lem ros gen xml get_param Services2to1 use_value name w (λ st. refl)
        (λ v st e. rw e refl)
        (λ v st e empty k.
          looped ros gen xml get_param Services2to1 use_value (xml.elements v) st
            (bridge_entries d xml (xml.elements v) st) (use_value (some v) st) (rw e refl) empty
            (λ h.
              let (new, ends, same) = returned_entries d (xml.elements v) st h in
              (new, (st.world, (bridge_entries d xml (xml.elements v) st).1.world, ends), same))
            k)
        h
