-- ===== src/ParameterBridge/Main/Outcome.antt =====
-- The bridges that src/parameter_bridge.cpp makes from its three parameters.
use ros1_bridge.Prelude.{String, ◌≡◌, sym, ap, subst, ◌∙◌, Option, List, []}
use ros1_bridge.Prelude.Exec.{Exec, ok, bind_returned, ◌>>◌}
use ros1_bridge.Ros.{Ros}
use ros1_bridge.Factory.Registry.{Generated}
use ros1_bridge.ParameterBridge.{XmlRpc}
use ros1_bridge.ParameterBridge.Qos.{QosSetters}
use ros1_bridge.ParameterBridge.Services.{bridge_services_1_to_2, bridge_services_2_to_1}
use ros1_bridge.ParameterBridge.Main.Parameter.{FromParameter}
use ros1_bridge.ParameterBridge.Main.{
  AllHandles, parameter_names, or_default, bridge_parameter_topics, bridge_parameters, on_topics,
  on_services_1_to_2, on_services_2_to_1,
}
use ros1_bridge.ParameterBridge.Main.Lists.{
  argument, argument_1, argument_2, argument_3, Topics, Services1to2, Services2to1,
  topics-FromParameter, services_1_to_2-FromParameter, services_2_to_1-FromParameter,
}

module _ (ros : Ros) (gen : Generated) (qos : QosSetters ros) (xml : XmlRpc)
    (get_param : String → Exec ros.World (Option xml.Value)) where
  -- Where the bridges of the three parameters are made without an exception, starting from empty
  -- lists: each list holds, in their order, the bridges that the elements of its parameter give,
  -- and nothing where the parameter is missing or no array. The names of the parameters for the
  -- topics, the services of ROS 1 and those of ROS 2 are the first, second and third argument of the
  -- program, or "topics", "services_1_to_2" and "services_2_to_1" where there are fewer.
  pub bridge_parameters-FromParameter :
      (argv : List String) (w : ros.World) (s : AllHandles ros)
      → bridge_parameters ros gen qos xml get_param argv (record {
        all_handles = [];
        service_bridges_1_to_2 = [];
        service_bridges_2_to_1 = [];
        world = w;
      })
        ≡ (ok tt, s)
      → FromParameter ros gen xml get_param
          (Topics ros gen qos xml get_param)
          (argument "topics" 1 argv)
          s.all_handles
        × FromParameter ros gen xml get_param
            (Services1to2 ros gen qos xml get_param)
            (argument "services_1_to_2" 2 argv)
            s.service_bridges_1_to_2
        × FromParameter ros gen xml get_param
            (Services2to1 ros gen qos xml get_param)
            (argument "services_2_to_1" 3 argv)
            s.service_bridges_2_to_1
  unfolding bridge_parameters parameter_names or_default
  bridge_parameters-FromParameter argv w s h =
      let start : AllHandles ros = record {
        all_handles = [];
        service_bridges_1_to_2 = [];
        service_bridges_2_to_1 = [];
        world = w;
      } in
      let names = parameter_names argv in
      let first = on_topics (bridge_parameter_topics ros gen qos xml get_param names.topics) in
      let second =
        on_services_1_to_2 (bridge_services_1_to_2 ros gen xml get_param names.services_1_to_2) in
      let third =
        on_services_2_to_1 (bridge_services_2_to_1 ros gen xml get_param names.services_2_to_1) in
      let (_, a, e1) = bind_returned first (λ _. do second; third) start (ap (λ x. x.0) h) in
      let s1 = (first start).1 in
      let (_, b, e2) =
        bind_returned second (λ _. third) s1 (sym (ap (λ x. x.0) e1) ∙ ap (λ x. x.0) h) in
      let s2 = (second s1).1 in
      let last : third s2 ≡ (ok tt, s) = sym e2 ∙ sym e1 ∙ h in
      subst
        (λ r.
          FromParameter ros gen xml get_param (Topics ros gen qos xml get_param)
            (argument "topics" 1 argv) r.1.all_handles
          × FromParameter ros gen xml get_param (Services1to2 ros gen qos xml get_param)
              (argument "services_1_to_2" 2 argv) r.1.service_bridges_1_to_2
          × FromParameter ros gen xml get_param (Services2to1 ros gen qos xml get_param)
              (argument "services_2_to_1" 3 argv) r.1.service_bridges_2_to_1)
        last
        (
          subst
              (λ n.
                FromParameter ros gen xml get_param (Topics ros gen qos xml get_param) n
                  s1.all_handles)
              (argument_1 "topics" argv)
              (topics-FromParameter ros gen qos xml get_param names.topics w a),
          subst
              (λ n.
                FromParameter ros gen xml get_param (Services1to2 ros gen qos xml get_param) n
                  s2.service_bridges_1_to_2)
              (argument_2 "services_1_to_2" argv)
              (services_1_to_2-FromParameter ros gen qos xml get_param names.services_1_to_2
                s1.world b),
          subst
              (λ n.
                FromParameter ros gen xml get_param (Services2to1 ros gen qos xml get_param) n
                  (third s2).1.service_bridges_2_to_1)
              (argument_3 "services_2_to_1" argv)
              (services_2_to_1-FromParameter ros gen qos xml get_param names.services_2_to_1
                s2.world (ap (λ x. x.0) last)),
        )
