-- ===== src/DynamicBridge/Update/Settled.antt =====
-- The service bridges after an update that returned.
use ros1_bridge.Prelude.{
  ℕ, String, ◌≡◌, sym, ◌∙◌, ap, Bool, false, Option, none, some, arith, ◌⊎◌, inl, inr, Option-cases,
  if◌then◌else◌, ◌≢◌,
}
use ros1_bridge.Prelude.Exec.{Result, ok, bind_returned}
use ros1_bridge.Prelude.Int.{ℤ}
use ros1_bridge.StdMap.{StdMap, find, contains, HasUniqueKeys}
use ros1_bridge.Ros.{Ros}
use ros1_bridge.Factory.{ServiceBridge2to1}
use ros1_bridge.Factory.Registry.{Generated}
use ros1_bridge.DynamicBridge.Services.{Details, ServiceDirection}
use ros1_bridge.DynamicBridge.Services.Outcome.{
  ServiceSettled, create_service_bridges-ServiceSettled, bridged_before, no_factory, IsComplete,
}
use ros1_bridge.DynamicBridge.Services.Outcome as Outcome
use ros1_bridge.DynamicBridge.Services.Removal.{
  remove_obsolete_2_to_1_lem, remove_obsolete_1_to_2_lem,
}
use ros1_bridge.DynamicBridge.Update.{
  Seen, Bridges, update_services, bridge_ros1_services, bridge_ros2_services, read_timeout,
  remove_ros1_services, remove_ros2_services, ros1_services_direction, ros2_services_direction,
  services_1_to_2, services_2_to_1,
}

-- How an update leaves the bridge of a service of one side.
pub data ServiceOutcome {Bridge World : Type 0} (d : ServiceDirection Bridge World)
    (bridged_back : String → Bool) (services : StdMap Details) (name : String)
    (old new : Option Bridge) : Type 0 where
  not_offered :
      find name services ≡ none → new ≡ none → ServiceOutcome d bridged_back services name old new
  offered :
      (details : Details)
      → find name services ≡ some details
      → ServiceSettled d bridged_back name details old new
      → ServiceOutcome d bridged_back services name old new

module _ (ros : Ros) (gen : Generated) (fuel : ℕ) (g : Seen) (b : Bridges ros) where
  -- The state after the loop `create bridges for ros1 services`, and after the timeout was read.
  abbrev pub after_ros1 : Bridges ros
  after_ros1 = (bridge_ros1_services ros gen g.ros1_services b).1

  abbrev timed : Bridges ros
  timed = (read_timeout ros gen after_ros1).1

  abbrev after_ros2 : ℤ → Bridges ros
  after_ros2 timeout = (bridge_ros2_services ros gen timeout g.ros2_services timed).1

  abbrev removed_ros1 : ℤ → Bridges ros
  removed_ros1 timeout = (remove_ros1_services ros gen g.ros1_services (after_ros2 timeout)).1

  abbrev removed_ros2 : ℤ → Result (Unit {0}) × Bridges ros
  removed_ros2 timeout = remove_ros2_services ros gen fuel g.ros2_services (removed_ros1 timeout)

  -- The parts of a run that returned.
  record Returned : Type 0 where
    timeout : ℤ
    ros1_returned : (bridge_ros1_services ros gen g.ros1_services b).0 ≡ ok tt
    ros2_returned : (bridge_ros2_services ros gen timeout g.ros2_services timed).0 ≡ ok tt
    removal_returned : (removed_ros2 timeout).0 ≡ ok tt
    result : update_services ros gen fuel g b ≡ removed_ros2 timeout

  update_services-Returned : (update_services ros gen fuel g b).0 ≡ ok tt → Returned
  unfolding update_services
  update_services-Returned h =
      let (_, first, e1) = bind_returned (bridge_ros1_services ros gen g.ros1_services) _ b h in
      let h1 = sym (ap (λ x. x.0) e1) ∙ h in
      let (timeout, second, e2) = bind_returned (read_timeout ros gen) _ after_ros1 h1 in
      let h2 = sym (ap (λ x. x.0) e2) ∙ h1 in
      let (_, third, e3) =
        bind_returned (bridge_ros2_services ros gen timeout g.ros2_services) _ timed h2 in
      let h3 = sym (ap (λ x. x.0) e3) ∙ h2 in
      let (_, fourth, e4) =
        bind_returned (remove_ros1_services ros gen g.ros1_services) _ (after_ros2 timeout) h3 in
      record {
        timeout = timeout;
        ros1_returned = first;
        ros2_returned = third;
        removal_returned = sym (ap (λ x. x.0) e4) ∙ h3;
        result = e1 ∙ e2 ∙ e3 ∙ e4;
      }

  -- The ROS 2 servers after the removal, from those after the loop that creates them.
  find-service_bridges_2_to_1 :
      (timeout : ℤ) (name : String)
      → find name (removed_ros2 timeout).1.service_bridges_2_to_1 ≡ (
          if contains name g.ros1_services
          then find name after_ros1.service_bridges_2_to_1
          else none)
  unfolding remove_ros2_services remove_ros1_services bridge_ros2_services read_timeout
  find-service_bridges_2_to_1 timeout name = ground (
    arith,
    remove_obsolete_2_to_1_lem (λ n. contains n g.ros1_services) after_ros1.service_bridges_2_to_1
        name (services_2_to_1 (after_ros2 timeout)),
  )

  find-service_bridges_1_to_2 :
      (timeout : ℤ) (name : String)
      → (removed_ros2 timeout).0 ≡ ok tt
      → find name (removed_ros2 timeout).1.service_bridges_1_to_2 ≡ (
          if contains name g.ros2_services
          then find name (after_ros2 timeout).service_bridges_1_to_2
          else none)
  unfolding remove_ros2_services remove_ros1_services
  find-service_bridges_1_to_2 timeout name h = ground (
    arith,
    remove_obsolete_1_to_2_lem (λ bridge. ros.shutdown bridge.server) fuel
        (λ n. contains n g.ros2_services) (after_ros2 timeout).service_bridges_1_to_2 name
        (services_1_to_2 (removed_ros1 timeout)) h,
  )

  -- Where the service part of an update returns and the services of ROS 1 have unique keys, a service
  -- that ROS 1 does not offer has no server in ROS 2 afterwards, and one that it offers has what
  -- `ServiceSettled` says: the old state where it was bridged before in either direction or where no
  -- factory is found, else a bridge that the call of its factory returned, or none after that call
  -- threw a `runtime_error`.
  pub ros1_services_settled :
      HasUniqueKeys g.ros1_services
      → (update_services ros gen fuel g b).0 ≡ ok tt
      → (name : String)
      → ServiceOutcome
          (ros1_services_direction ros gen)
          (λ n. contains n b.service_bridges_1_to_2)
          g.ros1_services
          name
          (find name b.service_bridges_2_to_1)
          (find name (update_services ros gen fuel g b).1.service_bridges_2_to_1)
  ros1_services_settled u h name =
      let run = update_services-Returned h in
      let same = find-service_bridges_2_to_1 run.timeout name in
      rw run.result (elim (Option-cases (find name g.ros1_services)) [
        | inl e ↦ not_offered e (ground arith)
        | inr (details, e) ↦ offered details e (
            rw (same, e)
              (unfold bridge_ros1_services in
                create_service_bridges-ServiceSettled (ros1_services_direction ros gen) _
                  g.ros1_services name details (services_2_to_1 b) u e run.ros1_returned))
      ])

  -- Where the service part of an update returns and the services of ROS 2 have unique keys, a service
  -- that ROS 2 does not offer has no server in ROS 1 afterwards, and one that it offers has what
  -- `ServiceSettled` says for some timeout: the old state where it had a server in ROS 1 before or has
  -- one in ROS 2 after the loop over the services of ROS 1, or where no factory is found, else a bridge
  -- that the call of its factory returned, or none after that call threw a `runtime_error`.
  pub ros2_services_settled :
      HasUniqueKeys g.ros2_services
      → (update_services ros gen fuel g b).0 ≡ ok tt
      → (name : String)
      → (timeout : ℤ) × ServiceOutcome
          (ros2_services_direction ros gen timeout)
          (λ n. contains n after_ros1.service_bridges_2_to_1)
          g.ros2_services
          name
          (find name b.service_bridges_1_to_2)
          (find name (update_services ros gen fuel g b).1.service_bridges_1_to_2)
  ros2_services_settled u h name =
      let run = update_services-Returned h in
      let same = find-service_bridges_1_to_2 run.timeout name run.removal_returned in
      rw run.result (
        run.timeout,
        elim (Option-cases (find name g.ros2_services)) [
          | inl e ↦ not_offered e (ground arith)
          | inr (details, e) ↦ offered details e (
              rw (same, e)
                (unfold bridge_ros2_services bridge_ros1_services read_timeout in
                  create_service_bridges-ServiceSettled
                    (ros2_services_direction ros gen run.timeout) _ g.ros2_services name details
                    (services_1_to_2 timed) u e run.ros2_returned))
        ],
      )

  -- Where the services of ROS 1 have unique keys and one of them without a bridge in either direction
  -- lacks the entry `package` or `name`, the service part of an update does not return.
  pub incomplete_details_throw :
      (name : String) (details : Details)
      → HasUniqueKeys g.ros1_services
      → find name g.ros1_services ≡ some details
      → contains name b.service_bridges_1_to_2 ≡ false
      → contains name b.service_bridges_2_to_1 ≡ false
      → find "package" details ≡ none ⊎ find "name" details ≡ none
      → (update_services ros gen fuel g b).0 ≢ ok tt
  incomplete_details_throw name details u found no_server no_client lacks h =
      go (ros1_services_settled u h name)
    where
      go :
          {new : Option (ServiceBridge2to1 ros)}
          → ServiceOutcome
              (ros1_services_direction ros gen)
              (λ n. contains n b.service_bridges_1_to_2)
              g.ros1_services
              name
              (find name b.service_bridges_2_to_1)
              new
          → ⊥
      go (not_offered e same) = ground arith
      go (offered details' e (bridged_before before same)) = ground arith
      go (offered details' e (no_factory pn sn p s _ _)) = ground arith
      go (offered details' e (Outcome.ServiceSettled.created pn sn _ _ _ _ _ _ p s _ _ _)) =
          ground arith
      go (offered details' e (Outcome.ServiceSettled.failed pn sn _ _ _ _ _ _ p s _ _ _)) =
          ground arith
