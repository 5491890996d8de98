-- ===== src/Tests/Services.antt =====
-- The theorems on the service bridges, applied.
use ros1_bridge.Prelude.{ℕ, ◌≡◌, ◌≢◌, refl, inl, [], ◌∷◌, string_discrete}
use ros1_bridge.Prelude.Exec.{Exec, ok, throw, runtime_error, out_of_fuel}
use ros1_bridge.Prelude.Int.{ℤ}
use ros1_bridge.StdMap.{find, contains}
use ros1_bridge.DynamicBridge.Services.{shut_down}
use ros1_bridge.DynamicBridge.Services.Removal.{shut_down_forever}
use ros1_bridge.DynamicBridge.Update.{
  Seen, update_services, ros1_services_direction, ros2_services_direction,
}
use ros1_bridge.DynamicBridge.Update.Settled.{
  ServiceOutcome, after_ros1, ros1_services_settled, ros2_services_settled,
  incomplete_details_throw,
}
use ros1_bridge.DynamicBridge.Update.Returns.{update_services-returns}
use ros1_bridge.Tests.{sim, gen, seen, no_bridges}
use ros1_bridge.Tests.Updates.{reliable, complete_add, complete_sum}

services_returned : (update_services sim gen 1 seen no_bridges).0 ≡ ok tt
unfolding find
services_returned =
    update_services-returns sim gen seen reliable 0 no_bridges (refl, tt) (refl, tt) complete_add
      complete_sum

ros1_services_settled_example :
    ServiceOutcome
      (ros1_services_direction sim gen)
      (λ n. contains n no_bridges.service_bridges_1_to_2)
      seen.ros1_services
      "/add"
      (find "/add" no_bridges.service_bridges_2_to_1)
      (find "/add" (update_services sim gen 1 seen no_bridges).1.service_bridges_2_to_1)
unfolding find
ros1_services_settled_example =
    ros1_services_settled sim gen 1 seen no_bridges (refl, tt) services_returned "/add"

ros2_services_settled_example :
    (timeout : ℤ) × ServiceOutcome
      (ros2_services_direction sim gen timeout)
      (λ n. contains n (after_ros1 sim gen 1 seen no_bridges).service_bridges_2_to_1)
      seen.ros2_services
      "/sum"
      (find "/sum" no_bridges.service_bridges_1_to_2)
      (find "/sum" (update_services sim gen 1 seen no_bridges).1.service_bridges_1_to_2)
unfolding find
ros2_services_settled_example =
    ros2_services_settled sim gen 1 seen no_bridges (refl, tt) services_returned "/sum"

-- A service whose header could not be parsed.
abbrev unparsed_service : Seen
unparsed_service = record seen { ros1_services = ("/add", []) ∷ [] }

incomplete_details_throw_example : (update_services sim gen 1 unparsed_service no_bridges).0 ≢ ok tt
unfolding find string_discrete
incomplete_details_throw_example =
    incomplete_details_throw sim gen 1 unparsed_service no_bridges "/add" [] (refl, tt) refl refl
      refl (inl refl)

-- A server that is locked for good.
abbrev locked : ℕ → Exec ℕ (Unit {0})
locked server world = (throw (runtime_error "locked"), world)

shut_down_forever_example :
    (shut_down locked 5 "/sum" 7 (record { bridges = ("/sum", 7) ∷ []; world = 0; log = [] })).0
    ≡ throw out_of_fuel
shut_down_forever_example =
    shut_down_forever locked 5 "/sum" 7 (record { bridges = ("/sum", 7) ∷ []; world = 0; log = [] })
      (λ world. ("locked", world, refl))
