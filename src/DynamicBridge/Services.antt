-- ===== src/DynamicBridge/Services.antt =====
-- The service part of `update_bridge` in src/dynamic_bridge.cpp. The loops that create bridges
-- stand there twice; `ServiceDirection` holds what differs.
pub mod Outcome
pub mod Removal
pub mod Returns
use ros1_bridge.Prelude.{
  ℕ, zero, suc, String, Bool, true, false, not, ◌||◌, if◌then◌else◌, Option, none, some, List, [],
  ◌∷◌,
}
use ros1_bridge.Prelude.Exec.{
  Exec, Result, ok, throw, runtime_error, out_of_range, out_of_fuel, pure, raise, ◌>>=◌, ◌>>◌,
}
use ros1_bridge.StdMap.{StdMap, find, contains, insert, erase}
use ros1_bridge.Factory.{ServiceFactory}
use ros1_bridge.DynamicBridge.{
  Way, one_to_two, two_to_one, Event, created_service_bridge, failed_service_bridge,
  removed_service_bridge, failed_removal,
}

-- What is known of a service: its "type", "package" and "name".
abbrev pub Details : Type 0
Details = StdMap String

-- `factory_for` is `get_service_factory` with its first argument, "ros1" or "ros2".
pub record ServiceDirection (Bridge World : Type 0) : Type 0 where
  pub way : Way
  pub factory_for : String → String → Option ServiceFactory
  pub create : ServiceFactory → String → Exec World Bridge

pub record ServiceState (Bridge World : Type 0) : Type 0 where
  pub bridges : StdMap Bridge
  pub world : World
  pub log : List Event

-- details.at(key)
abbrev pub at_key {ℓ} : {S : Type ℓ} → String → Details → Exec S String
at_key key details = elim (find key details) [ some value ↦ pure value | none ↦ raise out_of_range ]

module _ {Bridge World : Type 0} where
  module _ (d : ServiceDirection Bridge World) (bridged_back : String → Bool) where
    unfoldable pub settle_service :
        String
        → ServiceState Bridge World
        → Result Bridge × World
        → Result (Unit {0}) × ServiceState Bridge World
    settle_service name st (ok bridge, world) = (
      ok tt,
      record {
        bridges = insert name bridge st.bridges;
        world = world;
        log = created_service_bridge d.way name ∷ st.log;
      },
    )
    settle_service name st (throw (runtime_error what), world) =
        (ok tt, record st { world = world; log = failed_service_bridge what ∷ st.log })
    settle_service name st (throw e, world) = (throw e, record st { world = world })

    unfoldable pub establish_service :
        String → Option ServiceFactory → Exec (ServiceState Bridge World) (Unit {0})
    establish_service name none = pure tt
    establish_service name (some factory) =
        λ st. settle_service name st (d.create factory name st.world)

    -- One round of the loop; `bridged_back` tells whether the service has a bridge the other way.
    unfoldable pub bridge_service : String → Details → Exec (ServiceState Bridge World) (Unit {0})
    bridge_service name details st =
        if contains name st.bridges || bridged_back name
        then (ok tt, st)
        else (do
          package_name ← at_key "package" details
          service_name ← at_key "name" details
          establish_service name (d.factory_for package_name service_name))
            st

    unfoldable pub create_service_bridges :
        StdMap Details → Exec (ServiceState Bridge World) (Unit {0})
    create_service_bridges [] = pure tt
    create_service_bridges ((name, details) ∷ rest) = do
      bridge_service name details
      create_service_bridges rest

  -- The loop `remove obsolete ros1 services`, over the entries from the iterator on.
  unfoldable pub remove_obsolete_2_to_1 :
      (String → Bool) → StdMap Bridge → ServiceState Bridge World → ServiceState Bridge World
  remove_obsolete_2_to_1 is_offered [] st = st
  remove_obsolete_2_to_1 is_offered ((name, bridge) ∷ rest) st =
      remove_obsolete_2_to_1 is_offered rest (
        if is_offered name then st else record st {
          bridges = erase name st.bridges;
          log = removed_service_bridge two_to_one name ∷ st.log;
        })

  module _ (shutdown : Bridge → Exec World (Unit {0})) where
    -- What follows the call that shuts the server down; `again` is the next round of the loop.
    unfoldable pub after_shutdown :
        Exec (ServiceState Bridge World) (Unit {0})
        → String
        → ServiceState Bridge World
        → Result (Unit {0}) × World
        → Result (Unit {0}) × ServiceState Bridge World
    after_shutdown again name st (ok _, world) =
        (ok tt, record st { bridges = erase name st.bridges; world = world })
    after_shutdown again name st (throw (runtime_error what), world) =
        again (record st { world = world; log = failed_removal one_to_two what ∷ st.log })
    after_shutdown again name st (throw e, world) = (throw e, record st { world = world })

    -- The rounds of `remove obsolete ros2 services` at one entry: where shutting the server down
    -- throws, the iterator stays and the next round tries again. Each round takes one of the fuel.
    unfoldable pub shut_down : ℕ → String → Bridge → Exec (ServiceState Bridge World) (Unit {0})
    shut_down zero name bridge st = raise out_of_fuel st
    shut_down (suc fuel) name bridge st =
        after_shutdown (shut_down fuel name bridge) name
          (record st { log = removed_service_bridge one_to_two name ∷ st.log })
          (shutdown bridge st.world)

    -- The body of the loop, at the entry that the iterator is at.
    unfoldable pub shut_down_obsolete :
        ℕ → (String → Bool) → String → Bridge → Exec (ServiceState Bridge World) (Unit {0})
    shut_down_obsolete fuel is_offered name bridge =
        if is_offered name then pure tt else shut_down fuel name bridge

    -- The loop `remove obsolete ros2 services`, over the entries from the iterator on.
    unfoldable pub remove_obsolete_1_to_2 :
        ℕ → (String → Bool) → StdMap Bridge → Exec (ServiceState Bridge World) (Unit {0})
    remove_obsolete_1_to_2 fuel is_offered [] = pure tt
    remove_obsolete_1_to_2 fuel is_offered ((name, bridge) ∷ rest) = do
      shut_down_obsolete fuel is_offered name bridge
      remove_obsolete_1_to_2 fuel is_offered rest
