-- ===== src/DynamicBridge/Services/Returns.antt =====
-- When the loop over the services of one side returns.
use ros1_bridge.Prelude.{
  String, ◌≡◌, refl, Bool, Option, none, some, [], ◌∷◌, arith, inl, inr, Option-cases,
}
use ros1_bridge.Prelude.Exec.{
  Result, ok, throw, runtime_error, out_of_range, undefined, out_of_fuel, other, returned_bind,
}
use ros1_bridge.StdMap.{StdMap, find, HasUniqueKeys}
use ros1_bridge.Factory.{ServiceFactory}
use ros1_bridge.DynamicBridge.Services.{
  Details, ServiceDirection, ServiceState, settle_service, establish_service, bridge_service,
  create_service_bridges,
}
use ros1_bridge.DynamicBridge.Services.Outcome.{IsComplete}

-- The outcomes that the callers catch or expect: a value, or a `runtime_error`.
pub data IsCaught {A : Type 0} : Result A → Type 0 where
  is_value : (a : A) → IsCaught (ok a)
  is_runtime_error : (what : String) → IsCaught (throw (runtime_error what))

-- Whatever the calls of a factory do, they throw nothing but a `runtime_error`.
abbrev pub IsTame : {Bridge World : Type 0} → ServiceDirection Bridge World → Type 0
IsTame {World} d =
    (factory : ServiceFactory) (name : String) (world : World)
    → IsCaught (d.create factory name world).0

module _ {Bridge World : Type 0} (d : ServiceDirection Bridge World)
    (bridged_back : String → Bool) where
  settle_service-returns :
      (name : String) (st : ServiceState Bridge World) (r : Result Bridge) (world : World)
      → IsCaught r
      → (settle_service d bridged_back name st (r, world)).0 ≡ ok tt
  unfolding settle_service
  settle_service-returns name st (ok bridge) world (is_value b) = refl
  settle_service-returns name st (throw (runtime_error what)) world (is_runtime_error w) = refl
  settle_service-returns name st (throw out_of_range) world h = elim h [ ]
  settle_service-returns name st (throw undefined) world h = elim h [ ]
  settle_service-returns name st (throw out_of_fuel) world h = elim h [ ]
  settle_service-returns name st (throw (other what)) world h = elim h [ ]

  establish_service-returns :
      IsTame d
      → (name : String) (factory : Option ServiceFactory) (st : ServiceState Bridge World)
      → (establish_service d bridged_back name factory st).0 ≡ ok tt
  unfolding establish_service
  establish_service-returns tame name none st = refl
  establish_service-returns tame name (some factory) st =
      settle_service-returns name st _ _ (tame factory name st.world)

  bridge_service-returns :
      IsTame d
      → (name : String) (details : Details) (st : ServiceState Bridge World) → IsComplete details
      → (bridge_service d bridged_back name details st).0 ≡ ok tt
  unfolding bridge_service
  bridge_service-returns tame name details st (p, n) =
      let returns = establish_service-returns tame name in
      elim (Option-cases (find "package" details)) [
        | inl e ↦ ground arith
        | inr (package_name, e) ↦ elim (Option-cases (find "name" details)) [
          | inl f ↦ ground arith
          | inr (service_name, f) ↦
              ground (arith, returns (d.factory_for package_name service_name) st)
        ]
      ]

  -- Where the details of every service are complete, the loop returns.
  pub create_service_bridges-returns :
      IsTame d
      → (services : StdMap Details) (st : ServiceState Bridge World) → HasUniqueKeys services
      → ((name : String) (details : Details)
          → find name services ≡ some details
          → IsComplete details)
      → (create_service_bridges d bridged_back services st).0 ≡ ok tt
  unfolding create_service_bridges find
  create_service_bridges-returns tame [] st u complete = refl
  create_service_bridges-returns tame ((name, details) ∷ rest) st u complete =
      returned_bind (bridge_service d bridged_back name details) _ st
        (bridge_service-returns tame name details st (complete name details (ground arith)))
        (create_service_bridges-returns tame rest _ u.1
          (λ n details' found. complete n details' (ground arith)))
