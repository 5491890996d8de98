-- ===== src/DynamicBridge/Services/Outcome.antt =====
-- What the loop over the services of one side does to the bridge of a service.
use ros1_bridge.Prelude.{
  String, ◌≡◌, refl, ◌≢◌, sym, ◌∙◌, ap, Bool, true, false, ◌||◌, Option, none, some, [], ◌∷◌,
  is_some, arith, inl, inr, Option-cases, Bool-cases, string_discrete,
}
use ros1_bridge.Prelude.Exec.{
  Result, ok, throw, runtime_error, out_of_range, undefined, out_of_fuel, other, bind_returned,
  and_then_keeps,
}
use ros1_bridge.StdMap.{StdMap, find, contains, HasUniqueKeys}
use ros1_bridge.StdMap.Laws.{find-insert}
use ros1_bridge.Factory.{ServiceFactory}
use ros1_bridge.DynamicBridge.Services.{
  Details, ServiceDirection, ServiceState, at_key, settle_service, establish_service,
  bridge_service, create_service_bridges,
}

-- The two entries that `update_bridge` reads by `at`.
abbrev pub IsComplete : Details → Type 0
IsComplete details = (contains "package" details ≡ true) × (contains "name" details ≡ true)

module _ {Bridge World : Type 0} (d : ServiceDirection Bridge World)
    (bridged_back : String → Bool) where
  settle_service_elsewhere :
      (name n : String) (st : ServiceState Bridge World) (r : Result Bridge × World)
      → name ≢ n
      → find n (settle_service d bridged_back name st r).1.bridges ≡ find n st.bridges
  unfolding settle_service
  settle_service_elsewhere name n st (ok bridge, world) ne =
      ground (arith, find-insert n name bridge st.bridges)
  settle_service_elsewhere name n st (throw (runtime_error what), world) ne = refl
  settle_service_elsewhere name n st (throw e, world) ne = refl

  establish_service_elsewhere :
      (name n : String) (f : Option ServiceFactory) (st : ServiceState Bridge World)
      → name ≢ n
      → find n (establish_service d bridged_back name f st).1.bridges ≡ find n st.bridges
  unfolding establish_service
  establish_service_elsewhere name n none st ne = refl
  establish_service_elsewhere name n (some f) st ne =
      settle_service_elsewhere name n st (d.create f name st.world) ne

  bridge_service_elsewhere :
      (name n : String) (details : Details) (st : ServiceState Bridge World)
      → name ≢ n
      → find n (bridge_service d bridged_back name details st).1.bridges ≡ find n st.bridges
  unfolding bridge_service
  bridge_service_elsewhere name n details st ne = grind (arith, establish_service_elsewhere)

  bridge_service_back :
      (name : String) (details : Details) (st : ServiceState Bridge World)
      → bridged_back name ≡ true
      → bridge_service d bridged_back name details st ≡ (ok tt, st)
  unfolding bridge_service
  bridge_service_back name details st h = ground arith

  -- A service that has a bridge the other way gets none, however the loop ends.
  pub create_service_bridges_back :
      (services : StdMap Details) (n : String) (st : ServiceState Bridge World)
      → bridged_back n ≡ true
      → find n (create_service_bridges d bridged_back services st).1.bridges ≡ find n st.bridges
  unfolding create_service_bridges
  create_service_bridges_back [] n st h = refl
  create_service_bridges_back ((name, details) ∷ services) n st h =
      and_then_keeps (λ q. find n q.bridges ≡ find n st.bridges)
        (bridge_service d bridged_back name details st) _ first
        (λ _. create_service_bridges_back services n _ h ∙ first)
    where
      first : find n (bridge_service d bridged_back name details st).1.bridges ≡ find n st.bridges
      first = elim (string_discrete name n) [
        | yes here ↦ rw (bridge_service_back name details st (rw here h))
        | no away ↦ bridge_service_elsewhere name n details st away
      ]

  -- How the loop leaves the bridge of a service with the given details.
  pub data ServiceSettled (name : String) (details : Details) (old new : Option Bridge)
      : Type 0 where
    bridged_before :
        (is_some old || bridged_back name) ≡ true → new ≡ old → ServiceSettled name details old new
    no_factory :
        (package_name service_name : String)
        → find "package" details ≡ some package_name
        → find "name" details ≡ some service_name
        → d.factory_for package_name service_name ≡ none
        → new ≡ old
        → ServiceSettled name details old new
    created :
        (package_name service_name : String) (factory : ServiceFactory) (before after : World)
        (bridge : Bridge)
        → old ≡ none
        → bridged_back name ≡ false
        → find "package" details ≡ some package_name
        → find "name" details ≡ some service_name
        → d.factory_for package_name service_name ≡ some factory
        → d.create factory name before ≡ (ok bridge, after)
        → new ≡ some bridge
        → ServiceSettled name details old new
    failed :
        (package_name service_name : String) (factory : ServiceFactory) (before after : World)
        (what : String)
        → old ≡ none
        → bridged_back name ≡ false
        → find "package" details ≡ some package_name
        → find "name" details ≡ some service_name
        → d.factory_for package_name service_name ≡ some factory
        → d.create factory name before ≡ (throw (runtime_error what), after)
        → new ≡ none
        → ServiceSettled name details old new

  establish_service-ServiceSettled :
      (name package_name service_name : String) (details : Details) (st : ServiceState Bridge World)
      (f : Option ServiceFactory)
      → find name st.bridges ≡ none
      → bridged_back name ≡ false
      → find "package" details ≡ some package_name
      → find "name" details ≡ some service_name
      → d.factory_for package_name service_name ≡ f
      → (establish_service d bridged_back name f st).0 ≡ ok tt
      → ServiceSettled name details
          (find name st.bridges)
          (find name (establish_service d bridged_back name f st).1.bridges)
  unfolding establish_service settle_service
  establish_service-ServiceSettled name pn sn details st none absent back p s e =
      λ _. no_factory pn sn p s e refl
  establish_service-ServiceSettled name pn sn details st (some f) absent back p s e =
      go (d.create f name st.world) refl
    where
      go :
          (r : Result Bridge × World)
          → d.create f name st.world ≡ r
          → (settle_service d bridged_back name st r).0 ≡ ok tt
          → ServiceSettled name details
              (find name st.bridges)
              (find name (settle_service d bridged_back name st r).1.bridges)
      go (ok bridge, world) c h =
          created pn sn f st.world world bridge absent back p s e c
            (ground (arith, find-insert name name bridge st.bridges))
      go (throw (runtime_error what), world) c h =
          failed pn sn f st.world world what absent back p s e c absent
      go (throw out_of_range, world) c h = cc
      go (throw undefined, world) c h = cc
      go (throw out_of_fuel, world) c h = cc
      go (throw (other what), world) c h = cc

  -- A round that returns settles its service.
  bridge_service-ServiceSettled :
      (name : String) (details : Details) (st : ServiceState Bridge World)
      → (bridge_service d bridged_back name details st).0 ≡ ok tt
      → ServiceSettled name details
          (find name st.bridges)
          (find name (bridge_service d bridged_back name details st).1.bridges)
  unfolding bridge_service
  bridge_service-ServiceSettled name details st =
      elim (Bool-cases (contains name st.bridges || bridged_back name)) [
        | inl skip ↦ rw (skip, bridge_service) (λ h. bridged_before skip refl)
        | inr go_on ↦ elim (Option-cases (find "package" details)) [
          | inl e ↦ rw (go_on, bridge_service, at_key, e) (λ h. cc)
          | inr (package_name, p) ↦ elim (Option-cases (find "name" details)) [
            | inl e ↦ rw (go_on, bridge_service, at_key, p, e) (λ h. cc)
            | inr (service_name, s) ↦
                rw (go_on, bridge_service, at_key, p, s)
                  (establish_service-ServiceSettled name package_name service_name details st _
                    (ground arith) (ground arith) p s refl)
          ]
        ]
      ]

  create_service_bridges_elsewhere :
      (services : StdMap Details) (n : String) (st : ServiceState Bridge World)
      → find n services ≡ none
      → find n (create_service_bridges d bridged_back services st).1.bridges ≡ find n st.bridges
  unfolding create_service_bridges find
  create_service_bridges_elsewhere [] n st h = refl
  create_service_bridges_elsewhere ((name, details) ∷ services) n st h =
      let first = bridge_service_elsewhere name n details st (ground arith) in
      and_then_keeps (λ q. find n q.bridges ≡ find n st.bridges)
        (bridge_service d bridged_back name details st) _ first
        (λ _. create_service_bridges_elsewhere services n _ (ground arith) ∙ first)

  -- A loop that returns settles every service that it was given.
  pub create_service_bridges-ServiceSettled :
      (services : StdMap Details) (n : String) (details : Details) (st : ServiceState Bridge World)
      → HasUniqueKeys services
      → find n services ≡ some details
      → (create_service_bridges d bridged_back services st).0 ≡ ok tt
      → ServiceSettled n details
          (find n st.bridges)
          (find n (create_service_bridges d bridged_back services st).1.bridges)
  unfolding create_service_bridges find
  create_service_bridges-ServiceSettled [] n details st u found returned = cc
  create_service_bridges-ServiceSettled ((name, details') ∷ services) n details st u found
        returned =
      let (_, first, e) =
        bind_returned (bridge_service d bridged_back name details')
          (λ _. create_service_bridges d bridged_back services) st returned in
      let rest : (create_service_bridges d bridged_back services
            (bridge_service d bridged_back name details' st).1).0
          ≡ ok tt =
        sym (ap (λ x. x.0) e) ∙ returned in
      rw e (elim (string_discrete name n) [
        | yes here ↦
            rw (← here, ← (head_details here), create_service_bridges_elsewhere services name _ u.0)
              (bridge_service-ServiceSettled name details' st first)
        | no away ↦
            rw (← (bridge_service_elsewhere name n details' st away))
              (create_service_bridges-ServiceSettled services n details _ u.1 (ground arith) rest)
      ])
    where
      head_details : name ≡ n → details' ≡ details
      head_details here = ground arith
