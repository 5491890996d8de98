-- ===== src/DynamicBridge/Services/Removal.antt =====
-- What the two removal loops do to the service bridges, and when they end.
use ros1_bridge.Prelude.{
  ℕ, zero, suc, String, ◌≡◌, refl, sym, ◌∙◌, ap, Bool, not, ◌&&◌, ◌==◌, if◌then◌else◌, none, [],
  ◌∷◌, arith, inl, inr, Bool-cases,
}
use ros1_bridge.Prelude.Exec.{
  Exec, Result, ok, throw, runtime_error, out_of_fuel, bind_returned, and_then_keeps, returned_bind,
}
use ros1_bridge.StdMap.{StdMap, find, contains, erase}
use ros1_bridge.StdMap.Laws.{find-erase}
use ros1_bridge.DynamicBridge.{two_to_one, removed_service_bridge}
use ros1_bridge.DynamicBridge.Services.{
  ServiceState, remove_obsolete_1_to_2, remove_obsolete_2_to_1, shut_down, after_shutdown,
  shut_down_obsolete,
}

module _ {Bridge World : Type 0} (is_offered : String → Bool) where
  pub remove_obsolete_2_to_1_lem :
      (entries : StdMap Bridge) (n : String) (st : ServiceState Bridge World)
      → find n (remove_obsolete_2_to_1 is_offered entries st).bridges
        ≡ (if contains n entries && not (is_offered n) then none else find n st.bridges)
  unfolding remove_obsolete_2_to_1 find
  remove_obsolete_2_to_1_lem [] n st = refl
  remove_obsolete_2_to_1_lem ((name, bridge) ∷ rest) n st = ground (
    arith,
    remove_obsolete_2_to_1_lem rest n st,
    remove_obsolete_2_to_1_lem rest n (record {
      bridges = erase name st.bridges;
      world = st.world;
      log = removed_service_bridge two_to_one name ∷ st.log;
    }),
    find-erase n name st.bridges,
  )

module _ {Bridge World : Type 0} (shutdown : Bridge → Exec World (Unit {0})) where
  -- A round that shuts the server down takes the entry away; all others leave the map alone.
  abbrev pub Erased :
      String → StdMap Bridge → Result (Unit {0}) × ServiceState Bridge World → Type 0
  Erased name before (ok _, st) = st.bridges ≡ erase name before
  Erased name before (throw e, st) = st.bridges ≡ before

  after_shutdown-Erased :
      (again : ServiceState Bridge World → Result (Unit {0}) × ServiceState Bridge World)
      (name : String) (st : ServiceState Bridge World) (r : Result (Unit {0}) × World)
      → ((t : ServiceState Bridge World) → Erased name t.bridges (again t))
      → Erased name st.bridges (after_shutdown shutdown again name st r)
  unfolding after_shutdown
  after_shutdown-Erased again name st (ok _, world) h = refl
  after_shutdown-Erased again name st (throw (runtime_error what), world) h = h _
  after_shutdown-Erased again name st (throw e, world) h = refl

  shut_down-Erased :
      (fuel : ℕ) (name : String) (bridge : Bridge) (st : ServiceState Bridge World)
      → Erased name st.bridges (shut_down shutdown fuel name bridge st)
  unfolding shut_down
  shut_down-Erased zero name bridge st = refl
  shut_down-Erased (suc fuel) name bridge st =
      after_shutdown-Erased (shut_down shutdown fuel name bridge) name _ (shutdown bridge st.world)
        (shut_down-Erased fuel name bridge)

  find-shut_down :
      (fuel : ℕ) (name n : String) (bridge : Bridge) (st : ServiceState Bridge World)
      → (shut_down shutdown fuel name bridge st).0 ≡ ok tt
      → find n (shut_down shutdown fuel name bridge st).1.bridges
        ≡ (if name == n then none else find n st.bridges)
  find-shut_down fuel name n bridge st =
      go (shut_down shutdown fuel name bridge st) (shut_down-Erased fuel name bridge st)
    where
      go :
          (x : Result (Unit {0}) × ServiceState Bridge World)
          → Erased name st.bridges x
          → x.0 ≡ ok tt
          → find n x.1.bridges ≡ (if name == n then none else find n st.bridges)
      go (ok _, t) e h = ground (arith, find-erase n name st.bridges)
      go (throw ex, t) e h = cc

  find-shut_down_obsolete :
      (fuel : ℕ) (is_offered : String → Bool) (name n : String) (bridge : Bridge)
      (st : ServiceState Bridge World)
      → (shut_down_obsolete shutdown fuel is_offered name bridge st).0 ≡ ok tt
      → find n (shut_down_obsolete shutdown fuel is_offered name bridge st).1.bridges
        ≡ (if name == n && not (is_offered n) then none else find n st.bridges)
  unfolding shut_down_obsolete
  find-shut_down_obsolete fuel is_offered name n bridge st = elim (Bool-cases (is_offered name)) [
    | inl offered ↦ rw (offered, shut_down_obsolete) (λ h. ground arith)
    | inr obsolete ↦
        rw (obsolete, shut_down_obsolete)
          (λ h. ground (arith, find-shut_down fuel name n bridge st h))
  ]

  -- The loop over the ROS 2 services, if it ends, takes the obsolete entries away and no others.
  pub remove_obsolete_1_to_2_lem :
      (fuel : ℕ) (is_offered : String → Bool) (entries : StdMap Bridge) (n : String)
      (st : ServiceState Bridge World)
      → (remove_obsolete_1_to_2 shutdown fuel is_offered entries st).0 ≡ ok tt
      → find n (remove_obsolete_1_to_2 shutdown fuel is_offered entries st).1.bridges
        ≡ (if contains n entries && not (is_offered n) then none else find n st.bridges)
  unfolding remove_obsolete_1_to_2 find
  remove_obsolete_1_to_2_lem fuel is_offered [] n st h = refl
  remove_obsolete_1_to_2_lem fuel is_offered ((name, bridge) ∷ rest) n st h =
      let (_, first, e) =
        bind_returned (shut_down_obsolete shutdown fuel is_offered name bridge)
          (λ _. remove_obsolete_1_to_2 shutdown fuel is_offered rest) st h in
      rw (e, remove_obsolete_1_to_2_lem fuel is_offered rest n _ (sym (ap (λ x. x.0) e) ∙ h))
        (ground (arith, find-shut_down_obsolete fuel is_offered name n bridge st first))

  -- Shutting a server down, however it ends, and the whole loop, add no bridge.
  shut_down_obsolete_shrinks :
      (fuel : ℕ) (is_offered : String → Bool) (name n : String) (bridge : Bridge)
      (st : ServiceState Bridge World)
      → find n st.bridges ≡ none
      → find n (shut_down_obsolete shutdown fuel is_offered name bridge st).1.bridges ≡ none
  unfolding shut_down_obsolete
  shut_down_obsolete_shrinks fuel is_offered name n bridge st absent =
      elim (Bool-cases (is_offered name)) [
        | inl offered ↦ rw (offered, shut_down_obsolete) absent
        | inr obsolete ↦
            rw (obsolete, shut_down_obsolete)
              (go (shut_down shutdown fuel name bridge st) (shut_down-Erased fuel name bridge st))
      ]
    where
      go :
          (x : Result (Unit {0}) × ServiceState Bridge World)
          → Erased name st.bridges x
          → find n x.1.bridges ≡ none
      go (ok _, t) e = ground (arith, find-erase n name st.bridges)
      go (throw ex, t) e = ground arith

  pub remove_obsolete_1_to_2_shrinks :
      (fuel : ℕ) (is_offered : String → Bool) (entries : StdMap Bridge) (n : String)
      (st : ServiceState Bridge World)
      → find n st.bridges ≡ none
      → find n (remove_obsolete_1_to_2 shutdown fuel is_offered entries st).1.bridges ≡ none
  unfolding remove_obsolete_1_to_2
  remove_obsolete_1_to_2_shrinks fuel is_offered [] n st absent = absent
  remove_obsolete_1_to_2_shrinks fuel is_offered ((name, bridge) ∷ rest) n st absent =
      let first = shut_down_obsolete_shrinks fuel is_offered name n bridge st absent in
      and_then_keeps (λ q. find n q.bridges ≡ none)
        (shut_down_obsolete shutdown fuel is_offered name bridge st) _ first
        (λ _. remove_obsolete_1_to_2_shrinks fuel is_offered rest n _ first)

  shut_down_obsolete-returns :
      (fuel : ℕ) (is_offered : String → Bool) (name : String) (bridge : Bridge)
      (st : ServiceState Bridge World)
      → ((world : World) → (shutdown bridge world).0 ≡ ok tt)
      → (shut_down_obsolete shutdown (suc fuel) is_offered name bridge st).0 ≡ ok tt
  unfolding shut_down_obsolete shut_down after_shutdown
  shut_down_obsolete-returns fuel is_offered name bridge st h = ground (arith, h st.world)

  -- Where shutting down succeeds, one round at each entry is enough.
  pub remove_obsolete_1_to_2-returns :
      (fuel : ℕ) (is_offered : String → Bool) (entries : StdMap Bridge)
      (st : ServiceState Bridge World)
      → ((bridge : Bridge) (world : World) → (shutdown bridge world).0 ≡ ok tt)
      → (remove_obsolete_1_to_2 shutdown (suc fuel) is_offered entries st).0 ≡ ok tt
  unfolding remove_obsolete_1_to_2
  remove_obsolete_1_to_2-returns fuel is_offered [] st h = refl
  remove_obsolete_1_to_2-returns fuel is_offered ((name, bridge) ∷ rest) st h =
      returned_bind (shut_down_obsolete shutdown (suc fuel) is_offered name bridge) _ st
        (shut_down_obsolete-returns fuel is_offered name bridge st (h bridge))
        (remove_obsolete_1_to_2-returns fuel is_offered rest _ h)

  -- Where shutting the server down throws a `runtime_error` in every state, the rounds at its entry
  -- end out of fuel, whatever fuel they are given.
  pub shut_down_forever :
      (fuel : ℕ) (name : String) (bridge : Bridge) (st : ServiceState Bridge World)
      → ((world : World)
          → (what : String) × (after : World) × (shutdown bridge world
              ≡ (throw (runtime_error what), after)))
      → (shut_down shutdown fuel name bridge st).0 ≡ throw out_of_fuel
  unfolding shut_down after_shutdown
  shut_down_forever zero name bridge st h = refl
  shut_down_forever (suc fuel) name bridge st h =
      let (what, after, e) = h st.world in
      rw (e, after_shutdown) (shut_down_forever fuel name bridge _ h)
