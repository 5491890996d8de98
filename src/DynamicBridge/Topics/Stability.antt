-- ===== src/DynamicBridge/Topics/Stability.antt =====
-- When a pass over the topics changes nothing.
use ros1_bridge.Prelude.{
  has, String, ◌≡◌, refl, sym, ◌∙◌, Bool, true, false, Option, none, some, List, [], ◌∷◌, keep,
  arith, inl, inr, Option-cases,
}
use ros1_bridge.Prelude.Exec.{ok, returned_bind}
use ros1_bridge.StdMap.{StdMap, find, contains, keys, HasUniqueKeys}
use ros1_bridge.DynamicBridge.{TypeNames, HandlesAndMessageTypes}
use ros1_bridge.DynamicBridge.Topics.{
  Direction, TopicState, wanted_types, settle, establish, drop_previous, bridge_topic,
  create_bridges, obsolete, remove_bridges, remove_obsolete,
}
use ros1_bridge.DynamicBridge.Topics.Outcome.{
  is_in_place, Settled, unwanted, kept, created, failed, create_bridges-Settled,
  remove_obsolete_lem,
}

keep-eq-nil :
    (test : String → Bool) (ts : List String)
    → ((t : String) → has t ts ≡ true → test t ≡ false)
    → keep test ts ≡ []
keep-eq-nil test [] h = refl
keep-eq-nil test (t ∷ ts) h = ground (arith, h t, keep-eq-nil test ts (λ u m. h u (ground arith)))

module _ {Handles World : Type 0} (d : Direction Handles World) where
  abbrev pub Bridged : Type 0
  Bridged = StdMap (HandlesAndMessageTypes Handles)

  -- Whether the loop has nothing to do for a topic with a publisher of type `type`.
  abbrev pub at_rest : Option (HandlesAndMessageTypes Handles) → String → String → Bool
  at_rest bridge topic type = elim (wanted_types d topic type) [
    | none ↦ true
    | some types ↦ is_in_place d bridge types
  ]

  abbrev pub IsRested : Bridged → Type 0
  IsRested bridges =
      (topic type : String)
      → find topic d.publishers ≡ some type
      → at_rest (find topic bridges) topic type ≡ true

  abbrev pub IsClean : Bridged → Type 0
  IsClean bridges = (topic : String) → contains topic bridges ≡ true → obsolete d topic ≡ false

  bridge_topic_rested :
      (topic type : String) (st : TopicState Handles World)
      → at_rest (find topic st.bridges) topic type ≡ true
      → bridge_topic d topic type st ≡ (ok tt, st)
  unfolding bridge_topic
  bridge_topic_rested topic type st h = ground arith

  create_bridges_rested_on :
      (ps : StdMap String) (st : TopicState Handles World)
      → HasUniqueKeys ps
      → ((topic type : String)
          → find topic ps ≡ some type
          → at_rest (find topic st.bridges) topic type ≡ true)
      → create_bridges d ps st ≡ (ok tt, st)
  unfolding create_bridges find
  create_bridges_rested_on [] st u h = refl
  create_bridges_rested_on ((topic, type) ∷ ps) st u h =
      rw (bridge_topic_rested topic type st (h topic type (ground arith)))
        (create_bridges_rested_on ps st u.1 (λ t type' found. h t type' (ground arith)))

  -- With every topic at rest the loop does nothing.
  pub create_bridges_rested :
      (st : TopicState Handles World)
      → HasUniqueKeys d.publishers
      → IsRested st.bridges
      → create_bridges d d.publishers st ≡ (ok tt, st)
  create_bridges_rested st u h = create_bridges_rested_on d.publishers st u h

  has-keys : (t : String) (m : Bridged) → has t (keys m) ≡ contains t m
  unfolding find
  has-keys t [] = refl
  has-keys t ((k, v) ∷ m) = ground (arith, has-keys t m)

  -- With no obsolete bridge the removal does nothing.
  pub remove_obsolete_clean :
      (st : TopicState Handles World) → IsClean st.bridges → remove_obsolete d st ≡ st
  unfolding remove_obsolete remove_bridges
  remove_obsolete_clean st clean = rw (
      keep-eq-nil (obsolete d) (keys st.bridges) (λ t h. clean t (sym (has-keys t st.bridges) ∙ h)))

  -- A wanted bridge is never obsolete, so the removal does not undo the loop.
  wanted_types-not-obsolete :
      (topic type : String) (types : TypeNames)
      → find topic d.publishers ≡ some type
      → wanted_types d topic type ≡ some types
      → obsolete d topic ≡ false
  unfolding wanted_types obsolete
  wanted_types-not-obsolete topic type types published wants = ground arith

  pub remove_obsolete-IsClean :
      (st : TopicState Handles World) → IsClean (remove_obsolete d st).bridges
  remove_obsolete-IsClean st topic h = ground (arith, remove_obsolete_lem d topic st)

  pub remove_obsolete-IsRested :
      (st : TopicState Handles World)
      → IsRested st.bridges
      → IsRested (remove_obsolete d st).bridges
  remove_obsolete-IsRested st rested topic type published =
      elim (Option-cases (wanted_types d topic type)) [
        | inl e ↦ rw (e, at_rest)
        | inr (types, e) ↦ ground (
          arith,
          remove_obsolete_lem d topic st,
          rested topic type published,
          wanted_types-not-obsolete topic type types published e,
        )
      ]

  -- For the topics of `ps`, the call that creates the wanted bridge returns in every state.
  abbrev pub Creates : StdMap String → Type 0
  Creates ps =
      (topic type : String) (types : TypeNames)
      → find topic ps ≡ some type
      → wanted_types d topic type ≡ some types
      → (world : World) → (handles : Handles) × ((d.create topic types world).0 ≡ ok handles)

  abbrev pub AcceptsItself : Type 0
  AcceptsItself = (types : TypeNames) → d.in_place types types ≡ true

  establish-returns :
      (topic : String) (types : TypeNames) (st : TopicState Handles World) {handles : Handles}
      → (d.create topic types st.world).0 ≡ ok handles
      → (establish d topic types st).0 ≡ ok tt
  unfolding establish settle
  establish-returns topic types st h = ground arith

  bridge_topic-returns :
      (topic type : String) (st : TopicState Handles World)
      → ((types : TypeNames)
          → wanted_types d topic type ≡ some types
          → (world : World) → (handles : Handles) × ((d.create topic types world).0 ≡ ok handles))
      → (bridge_topic d topic type st).0 ≡ ok tt
  unfolding bridge_topic
  bridge_topic-returns topic type st always = elim (Option-cases (wanted_types d topic type)) [
    | inl e ↦ rw (e, bridge_topic)
    | inr (types, e) ↦ ground (
      arith,
      establish-returns topic types st (always types e st.world).1,
      establish-returns topic types (drop_previous d topic st) (always types e _).1,
    )
  ]

  pub create_bridges-returns :
      (ps : StdMap String) (st : TopicState Handles World)
      → HasUniqueKeys ps
      → Creates ps
      → (create_bridges d ps st).0 ≡ ok tt
  unfolding create_bridges find
  create_bridges-returns [] st u always = refl
  create_bridges-returns ((topic, type) ∷ ps) st u always =
      returned_bind (bridge_topic d topic type) _ st
        (bridge_topic-returns topic type st (λ types e. always topic type types (ground arith) e))
        (create_bridges-returns ps _ u.1
          (λ t type' types found e. always t type' types (ground arith) e))

  Settled-at_rest :
      AcceptsItself
      → (topic type : String) (old new : Option (HandlesAndMessageTypes Handles))
      → find topic d.publishers ≡ some type
      → Creates d.publishers
      → Settled d topic type old new
      → at_rest new topic type ≡ true
  Settled-at_rest accepts topic type old new p always (unwanted e same) = ground arith
  Settled-at_rest accepts topic type old new p always (kept types e h same) = ground arith
  Settled-at_rest accepts topic type old new p always
        (created types before after handles e h made is) =
      ground (arith, accepts types)
  Settled-at_rest accepts topic type old new p always
        (failed types before after what e h raised is) =
      ground (arith, (always topic type types p e before).1)

  -- The loop brings every topic to rest, where no call fails.
  pub create_bridges-IsRested :
      Creates d.publishers
      → AcceptsItself
      → HasUniqueKeys d.publishers
      → (st : TopicState Handles World) → IsRested (create_bridges d d.publishers st).1.bridges
  create_bridges-IsRested always accepts u st topic type published =
      Settled-at_rest accepts topic type _ _ published always (
        create_bridges-Settled d d.publishers topic type st u published
          (create_bridges-returns d.publishers st u always))
