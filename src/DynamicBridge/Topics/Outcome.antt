-- ===== src/DynamicBridge/Topics/Outcome.antt =====
-- What one pass does to the bridge of a topic.
use ros1_bridge.Prelude.{
  has, String, ◌≡◌, refl, ◌≢◌, sym, ◌∙◌, Bool, true, false, ◌&&◌, if◌then◌else◌, Option, none, some,
  List, [], ◌∷◌, keep, arith, inl, inr, Option-cases, Bool-cases, string_discrete, ap,
}
use ros1_bridge.Prelude.Exec.{
  Result, ok, throw, runtime_error, out_of_range, undefined, out_of_fuel, other, bind_returned,
  and_then_keeps,
}
use ros1_bridge.StdMap.{StdMap, find, contains, erase, keys, HasUniqueKeys}
use ros1_bridge.StdMap.Laws.{find-insert, find-erase}
use ros1_bridge.DynamicBridge.{removed_bridge, TypeNames, HandlesAndMessageTypes}
use ros1_bridge.DynamicBridge.Topics.{
  Direction, TopicState, wanted_types, settle, establish, drop_previous, bridge_topic,
  create_bridges, obsolete, remove_bridges, remove_obsolete,
}

module _ {Handles World : Type 0} (d : Direction Handles World) where
  -- Whether a bridge, if there is one, has the types that are wanted.
  abbrev pub is_in_place : Option (HandlesAndMessageTypes Handles) → TypeNames → Bool
  is_in_place none types = false
  is_in_place (some bridge) types = d.in_place bridge.types types

  -- How the loop over the publishers leaves the bridge of a topic that has a publisher of type
  -- `type`: as it was, with handles that the call for the wanted types returned, or without one
  -- after that call failed.
  pub data Settled (topic type : String) (old new : Option (HandlesAndMessageTypes Handles))
      : Type 0 where
    unwanted : wanted_types d topic type ≡ none → new ≡ old → Settled topic type old new
    kept :
        (types : TypeNames)
        → wanted_types d topic type ≡ some types
        → is_in_place old types ≡ true
        → new ≡ old
        → Settled topic type old new
    created :
        (types : TypeNames) (before after : World) (handles : Handles)
        → wanted_types d topic type ≡ some types
        → is_in_place old types ≡ false
        → d.create topic types before ≡ (ok handles, after)
        → new ≡ some (record { bridge_handles = handles; types = types })
        → Settled topic type old new
    failed :
        (types : TypeNames) (before after : World) (what : String)
        → wanted_types d topic type ≡ some types
        → is_in_place old types ≡ false
        → d.create topic types before ≡ (throw (runtime_error what), after)
        → new ≡ none
        → Settled topic type old new

  establish_elsewhere :
      (topic t : String) (types : TypeNames) (st : TopicState Handles World)
      → topic ≢ t
      → find t (establish d topic types st).1.bridges ≡ find t st.bridges
  unfolding establish settle
  establish_elsewhere topic t types st ne = go (d.create topic types st.world)
    where
      go :
          (r : Result Handles × World)
          → find t (settle d topic types st r).1.bridges ≡ find t st.bridges
      go (ok handles, world) = ground (
        arith,
        find-insert t topic (record { bridge_handles = handles; types = types }) st.bridges,
      )
      go (throw (runtime_error what), world) = refl
      go (throw e, world) = refl

  drop_previous_elsewhere :
      (topic t : String) (st : TopicState Handles World)
      → topic ≢ t
      → find t (drop_previous d topic st).bridges ≡ find t st.bridges
  unfolding drop_previous
  drop_previous_elsewhere topic t st ne = ground (arith, find-erase t topic st.bridges)

  find-drop_previous :
      (topic : String) (st : TopicState Handles World)
      → find topic (drop_previous d topic st).bridges ≡ none
  unfolding drop_previous
  find-drop_previous topic st = ground (arith, find-erase topic topic st.bridges)

  -- A round leaves the bridges of other topics alone.
  pub bridge_topic_elsewhere :
      (topic type t : String) (st : TopicState Handles World)
      → topic ≢ t
      → find t (bridge_topic d topic type st).1.bridges ≡ find t st.bridges
  unfolding bridge_topic
  bridge_topic_elsewhere topic type t st ne =
      grind (arith, establish_elsewhere, drop_previous_elsewhere)

  establish-Settled :
      (topic type : String) (types : TypeNames) (old : Option (HandlesAndMessageTypes Handles))
      (st : TopicState Handles World)
      → wanted_types d topic type ≡ some types
      → is_in_place old types ≡ false
      → find topic st.bridges ≡ none
      → (establish d topic types st).0 ≡ ok tt
      → Settled topic type old (find topic (establish d topic types st).1.bridges)
  unfolding establish settle
  establish-Settled topic type types old st wants differs absent returned =
      go (d.create topic types st.world) refl returned
    where
      go :
          (r : Result Handles × World)
          → d.create topic types st.world ≡ r
          → (settle d topic types st r).0 ≡ ok tt
          → Settled topic type old (find topic (settle d topic types st r).1.bridges)
      go (ok handles, world) e h = created types st.world world handles wants differs e (
          ground (
            arith,
            find-insert topic topic (record { bridge_handles = handles; types = types }) st.bridges,
          ))
      go (throw (runtime_error what), world) e h =
          failed types st.world world what wants differs e absent
      go (throw out_of_range, world) e h = cc
      go (throw undefined, world) e h = cc
      go (throw out_of_fuel, world) e h = cc
      go (throw (other what), world) e h = cc

  -- A round that returns settles its topic.
  pub bridge_topic-Settled :
      (topic type : String) (st : TopicState Handles World)
      → (bridge_topic d topic type st).0 ≡ ok tt
      → Settled topic type
          (find topic st.bridges)
          (find topic (bridge_topic d topic type st).1.bridges)
  unfolding bridge_topic
  bridge_topic-Settled topic type st = elim (Option-cases (wanted_types d topic type)) [
    | inl e ↦ rw (e, bridge_topic) (λ h. unwanted e refl)
    | inr (types, e) ↦ elim (Option-cases (find topic st.bridges)) [
      | inl absent ↦
          rw (e, bridge_topic, absent) (establish-Settled topic type types none st e refl absent)
      | inr (bridge, present) ↦ elim (Bool-cases (d.in_place bridge.types types)) [
        | inl same ↦ rw (e, bridge_topic, present, same) (λ h. kept types e same present)
        | inr differs ↦
            rw (e, bridge_topic, present, differs)
              (establish-Settled topic type types (some bridge) (drop_previous d topic st) e differs
                (find-drop_previous topic st))
      ]
    ]
  ]

  create_bridges_elsewhere :
      (ps : StdMap String) (t : String) (st : TopicState Handles World)
      → find t ps ≡ none
      → find t (create_bridges d ps st).1.bridges ≡ find t st.bridges
  unfolding create_bridges find
  create_bridges_elsewhere [] t st h = refl
  create_bridges_elsewhere ((topic, type) ∷ ps) t st h =
      and_then_keeps (λ q. find t q.bridges ≡ find t st.bridges) (bridge_topic d topic type st) _
        (bridge_topic_elsewhere topic type t st (ground arith))
        (λ _.
          create_bridges_elsewhere ps t _ (ground arith)
          ∙ bridge_topic_elsewhere topic type t st (ground arith))

  -- The loop settles every topic that has a publisher.
  pub create_bridges-Settled :
      (ps : StdMap String) (t type : String) (st : TopicState Handles World)
      → HasUniqueKeys ps
      → find t ps ≡ some type
      → (create_bridges d ps st).0 ≡ ok tt
      → Settled t type (find t st.bridges) (find t (create_bridges d ps st).1.bridges)
  unfolding create_bridges find
  create_bridges-Settled [] t type st u found returned = cc
  create_bridges-Settled ((topic, type') ∷ ps) t type st u found returned =
      let (_, first, e) =
        bind_returned (bridge_topic d topic type') (λ _. create_bridges d ps) st returned in
      let rest : (create_bridges d ps (bridge_topic d topic type' st).1).0 ≡ ok tt =
        sym (ap (λ x. x.0) e) ∙ returned in
      rw e (elim (string_discrete topic t) [
        | yes here ↦
            rw (← here, ← (head_type here), create_bridges_elsewhere ps topic _ u.0)
              (bridge_topic-Settled topic type' st first)
        | no later ↦
            rw (← (bridge_topic_elsewhere topic type' t st later))
              (create_bridges-Settled ps t type _ u.1 (ground arith) rest)
      ])
    where
      head_type : topic ≡ t → type' ≡ type
      head_type here = ground arith

  remove_bridges_lem :
      (ts : List String) (t : String) (st : TopicState Handles World)
      → find t (remove_bridges d ts st).bridges ≡ (if has t ts then none else find t st.bridges)
  unfolding remove_bridges
  remove_bridges_lem [] t st = refl
  remove_bridges_lem (x ∷ ts) t st = ground (
    arith,
    find-erase t x st.bridges,
    remove_bridges_lem ts t (record {
      bridges = erase x st.bridges;
      world = st.world;
      log = removed_bridge d.way x ∷ st.log;
    }),
  )

  has-keep-keys :
      (t : String) (m : StdMap (HandlesAndMessageTypes Handles))
      → has t (keep (obsolete d) (keys m)) ≡ (contains t m && obsolete d t)
  unfolding find
  has-keep-keys t [] = refl
  has-keep-keys t ((k, v) ∷ m) = ground (arith, has-keep-keys t m)

  -- The removal takes away the obsolete topics, and no others.
  pub remove_obsolete_lem :
      (t : String) (st : TopicState Handles World)
      → find t (remove_obsolete d st).bridges ≡ (if obsolete d t then none else find t st.bridges)
  unfolding remove_obsolete
  remove_obsolete_lem t st = rw (remove_bridges_lem, has-keep-keys) (ground arith)
