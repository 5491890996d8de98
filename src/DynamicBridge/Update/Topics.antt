-- ===== src/DynamicBridge/Update/Topics.antt =====
-- What `update_bridge` does to the topic bridges.
use ros1_bridge.Prelude.{
  String, ◌≡◌, refl, sym, ◌∙◌, ap, true, false, Option, none, some, arith, subst, Option-cases,
  Bool-cases, inl, inr,
}
use ros1_bridge.Prelude.Exec.{ok, bind_returned, bind-eq_of_returned}
use ros1_bridge.StdMap.{find, HasUniqueKeys}
use ros1_bridge.Ros.{Ros}
use ros1_bridge.Factory.Registry.{Generated}
use ros1_bridge.DynamicBridge.{HandlesAndMessageTypes}
use ros1_bridge.DynamicBridge.Topics.{
  Direction, TopicState, create_bridges, obsolete, remove_obsolete,
}
use ros1_bridge.DynamicBridge.Topics.Outcome.{Settled, create_bridges-Settled, remove_obsolete_lem}
use ros1_bridge.DynamicBridge.Topics.Stability.{
  IsRested, IsClean, Creates, AcceptsItself, create_bridges_rested, remove_obsolete_clean,
  create_bridges-IsRested, create_bridges-returns, remove_obsolete-IsRested,
  remove_obsolete-IsClean,
}
use ros1_bridge.DynamicBridge.Update.{
  Seen, Bridges, seen_1to2, seen_2to1, update_topics, on_topics_1to2, on_topics_2to1, change,
  topics_1to2, topics_2to1,
}

module _ {Handles World : Type 0} (d : Direction Handles World) where
  -- How a pass leaves the bridge of a topic.
  pub data Passed (topic : String) (old new : Option (HandlesAndMessageTypes Handles))
      : Type 0 where
    is_obsolete : obsolete d topic ≡ true → new ≡ none → Passed topic old new
    is_active :
        (type : String)
        → obsolete d topic ≡ false
        → find topic d.publishers ≡ some type
        → Settled d topic type old new
        → Passed topic old new

  obsolete-published :
      (topic : String)
      → obsolete d topic ≡ false
      → (type : String) × (find topic d.publishers ≡ some type)
  unfolding obsolete
  obsolete-published topic h = elim (Option-cases (find topic d.publishers)) [
    | inl e ↦ ground arith
    | inr found ↦ found
  ]

  pass-Passed :
      (st after : TopicState Handles World)
      → HasUniqueKeys d.publishers
      → (create_bridges d d.publishers st).0 ≡ ok tt
      → after.bridges ≡ (create_bridges d d.publishers st).1.bridges
      → (topic : String)
      → Passed topic (find topic st.bridges) (find topic (remove_obsolete d after).bridges)
  pass-Passed st after u returned same topic = elim (Bool-cases (obsolete d topic)) [
    | inl gone ↦ is_obsolete gone (ground (arith, remove_obsolete_lem d topic after))
    | inr active ↦
        let (type, published) = obsolete-published topic active in
        is_active type active published (
          subst (Settled d topic type (find topic st.bridges))
            (ground (arith, remove_obsolete_lem d topic after))
            (create_bridges-Settled d d.publishers topic type st u published returned))
  ]

module _ (ros : Ros) (gen : Generated) (g : Seen) where
  -- Where the topic part of an update returns and the maps of publishers have unique keys, each topic
  -- is either obsolete for a direction and has no bridge there afterwards, or is active and has what
  -- `Settled` says: its old bridge where none is wanted or the old one is in place, a bridge with the
  -- wanted types and the handles that the call for them returned, or none after that call threw a
  -- `runtime_error`.
  pub update_topics-Passed :
      (b : Bridges ros)
      → HasUniqueKeys g.ros1_publishers
      → HasUniqueKeys g.ros2_publishers
      → (update_topics ros gen g b).0 ≡ ok tt
      → (topic : String)
      → Passed
          (seen_1to2 ros gen g)
          topic
          (find topic b.bridges_1to2)
          (find topic (update_topics ros gen g b).1.bridges_1to2)
        × Passed
            (seen_2to1 ros gen g)
            topic
            (find topic b.bridges_2to1)
            (find topic (update_topics ros gen g b).1.bridges_2to1)
  unfolding update_topics
  update_topics-Passed b u1 u2 returned topic =
      let d1 = seen_1to2 ros gen g in
      let d2 = seen_2to1 ros gen g in
      let b1 = (on_topics_1to2 (create_bridges d1 g.ros1_publishers) b).1 in
      let b2 = (on_topics_2to1 (create_bridges d2 g.ros2_publishers) b1).1 in
      let (_, first, e1) =
        bind_returned (on_topics_1to2 (create_bridges d1 g.ros1_publishers)) _ b returned in
      let (_, second, e2) =
        bind_returned (on_topics_2to1 (create_bridges d2 g.ros2_publishers)) _ b1
          (sym (ap (λ x. x.0) e1) ∙ returned) in
      rw (e1 ∙ e2) (
        pass-Passed d1 (topics_1to2 b) (topics_1to2 b2) u1 first refl topic,
        pass-Passed d2 (topics_2to1 b1)
            (topics_2to1 (on_topics_1to2 (change (remove_obsolete d1)) b2).1) u2 second refl topic,
      )

  at_rest_topics :
      (b : Bridges ros)
      → HasUniqueKeys g.ros1_publishers
      → HasUniqueKeys g.ros2_publishers
      → IsRested (seen_1to2 ros gen g) b.bridges_1to2
      → IsClean (seen_1to2 ros gen g) b.bridges_1to2
      → IsRested (seen_2to1 ros gen g) b.bridges_2to1
      → IsClean (seen_2to1 ros gen g) b.bridges_2to1
      → update_topics ros gen g b ≡ (ok tt, b)
  unfolding update_topics
  at_rest_topics b u1 u2 r1 c1 r2 c2 = rw (
    create_bridges_rested (seen_1to2 ros gen g) (topics_1to2 b) u1 r1,
    create_bridges_rested (seen_2to1 ros gen g) (topics_2to1 b) u2 r2,
    remove_obsolete_clean (seen_1to2 ros gen g) (topics_1to2 b) c1,
    remove_obsolete_clean (seen_2to1 ros gen g) (topics_2to1 b) c2,
  )

  in_place_1to2_refl : AcceptsItself (seen_1to2 ros gen g)
  in_place_1to2_refl types = ground arith

  in_place_2to1_refl : AcceptsItself (seen_2to1 ros gen g)
  in_place_2to1_refl types = ground arith

  -- The state after the two loops over the publishers, and the state after the two removals.
  abbrev created_topics : Bridges ros → Bridges ros
  created_topics b =
      (on_topics_2to1 (create_bridges (seen_2to1 ros gen g) g.ros2_publishers)
        (on_topics_1to2 (create_bridges (seen_1to2 ros gen g) g.ros1_publishers) b).1).1

  abbrev updated_topics : Bridges ros → Bridges ros
  updated_topics b =
      (on_topics_2to1 (change (remove_obsolete (seen_2to1 ros gen g)))
        (on_topics_1to2 (change (remove_obsolete (seen_1to2 ros gen g))) (created_topics b)).1).1

  update_topics_lem :
      (b : Bridges ros)
      → HasUniqueKeys g.ros1_publishers
      → HasUniqueKeys g.ros2_publishers
      → Creates (seen_1to2 ros gen g) g.ros1_publishers
      → Creates (seen_2to1 ros gen g) g.ros2_publishers
      → update_topics ros gen g b ≡ (ok tt, updated_topics b)
  unfolding update_topics
  update_topics_lem b u1 u2 always1 always2 =
      bind-eq_of_returned (on_topics_1to2 (create_bridges (seen_1to2 ros gen g) g.ros1_publishers))
        _ b (create_bridges-returns (seen_1to2 ros gen g) g.ros1_publishers _ u1 always1)
      ∙ bind-eq_of_returned
          (on_topics_2to1 (create_bridges (seen_2to1 ros gen g) g.ros2_publishers)) _ _
          (create_bridges-returns (seen_2to1 ros gen g) g.ros2_publishers _ u2 always2)

  -- Where the maps of publishers have unique keys and the calls for all wanted bridges return in every
  -- state of the middlewares, the topic part of an update returns, and running it again on its result
  -- returns with no change of any part of the state.
  pub update_topics_twice :
      (b : Bridges ros)
      → HasUniqueKeys g.ros1_publishers
      → HasUniqueKeys g.ros2_publishers
      → Creates (seen_1to2 ros gen g) g.ros1_publishers
      → Creates (seen_2to1 ros gen g) g.ros2_publishers
      → let after = update_topics ros gen g b in
        (after.0 ≡ ok tt) × (update_topics ros gen g after.1 ≡ (ok tt, after.1))
  update_topics_twice b u1 u2 always1 always2 =
      let d1 = seen_1to2 ros gen g in
      let d2 = seen_2to1 ros gen g in
      rw (update_topics_lem b u1 u2 always1 always2) (
        refl,
        at_rest_topics (updated_topics b) u1 u2
            (remove_obsolete-IsRested d1 (topics_1to2 (created_topics b))
              (create_bridges-IsRested d1 always1 in_place_1to2_refl u1 (topics_1to2 b)))
            (remove_obsolete-IsClean d1 (topics_1to2 (created_topics b)))
            (remove_obsolete-IsRested d2 _
              (create_bridges-IsRested d2 always2 in_place_2to1_refl u2 _))
            (remove_obsolete-IsClean d2 _),
      )
