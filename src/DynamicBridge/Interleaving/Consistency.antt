-- ===== src/DynamicBridge/Interleaving/Consistency.antt =====
-- What holds at every moment of the two polls, however their steps interleave.
use ros1_bridge.Prelude.{ℕ, String, ◌≡◌, refl, Bool, subst}
use ros1_bridge.Prelude.Exec.{ok, Result, Ensures}
use ros1_bridge.StdMap.{StdMap, find, IsAscending}
use ros1_bridge.Ros.{Ros}
use ros1_bridge.Factory.Registry.{Generated}
use ros1_bridge.DynamicBridge.Services.{Details}
use ros1_bridge.DynamicBridge.ServiceInfo.{Network}
use ros1_bridge.DynamicBridge.Polls.{Master, Graph, Dynamic}
use ros1_bridge.DynamicBridge.Polls.Ros1.{update}
use ros1_bridge.DynamicBridge.Polls.WellFormed.{
  IsWellFormed, AreAscending, current_ros1_topics-AreAscending,
}
use ros1_bridge.DynamicBridge.Polls.WellFormed.Changes.{
  world-IsWellFormed, ros1_services-IsWellFormed, ros1_topics-IsWellFormed,
  ros2_services-IsWellFormed, ros2_topics-IsWellFormed,
}
use ros1_bridge.DynamicBridge.Polls.Invariant.{update-IsWellFormed}
use ros1_bridge.DynamicBridge.Polls.Invariant.Ros1.{probe_part-IsAscending}
use ros1_bridge.DynamicBridge.Polls.Invariant.Ros2.{
  poll_ros2_topics-AreAscending, poll_ros2_services-IsAscending,
}
use ros1_bridge.DynamicBridge.Interleaving.{
  Ros1At, Ros2At, Threads, at_world, initial, Ros1Move, Ros2Move, Step, Steps,
}

-- What `ros1_poll` has found is ascending, and from its store on it is what the three maps hold.
abbrev pub Ros1Stored : StdMap Details → StdMap String → StdMap String → Ros1At → Type 0
Ros1Stored services publishers subscribers Ros1At.idle = Unit
Ros1Stored services publishers subscribers (Ros1At.probed state found) = IsAscending found
Ros1Stored services publishers subscribers (Ros1At.services_stored state found) = services ≡ found
Ros1Stored services publishers subscribers (Ros1At.listed found topics) =
    (services ≡ found) × AreAscending topics
Ros1Stored services publishers subscribers (Ros1At.topics_stored found topics) =
    (services ≡ found) × (publishers ≡ topics.publishers) × (subscribers ≡ topics.subscribers)

abbrev pub Ros2Stored : StdMap Details → StdMap String → StdMap String → Ros2At → Type 0
Ros2Stored services publishers subscribers Ros2At.idle = Unit
Ros2Stored services publishers subscribers (Ros2At.collected found topics) =
    IsAscending found.services × AreAscending topics.topics
Ros2Stored services publishers subscribers (Ros2At.services_stored found topics) =
    (services ≡ found.services) × AreAscending topics.topics
Ros2Stored services publishers subscribers (Ros2At.topics_stored found topics) =
    (services ≡ found.services)
    × (publishers ≡ topics.topics.publishers)
    × (subscribers ≡ topics.topics.subscribers)

abbrev pub Ros1Holds : {ros : Ros} → Dynamic ros → Ros1At → Type 0
Ros1Holds d p = Ros1Stored d.seen.ros1_services d.seen.ros1_publishers d.seen.ros1_subscribers p

abbrev pub Ros2Holds : {ros : Ros} → Dynamic ros → Ros2At → Type 0
Ros2Holds d q = Ros2Stored d.seen.ros2_services d.seen.ros2_publishers d.seen.ros2_subscribers q

-- The maps are well formed, and what a poll has stored is still there when its update starts.
pub record IsConsistent {ros : Ros} (s : Threads ros) : Type 0 where
  pub well_formed : IsWellFormed s.dynamic
  pub ros1 : Ros1Holds s.dynamic s.ros1
  pub ros2 : Ros2Holds s.dynamic s.ros2

ensured : {A : Type 0} (P : A → Type 0) {r : Result A} {a : A} → Ensures P r → r ≡ ok a → P a
ensured P h e = subst (Ensures P) e h

module _ {ros : Ros} {gen : Generated} {net : Network ros.World} {master : Master ros.World}
    {graph : Graph ros.World} {fuel : ℕ} where
  ros1_keeps :
      {d e : Dynamic ros} {p p' : Ros1At}
      → Ros1Move ros gen net master graph fuel d p e p'
      → (q : Ros2At) → IsWellFormed d
      → Ros1Holds d p
      → Ros2Holds d q
      → IsWellFormed e × Ros1Holds e p' × Ros2Holds e q
  unfolding update
  ros1_keeps (Ros1Move.has_no_state w got) q h a b = (h, tt, b)
  ros1_keeps (Ros1Move.probes w v state services got probed) q h a b =
      (h, ensured IsAscending (probe_part-IsAscending net state.services v) probed, b)
  ros1_keeps (Ros1Move.stores_services state services) q h a b =
      (ros1_services-IsWellFormed _ h services a, refl, b)
  ros1_keeps (Ros1Move.has_no_topics state services w got) q h a b = (h, tt, b)
  ros1_keeps (Ros1Move.lists state services w topics got) q h a b =
      (h, (a, current_ros1_topics-AreAscending net.node_name state topics), b)
  ros1_keeps (Ros1Move.stores_topics services topics) q h (same, ascending) b =
      (ros1_topics-IsWellFormed _ h topics ascending, (same, refl, refl), b)
  ros1_keeps {d = d} (Ros1Move.updates services topics) q h a b =
      (update-IsWellFormed ros gen fuel d h, tt, b)

  ros2_keeps :
      {d e : Dynamic ros} {q q' : Ros2At}
      → Ros2Move ros gen net master graph fuel d q e q'
      → (p : Ros1At) → IsWellFormed d
      → Ros1Holds d p
      → Ros2Holds d q
      → IsWellFormed e × Ros1Holds e p × Ros2Holds e q'
  unfolding update
  ros2_keeps {d = d} (Ros2Move.collects bridges w services topics t s) p h a b = (
    h,
    a,
    (
      ensured (λ r. IsAscending r.services)
          (poll_ros2_services-IsAscending ros gen graph fuel (at_world w d)) s,
      ensured (λ r. AreAscending r.topics)
          (poll_ros2_topics-AreAscending ros gen graph fuel (record d { bridges = bridges })) t,
    ),
  )
  ros2_keeps (Ros2Move.stores_services services topics) p h a (ascending, more) =
      (ros2_services-IsWellFormed _ h services ascending, a, (refl, more))
  ros2_keeps (Ros2Move.stores_topics services topics) p h a (same, ascending) =
      (ros2_topics-IsWellFormed _ h topics ascending, a, (same, refl, refl))
  ros2_keeps {d = d} (Ros2Move.updates services topics) p h a b =
      (update-IsWellFormed ros gen fuel d h, a, tt)

  Step-IsConsistent :
      {s t : Threads ros} → Step ros gen net master graph fuel s t → IsConsistent s → IsConsistent t
  Step-IsConsistent (Step.world_moves w) h = record {
    well_formed = world-IsWellFormed _ h.well_formed w;
    ros1 = h.ros1;
    ros2 = h.ros2;
  }
  Step-IsConsistent {s = s} (Step.ros1_moves move) h =
      let (w, a, b) = ros1_keeps move s.ros2 h.well_formed h.ros1 h.ros2 in
      record { well_formed = w; ros1 = a; ros2 = b }
  Step-IsConsistent {s = s} (Step.ros2_moves move) h =
      let (w, a, b) = ros2_keeps move s.ros1 h.well_formed h.ros1 h.ros2 in
      record { well_formed = w; ros1 = a; ros2 = b }

  Steps-IsConsistent :
      {s t : Threads ros}
      → Steps ros gen net master graph fuel s t
      → IsConsistent s
      → IsConsistent t
  Steps-IsConsistent Steps.done h = h
  Steps-IsConsistent (Steps.later before step) h =
      Step-IsConsistent step (Steps-IsConsistent before h)

-- In every state that the two polls reach from the start of the program, in any interleaving of
-- their steps with each other and with changes of the middlewares: the stored maps have ascending
-- keys, no service is bridged both ways, and from a poll's own stores on until its update starts,
-- the maps of its side hold what that poll has found.
pub interleaved-IsConsistent :
    (ros : Ros) (gen : Generated) (net : Network ros.World) (master : Master ros.World)
    (graph : Graph ros.World) (fuel : ℕ) (all_1to2 all_2to1 : Bool) (world : ros.World)
    (s : Threads ros)
    → Steps ros gen net master graph fuel
        (record {
          dynamic = initial ros all_1to2 all_2to1 world;
          ros1 = Ros1At.idle;
          ros2 = Ros2At.idle;
        })
        s
    → IsConsistent s
unfolding initial find
interleaved-IsConsistent ros gen net master graph fuel all_1to2 all_2to1 world s steps =
    Steps-IsConsistent steps (record {
      well_formed = record {
        ros1_publishers = tt;
        ros1_subscribers = tt;
        ros2_publishers = tt;
        ros2_subscribers = tt;
        ros1_services = tt;
        ros2_services = tt;
        one_way = λ name h. refl;
      };
      ros1 = tt;
      ros2 = tt;
    })
