-- ===== src/Tests/Refinement.antt =====
-- The theorems on the abstract view of the topic bridges, applied.
use ros1_bridge.Prelude.{◌≡◌, refl, [], ◌∷◌}
use ros1_bridge.Prelude.Exec.{ok}
use ros1_bridge.StdMap.{find}
use ros1_bridge.DynamicBridge.Update.{update_topics}
use ros1_bridge.DynamicBridge.Update.Target.{view, target, update_topics_refines}
use ros1_bridge.DynamicBridge.Update.Runs.{IsServed, update_all, replay, update_all_refines}
use ros1_bridge.Tests.{sim, gen, seen, no_bridges}
use ros1_bridge.Tests.Updates.{
  reliable, complete_add, complete_sum, seen_1to2-Creates, seen_2to1-Creates,
}

refined_once : view (update_topics sim gen seen no_bridges).1 ≡ target gen seen (view no_bridges)
unfolding find
refined_once =
    update_topics_refines sim gen seen no_bridges (refl, tt) (refl, tt) seen_1to2-Creates
      seen_2to1-Creates

served : IsServed sim gen seen
unfolding find
served = record {
  reliable = reliable;
  ros1_publishers = (refl, tt);
  ros2_publishers = (refl, tt);
  ros1_services = (refl, tt);
  ros2_services = (refl, tt);
  ros1_complete = complete_add;
  ros2_complete = complete_sum;
}

update_all_refines_example :
    ((update_all sim gen 1 (seen ∷ seen ∷ []) no_bridges).0 ≡ ok tt)
    × (view (update_all sim gen 1 (seen ∷ seen ∷ []) no_bridges).1
        ≡ replay gen (seen ∷ seen ∷ []) (view no_bridges))
update_all_refines_example =
    update_all_refines sim gen 0 (seen ∷ seen ∷ []) no_bridges (served, (served, tt))
