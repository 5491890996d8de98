-- ===== src/Tests/Updates.antt =====
-- The theorems on the topic bridges and on whole updates, applied.
use ros1_bridge.Prelude.{Option, ℕ, ◌≡◌, refl, some, string_discrete, arith, subst}
use ros1_bridge.Prelude.Exec.{ok}
use ros1_bridge.StdMap.{find}
use ros1_bridge.DynamicBridge.{TypeNames}
use ros1_bridge.DynamicBridge.Topics.{wanted_types}
use ros1_bridge.DynamicBridge.Topics.Stability.{Creates}
use ros1_bridge.DynamicBridge.Update.{seen_1to2, seen_2to1, update_topics, update_bridge}
use ros1_bridge.DynamicBridge.Update.Topics.{Passed, update_topics-Passed, update_topics_twice}
use ros1_bridge.DynamicBridge.Update.Returns.{IsReliable, AreComplete, update_bridge-returns}
use ros1_bridge.DynamicBridge.Update.Services.{IsOneWay, update_bridge-IsOneWay}
use ros1_bridge.DynamicBridge.Services.Outcome.{IsComplete}
use ros1_bridge.DynamicBridge.Services.Returns.{is_value}
use ros1_bridge.Factory.{
  make_factory, load_type_support, create_ros1_publisher, create_ros2_publisher,
  create_ros1_subscriber, create_ros2_subscriber, service_bridge_1_to_2, service_bridge_2_to_1,
}
use ros1_bridge.Factory.Registry.{select, specialise, get_factory}
use ros1_bridge.Bridge.{
  Bridge1to2Handles, Bridge2to1Handles, create_bridge_from_1_to_2, create_bridge_from_2_to_1,
  create_bridge_from_2_to_1_of_queue_size,
}
use ros1_bridge.DynamicBridge.Directions.{create_1to2, create_2to1}
use ros1_bridge.Tests.{sim, gen, seen, no_bridges, find_in_one, add_details, sum_details}

abbrev chatter_types : TypeNames
chatter_types = record {
  ros1_type_name = "std_msgs/String";
  ros2_type_name = "std_msgs/msg/String";
}

seen_chatter :
    wanted_types (seen_1to2 sim gen seen) "/chatter" "std_msgs/String" ≡ some chatter_types
unfolding wanted_types find string_discrete
seen_chatter = refl

seen_news : wanted_types (seen_2to1 sim gen seen) "/news" "std_msgs/msg/String" ≡ some chatter_types
unfolding wanted_types find string_discrete
seen_news = refl

same_types : {o : Option TypeNames} {a b : TypeNames} → o ≡ some a → o ≡ some b → a ≡ b
same_types p q = ground arith

pub seen_1to2-Creates : Creates (seen_1to2 sim gen seen) seen.ros1_publishers
unfolding create_1to2 create_bridge_from_1_to_2 get_factory select specialise string_discrete
    make_factory load_type_support create_ros2_publisher create_ros1_subscriber
seen_1to2-Creates topic type types found wants =
    find_in_one "/chatter" "std_msgs/String"
      (λ t u.
        (types : TypeNames)
        → wanted_types (seen_1to2 sim gen seen) t u ≡ some types
        → (world : ℕ)
        → (handles : Bridge1to2Handles sim) × ((create_1to2 sim gen t types world).0 ≡ ok handles))
      (λ types wants.
        subst
          (λ x.
            (world : ℕ)
            → (handles : Bridge1to2Handles sim) × ((create_1to2 sim gen "/chatter" x world).0
                ≡ ok handles))
          (same_types seen_chatter wants) (λ world. (_, refl)))
      topic type found types wants

pub seen_2to1-Creates : Creates (seen_2to1 sim gen seen) seen.ros2_publishers
unfolding create_2to1 create_bridge_from_2_to_1_of_queue_size create_bridge_from_2_to_1 get_factory
    select specialise string_discrete make_factory load_type_support create_ros1_publisher
    create_ros2_subscriber
seen_2to1-Creates topic type types found wants =
    find_in_one "/news" "std_msgs/msg/String"
      (λ t u.
        (types : TypeNames)
        → wanted_types (seen_2to1 sim gen seen) t u ≡ some types
        → (world : ℕ)
        → (handles : Bridge2to1Handles sim) × ((create_2to1 sim gen t types world).0 ≡ ok handles))
      (λ types wants.
        subst
          (λ x.
            (world : ℕ)
            → (handles : Bridge2to1Handles sim) × ((create_2to1 sim gen "/news" x world).0
                ≡ ok handles))
          (same_types seen_news wants) (λ world. (_, refl)))
      topic type found types wants

update_topics_returned : (update_topics sim gen seen no_bridges).0 ≡ ok tt
unfolding find
update_topics_returned =
    (update_topics_twice sim gen seen no_bridges (refl, tt) (refl, tt) seen_1to2-Creates
      seen_2to1-Creates).0

update_topics-Passed_example :
    Passed
      (seen_1to2 sim gen seen)
      "/chatter"
      (find "/chatter" no_bridges.bridges_1to2)
      (find "/chatter" (update_topics sim gen seen no_bridges).1.bridges_1to2)
    × Passed
        (seen_2to1 sim gen seen)
        "/chatter"
        (find "/chatter" no_bridges.bridges_2to1)
        (find "/chatter" (update_topics sim gen seen no_bridges).1.bridges_2to1)
unfolding find
update_topics-Passed_example =
    update_topics-Passed sim gen seen no_bridges (refl, tt) (refl, tt) update_topics_returned
      "/chatter"

update_topics_twice_example :
    ((update_topics sim gen seen no_bridges).0 ≡ ok tt)
    × (update_topics sim gen seen (update_topics sim gen seen no_bridges).1
        ≡ (ok tt, (update_topics sim gen seen no_bridges).1))
unfolding find
update_topics_twice_example =
    update_topics_twice sim gen seen no_bridges (refl, tt) (refl, tt) seen_1to2-Creates
      seen_2to1-Creates

update_bridge-IsOneWay_example : IsOneWay (update_bridge sim gen 1 seen no_bridges).1
unfolding find
update_bridge-IsOneWay_example = update_bridge-IsOneWay sim gen 1 seen no_bridges (λ name h. refl)

pub reliable : IsReliable sim gen seen
unfolding service_bridge_1_to_2 service_bridge_2_to_1
reliable = record {
  creates_1to2 = seen_1to2-Creates;
  creates_2to1 = seen_2to1-Creates;
  ros1_services = λ factory name world. is_value _;
  ros2_services = λ timeout factory name world. is_value _;
  reads = λ world. (_, refl);
  shuts_down = λ server world. refl;
}

pub complete_add : AreComplete seen.ros1_services
unfolding find string_discrete
complete_add name details found =
    find_in_one "/add" add_details (λ n d. IsComplete d) (refl, refl) name details found

pub complete_sum : AreComplete seen.ros2_services
unfolding find string_discrete
complete_sum name details found =
    find_in_one "/sum" sum_details (λ n d. IsComplete d) (refl, refl) name details found

update_bridge-returns_example : (update_bridge sim gen 1 seen no_bridges).0 ≡ ok tt
unfolding find
update_bridge-returns_example =
    update_bridge-returns sim gen seen reliable 0 no_bridges (refl, tt) (refl, tt) (refl, tt)
      (refl, tt) complete_add complete_sum
