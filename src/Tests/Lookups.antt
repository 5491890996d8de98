-- ===== src/Tests/Lookups.antt =====
-- The theorems on lookups, bridges and type names, applied.
use ros1_bridge.Prelude.{◌<>◌, ◌≡◌, ◌⊎◌, All, refl, some, string_discrete}
use ros1_bridge.Prelude.Exec.{ok, throw, runtime_error}
use ros1_bridge.Text.{find_slash, substr_to, substr_from, find_slash-split}
use ros1_bridge.Factory.{
  Specialisation, make_factory, load_type_support, create_ros1_publisher, create_ros2_publisher,
  create_ros1_subscriber, create_ros2_subscriber,
}
use ros1_bridge.Factory.Registry.{select, specialise, get_factory, no_specialisation}
use ros1_bridge.Factory.Registry.Selection.{IsFirstFit, Fits, known_mappings, get_factory-Looked}
use ros1_bridge.Bridge.{
  BridgeHandles, create_bridge_from_1_to_2, create_bridge_from_2_to_1_of_queue_size,
  create_bridge_from_2_to_1, create_bidirectional_bridge,
}
use ros1_bridge.Bridge.Wiring.{
  IsWired1to2, IsWired2to1, CameFrom, create_bidirectional_bridge-IsWired,
}
use ros1_bridge.Prelude.{ℕ, String, suc, none, true, if◌then◌else◌}
use ros1_bridge.Prelude.Exec.{pure}
use ros1_bridge.Prelude.Int.{nat_eq}
use ros1_bridge.Ros.{Ros2Callback}
use ros1_bridge.Factory.Callbacks.{Relay, ros2_callback}
use ros1_bridge.Factory.Callbacks.Echo.{ros2_callback_lem, create_bidirectional_bridge_no_echo}
use native.Mathlib.Decide.{ℕ_discrete}
use ros1_bridge.Tests.{sim, gen}

get_factory-Looked_example :
    ((s : Specialisation) × IsFirstFit "" "std_msgs/msg/String" (known_mappings gen) s
      × (get_factory sim gen "" "std_msgs/msg/String" 0 ≡ make_factory sim s 0))
    ⊎ (All (λ m. ¬ Fits "" "std_msgs/msg/String" m) (known_mappings gen)
        × (get_factory sim gen "" "std_msgs/msg/String" 0
            ≡ (throw (runtime_error no_specialisation), 0)))
get_factory-Looked_example = get_factory-Looked sim gen "" "std_msgs/msg/String" 0

-- The handles in the order in which they are given out.
abbrev handles : BridgeHandles sim
handles = record {
  bridge1to2 = record { ros1_subscriber = 1; ros2_publisher = 0 };
  bridge2to1 = record { ros2_subscriber = 3; ros1_publisher = 2 };
}

handles_returned :
    (create_bidirectional_bridge sim gen "std_msgs/String" "std_msgs/msg/String" "/chatter" 10 5
      0).0
    ≡ ok handles
unfolding create_bidirectional_bridge create_bridge_from_2_to_1_of_queue_size
    create_bridge_from_2_to_1 create_bridge_from_1_to_2 get_factory select specialise
    string_discrete make_factory load_type_support create_ros1_publisher create_ros2_subscriber
    create_ros2_publisher create_ros1_subscriber
handles_returned = refl

create_bidirectional_bridge-IsWired_example :
    IsWired1to2 sim gen "std_msgs/String" "std_msgs/msg/String" "/chatter" "/chatter" 10 5
      handles.bridge1to2
    × IsWired2to1 sim gen "std_msgs/String" "std_msgs/msg/String" "/chatter" "/chatter" 10 10
        (some 0)
        handles.bridge2to1
create_bidirectional_bridge-IsWired_example =
    create_bidirectional_bridge-IsWired sim gen "std_msgs/String" "std_msgs/msg/String" "/chatter"
      10 5 0 handles handles_returned

split_of_a_type :
    substr_to 8 "std_msgs/String" <> ("/" <> substr_from 9 "std_msgs/String") ≡ "std_msgs/String"
unfolding find_slash ℕ_discrete
split_of_a_type = find_slash-split "std_msgs/String" 8 refl

-- Publishers whose GID is their number, and messages that are passed on as they are.
abbrev relay : Relay sim
relay = record {
  Message1 = String;
  Message2 = String;
  Gid = ℕ;
  is_typed = λ publisher. true;
  get_topic_name = λ publisher. "/chatter";
  get_gid = λ publisher. publisher;
  compare_gids_equal = λ g h. pure (some (nat_eq g h));
  take_error_string = pure "";
  is_valid = λ publisher. true;
  convert_1_to_2 = λ message. pure message;
  convert_2_to_1 = λ message. pure message;
  publish1 = λ publisher message w. (ok tt, suc w);
  publish2 = λ publisher message w. (ok tt, suc w);
}

create_bidirectional_bridge_no_echo_example :
    (bound : Ros2Callback ℕ ℕ) × (type2 : String) × CameFrom sim gen
      (sim.create_subscription type2 "/chatter" 10 bound)
      3
    × (ros2_callback relay bound "hello" 0 9 ≡ (ok tt, 9))
create_bidirectional_bridge_no_echo_example =
    create_bidirectional_bridge_no_echo sim gen relay nat_eq "std_msgs/String" "std_msgs/msg/String"
      "/chatter" 10 5 0 handles "hello" 0 9 (λ g h w. refl) handles_returned refl

abbrev heard : Ros2Callback ℕ ℕ
heard = record {
  ros1_pub = 2;
  ros1_type_name = "std_msgs/String";
  ros2_type_name = "std_msgs/msg/String";
  ros2_pub = some 0;
  ignore_local_publications = true;
}

ros2_callback_lem_test : ros2_callback relay heard "hello" 4 9 ≡ (
    if nat_eq 4 0
    then (ok tt, 9)
    else ros2_callback relay (record heard { ros2_pub = none }) "hello" 4 9)
ros2_callback_lem_test = ros2_callback_lem relay nat_eq heard 0 "hello" 4 9 (λ g h w. refl) refl
