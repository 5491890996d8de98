-- ===== src/DynamicBridge/Update/Target.antt =====
-- The abstract specification of the topic bridges: which types each topic is bridged with, as a
-- function of what was seen of that topic alone. The handles, the order of the loops and the
-- erased and inserted entries are forgotten.
use ros1_bridge.Prelude.{
  String, ◌≡◌, Bool, true, false, ◌&&◌, ◌==◌, if◌then◌else◌, Option, none, some, arith,
}
use mathlib.Core.Option as Option
use ros1_bridge.StdMap.{StdMap, find, HasUniqueKeys}
use ros1_bridge.Ros.{Ros}
use ros1_bridge.Factory.Registry.{Generated, get_1to2_mapping, get_2to1_mapping}
use ros1_bridge.DynamicBridge.{TypeNames, HandlesAndMessageTypes}
use ros1_bridge.DynamicBridge.Topics.{wanted_types, obsolete}
use ros1_bridge.DynamicBridge.Topics.Outcome.{unwanted, kept, created, failed}
use ros1_bridge.DynamicBridge.Topics.Stability.{Creates}
use ros1_bridge.DynamicBridge.Update.{Seen, Bridges, seen_1to2, seen_2to1, update_topics}
use ros1_bridge.DynamicBridge.Update.Topics.{
  Passed, is_obsolete, is_active, update_topics-Passed, update_topics_twice,
}

-- The types that a topic is bridged with, if it is.
abbrev pub types_of :
    {Handles : Type 0} → String → StdMap (HandlesAndMessageTypes Handles) → Option TypeNames
types_of topic bridges = Option.map (λ bridge. bridge.types) (find topic bridges)

-- The ROS 1 type first, then the ROS 2 type.
abbrev pub names : String → String → TypeNames
names ros1 ros2 = record { ros1_type_name = ros1; ros2_type_name = ros2 }

-- A topic that ROS 1 publishes with type `p` is bridged to the type that ROS 2 subscribes with; with
-- no subscriber and `all` set to the mapped type, or where no type is mapped, left as it was.
abbrev pub target_1to2 :
    Bool
    → (String → Option String)
    → Option String
    → Option String
    → Option TypeNames
    → Option TypeNames
target_1to2 all mapping none subscribed old = none
target_1to2 all mapping (some p) (some s) old = some (names p s)
target_1to2 true mapping (some p) none old = elim (mapping p) [
  | some q ↦ some (names p q)
  | none ↦ old
]
target_1to2 false mapping (some p) none old = none

-- A bridge for an unknown ROS 1 type stays while the ROS 2 type is the same.
abbrev pub unless_untyped : Option TypeNames → TypeNames → Option TypeNames
unless_untyped none new = some new
unless_untyped (some old) new =
    if old.ros1_type_name == "" && old.ros2_type_name == new.ros2_type_name
    then some old
    else some new

abbrev pub target_2to1 :
    Bool
    → (String → Option String)
    → Option String
    → Option String
    → Option TypeNames
    → Option TypeNames
target_2to1 all mapping none subscribed old = none
target_2to1 all mapping (some p) (some s) old = unless_untyped old (names s p)
target_2to1 true mapping (some p) none old = elim (mapping p) [
  | some q ↦ unless_untyped old (names q p)
  | none ↦ old
]
target_2to1 false mapping (some p) none old = none

-- What every topic is bridged with, in the two directions.
pub record View : Type 0 where
  pub one_to_two : String → Option TypeNames
  pub two_to_one : String → Option TypeNames

abbrev pub view : {ros : Ros} → Bridges ros → View
view b = record {
  one_to_two = λ topic. types_of topic b.bridges_1to2;
  two_to_one = λ topic. types_of topic b.bridges_2to1;
}

abbrev pub target : Generated → Seen → View → View
target gen g v = record {
  one_to_two = λ topic.
      target_1to2 g.bridge_all_1to2_topics (get_1to2_mapping gen) (find topic g.ros1_publishers)
        (find topic g.ros2_subscribers) (v.one_to_two topic);
  two_to_one = λ topic.
      target_2to1 g.bridge_all_2to1_topics (get_2to1_mapping gen) (find topic g.ros2_publishers)
        (find topic g.ros1_subscribers) (v.two_to_one topic);
}

module _ (ros : Ros) (gen : Generated) (g : Seen) where
  Passed-target_1to2 :
      Creates (seen_1to2 ros gen g) g.ros1_publishers
      → (topic : String) {old new : Option (HandlesAndMessageTypes _)}
      → Passed (seen_1to2 ros gen g) topic old new
      → Option.map (λ x. x.types) new
        ≡ target_1to2 g.bridge_all_1to2_topics
            (get_1to2_mapping gen)
            (find topic g.ros1_publishers)
            (find topic g.ros2_subscribers)
            (Option.map (λ x. x.types) old)
  unfolding obsolete wanted_types
  Passed-target_1to2 always topic (is_obsolete gone same) = ground arith
  Passed-target_1to2 always topic (is_active type active found (unwanted e same)) = ground arith
  Passed-target_1to2 always topic (is_active type active found (kept types e in_place same)) =
      ground arith
  Passed-target_1to2 always topic
        (is_active type active found (created types before after handles e differs made is)) =
      ground arith
  Passed-target_1to2 always topic
        (is_active type active found (failed types before after what e differs raised is)) =
      ground (arith, (always topic type types found e before).1)

  Passed-target_2to1 :
      Creates (seen_2to1 ros gen g) g.ros2_publishers
      → (topic : String) {old new : Option (HandlesAndMessageTypes _)}
      → Passed (seen_2to1 ros gen g) topic old new
      → Option.map (λ x. x.types) new
        ≡ target_2to1 g.bridge_all_2to1_topics
            (get_2to1_mapping gen)
            (find topic g.ros2_publishers)
            (find topic g.ros1_subscribers)
            (Option.map (λ x. x.types) old)
  unfolding obsolete wanted_types
  Passed-target_2to1 always topic (is_obsolete gone same) = ground arith
  Passed-target_2to1 always topic (is_active type active found (unwanted e same)) = ground arith
  Passed-target_2to1 always topic (is_active type active found (kept types e in_place same)) =
      ground arith
  Passed-target_2to1 always topic
        (is_active type active found (created types before after handles e differs made is)) =
      ground arith
  Passed-target_2to1 always topic
        (is_active type active found (failed types before after what e differs raised is)) =
      ground (arith, (always topic type types found e before).1)

  -- Where the maps of publishers have unique keys and the calls for all wanted bridges return in
  -- every state of the middlewares, the topic part of an update takes the abstract view of the
  -- bridges to its target: each topic's types depend on what was seen of that topic and on the
  -- types that it was bridged with before.
  pub update_topics_refines :
      (b : Bridges ros)
      → HasUniqueKeys g.ros1_publishers
      → HasUniqueKeys g.ros2_publishers
      → Creates (seen_1to2 ros gen g) g.ros1_publishers
      → Creates (seen_2to1 ros gen g) g.ros2_publishers
      → view (update_topics ros gen g b).1 ≡ target gen g (view b)
  update_topics_refines b u1 u2 always1 always2 =
      let returned = (update_topics_twice ros gen g b u1 u2 always1 always2).0 in
      let passed = update_topics-Passed ros gen g b u1 u2 returned in
      λ i. record {
        one_to_two = λ topic. Passed-target_1to2 always1 topic (passed topic).0 i;
        two_to_one = λ topic. Passed-target_2to1 always2 topic (passed topic).1 i;
      }
