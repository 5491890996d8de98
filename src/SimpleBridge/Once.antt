-- ===== src/SimpleBridge/Once.antt =====
-- src/simple_bridge.cpp passes each text on once.
use ros1_bridge.Prelude.{
  String, ◌≡◌, ◌≢◌, refl, sym, ap, ◌∙◌, Bool, true, false, if◌then◌else◌, some, List, [], ◌∷◌, ◌++◌,
  map, All, arith,
}
use mathlib.Core.List.{append_assoc, append-nil}
use ros1_bridge.Prelude.Exec.{Exec, ok, pure, ◌>>◌, bind-eq_of_returned, returned_bind}
use ros1_bridge.StdMap.{find}
use ros1_bridge.SimpleBridge.{
  Chatter, ros1_chatter_callback, ros2_chatter_callback, ignore_local_publications,
}

-- A text on the topic: in ROS 1 with the name of the node that sent it, in ROS 2 with whether the
-- bridge's own node sent it.
pub data Sent : Type 0 where
  on_ros1 : String → String → Sent
  on_ros2 : Bool → String → Sent

module _ (chat : Chatter) (ros1_pub : chat.Ros1Publisher) (ros2_pub : chat.Ros2Publisher)
    (own : String) (sent : chat.World → List Sent) where
  -- What is documented of the publishers, for a node with the name `own` in ROS 1: they return, and
  -- what is sent carries the sender.
  pub record Publishes : Type 0 where
    pub publish1 :
        (text : String) (w : chat.World)
        → ((chat.publish1 ros1_pub text w).0 ≡ ok tt)
          × (sent (chat.publish1 ros1_pub text w).1 ≡ sent w ++ (on_ros1 own text ∷ []))
    pub publish2 :
        (text : String) (w : chat.World)
        → ((chat.publish2 ros2_pub text w).0 ≡ ok tt)
          × (sent (chat.publish2 ros2_pub text w).1 ≡ sent w ++ (on_ros2 true text ∷ []))

  -- The bridge's subscriptions hear a text. The connection header names the sender, and a
  -- subscription that ignores local publications does not hear those of its own node.
  unfoldable pub hear : Sent → Exec chat.World (Unit {0})
  hear (on_ros1 caller text) =
      ros1_chatter_callback chat ros2_pub (some (("callerid", caller) ∷ [])) text
  hear (on_ros2 is_local text) =
      if is_local
      then (if ignore_local_publications chat
          then pure tt
          else ros2_chatter_callback chat ros1_pub text)
      else ros2_chatter_callback chat ros1_pub text

  abbrev pub hear_all : List Sent → Exec chat.World (Unit {0})
  hear_all [] = pure tt
  hear_all (m ∷ ms) = do hear m; hear_all ms

  -- The same text on the other side, sent by the bridge.
  abbrev pub copy_of : Sent → Sent
  copy_of (on_ros1 caller text) = on_ros2 true text
  copy_of (on_ros2 is_local text) = on_ros1 own text

  abbrev pub IsForeign : Sent → Type 0
  IsForeign (on_ros1 caller text) = caller ≢ "/ros_bridge"
  IsForeign (on_ros2 is_local text) = is_local ≡ false

  hear-copy_of :
      (m : Sent) (w : chat.World)
      → Publishes
      → IsForeign m
      → ((hear m w).0 ≡ ok tt) × (sent (hear m w).1 ≡ sent w ++ (copy_of m ∷ []))
  unfolding hear ros1_chatter_callback ros2_chatter_callback find
  hear-copy_of (on_ros1 caller text) w publishes foreign = ground (arith, publishes.publish2 text w)
  hear-copy_of (on_ros2 true text) w publishes foreign = cc
  hear-copy_of (on_ros2 false text) w publishes foreign = publishes.publish1 text w

  hear_again : (m : Sent) (w : chat.World) → own ≡ "/ros_bridge" → hear (copy_of m) w ≡ (ok tt, w)
  unfolding hear ros1_chatter_callback find
  hear_again (on_ros1 caller text) w named = refl
  hear_again (on_ros2 is_local text) w named = ground arith

  hear_all-copy_of :
      (ms : List Sent) (w : chat.World)
      → Publishes
      → All IsForeign ms
      → ((hear_all ms w).0 ≡ ok tt) × (sent (hear_all ms w).1 ≡ sent w ++ map copy_of ms)
  hear_all-copy_of [] w publishes foreign = (refl, sym (append-nil (sent w)))
  hear_all-copy_of (m ∷ ms) w publishes (first, more) =
      let (returned, grown) = hear-copy_of m w publishes first in
      let (later, rest) = hear_all-copy_of ms (hear m w).1 publishes more in
      (
        returned_bind (hear m) (λ _. hear_all ms) w returned later,
        ap (λ r. sent r.1) (bind-eq_of_returned (hear m) (λ _. hear_all ms) w returned)
            ∙ rest
            ∙ ap (λ l. l ++ map copy_of ms) grown
            ∙ append_assoc (sent w) (copy_of m ∷ []) (map copy_of ms),
      )

  hear_all_again :
      (ms : List Sent) (w : chat.World)
      → own ≡ "/ros_bridge"
      → hear_all (map copy_of ms) w ≡ (ok tt, w)
  hear_all_again [] w named = refl
  hear_all_again (m ∷ ms) w named =
      bind-eq_of_returned (hear (copy_of m)) (λ _. hear_all (map copy_of ms)) w
        (ap (λ r. r.0) (hear_again m w named))
      ∙ ap (λ r. hear_all (map copy_of ms) r.1) (hear_again m w named)
      ∙ hear_all_again ms w named

  -- Where publishing returns and names the sender, and the node of the bridge has the name
  -- /ros_bridge in ROS 1: hearing any texts that other nodes sent, and then the copies that this
  -- made, sends each text once to the other side, in order, and nothing more.
  pub hear_once :
      (ms : List Sent) (w : chat.World)
      → Publishes
      → own ≡ "/ros_bridge"
      → All IsForeign ms
      → (((hear_all ms >> hear_all (map copy_of ms)) w).0 ≡ ok tt)
        × (sent ((hear_all ms >> hear_all (map copy_of ms)) w).1 ≡ sent w ++ map copy_of ms)
  hear_once ms w publishes named foreign =
      let (returned, grown) = hear_all-copy_of ms w publishes foreign in
      let again = hear_all_again ms (hear_all ms w).1 named in
      (
        returned_bind (hear_all ms) (λ _. hear_all (map copy_of ms)) w returned
            (ap (λ r. r.0) again),
        ap (λ r. sent r.1)
              (bind-eq_of_returned (hear_all ms) (λ _. hear_all (map copy_of ms)) w returned
                ∙ again)
            ∙ grown,
      )

  -- Where publishing returns and names the sender, and the node of the bridge has another name in
  -- ROS 1: after a text from ROS 2 and the copy of it that was sent in ROS 1, the bridge has also
  -- sent the text back to ROS 2.
  pub hear_renamed :
      (text : String) (w : chat.World)
      → Publishes
      → own ≢ "/ros_bridge"
      → sent ((hear (on_ros2 false text) >> hear (on_ros1 own text)) w).1
        ≡ sent w ++ (on_ros1 own text ∷ on_ros2 true text ∷ [])
  hear_renamed text w publishes renamed =
      let (returned, grown) = hear-copy_of (on_ros2 false text) w publishes refl in
      let there = (hear (on_ros2 false text) w).1 in
      ap (λ r. sent r.1)
        (bind-eq_of_returned (hear (on_ros2 false text)) (λ _. hear (on_ros1 own text)) w returned)
      ∙ (hear-copy_of (on_ros1 own text) there publishes renamed).1
      ∙ ap (λ l. l ++ (on_ros2 true text ∷ [])) grown
      ∙ append_assoc (sent w) (on_ros1 own text ∷ []) (on_ros2 true text ∷ [])
