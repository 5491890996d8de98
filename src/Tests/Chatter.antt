-- ===== src/Tests/Chatter.antt =====
-- The theorems on src/simple_bridge.cpp, applied to middlewares whose state is what was sent.
use ros1_bridge.Prelude.{
  String, ◌≡◌, ◌≢◌, ◌==◌, refl, true, false, List, [], ◌∷◌, ◌++◌, string_discrete, arith,
}
use ros1_bridge.Prelude.Exec.{ok, pure, ◌>>◌}
use ros1_bridge.SimpleBridge.{Chatter}
use ros1_bridge.SimpleBridge.Once.{
  Sent, on_ros1, on_ros2, Publishes, hear, hear_all, hear_once, hear_renamed,
}

abbrev chat : String → Chatter
chat own = record {
  World = List Sent;
  Ros1Publisher = Unit;
  Ros1Subscriber = Unit;
  Ros2Publisher = Unit;
  Ros2Subscription = Unit;
  advertise = λ topic size. pure tt;
  create_publisher = λ topic size. pure tt;
  subscribe = λ topic size callback. pure tt;
  create_subscription = λ topic callback ignores. pure tt;
  publish1 = λ p text w. (ok tt, w ++ (on_ros1 own text ∷ []));
  publish2 = λ p text w. (ok tt, w ++ (on_ros2 true text ∷ []));
}

publishes : (own : String) → Publishes (chat own) tt tt own (λ w. w)
publishes own = record { publish1 = λ text w. (refl, refl); publish2 = λ text w. (refl, refl) }

abbrev texts : List Sent
texts = on_ros1 "/talker" "hello" ∷ on_ros2 false "world" ∷ []

not_same : ("/talker" == "/ros_bridge") ≡ false
unfolding string_discrete
not_same = refl

talker_differs : ◌≢◌ {A = String} "/talker" "/ros_bridge"
talker_differs = λ e. ground (arith, not_same)

hear_once_example :
    (((hear_all (chat "/ros_bridge") tt tt "/ros_bridge" (λ w. w) texts
          >> hear_all
              (chat "/ros_bridge")
              tt
              tt
              "/ros_bridge"
              (λ w. w)
              (on_ros2 true "hello" ∷ on_ros1 "/ros_bridge" "world" ∷ []))
        []).0
      ≡ ok tt)
    × (((hear_all (chat "/ros_bridge") tt tt "/ros_bridge" (λ w. w) texts
            >> hear_all
                (chat "/ros_bridge")
                tt
                tt
                "/ros_bridge"
                (λ w. w)
                (on_ros2 true "hello" ∷ on_ros1 "/ros_bridge" "world" ∷ []))
          []).1
        ≡ on_ros2 true "hello" ∷ on_ros1 "/ros_bridge" "world" ∷ [])
hear_once_example =
    hear_once (chat "/ros_bridge") tt tt "/ros_bridge" (λ w. w) texts [] (publishes "/ros_bridge")
      refl (talker_differs, (refl, tt))

renamed_hears_itself :
    ((hear (chat "/talker") tt tt "/talker" (λ w. w) (on_ros2 false "hello")
        >> hear (chat "/talker") tt tt "/talker" (λ w. w) (on_ros1 "/talker" "hello"))
      []).1
    ≡ on_ros1 "/talker" "hello" ∷ on_ros2 true "hello" ∷ []
renamed_hears_itself =
    hear_renamed (chat "/talker") tt tt "/talker" (λ w. w) "hello" [] (publishes "/talker")
      talker_differs
