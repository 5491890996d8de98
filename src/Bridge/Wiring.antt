-- ===== src/Bridge/Wiring.antt =====
-- What the handles of a bridge are connected to.
use ros1_bridge.Prelude.{
  ℕ, String, ◌≡◌, sym, ap, subst, true, false, Option, some, arith, Option-cases, inl, inr,
}
use ros1_bridge.Prelude.Exec.{Exec, ok, bind_value, ok_value}
use ros1_bridge.Ros.{Ros}
use ros1_bridge.Factory.{
  Specialisation, Factory, make_factory, load_type_support, create_ros1_publisher,
  create_ros2_publisher, create_ros1_subscriber, create_ros2_subscriber,
}
use ros1_bridge.Factory.Registry.{Generated, select, get_factory}
use ros1_bridge.Bridge.{
  Bridge1to2Handles, Bridge2to1Handles, BridgeHandles, create_bridge_from_1_to_2,
  create_bridge_from_2_to_1, create_bridge_from_2_to_1_of_queue_size, create_bidirectional_bridge,
}

module _ (ros : Ros) (gen : Generated) where
  -- A handle that a call gave.
  abbrev pub CameFrom : {A : Type 0} → Exec ros.World A → A → Type 0
  CameFrom m a = (w : ros.World) × ((m w).0 ≡ ok a)

  -- The subscriber in ROS 1 feeds the publisher in ROS 2, both for the types of one factory.
  pub record IsWired1to2 (r1 r2 topic1 topic2 : String) (size : ℕ) (qos : ros.Qos)
      (h : Bridge1to2Handles ros) : Type 0 where
    pub s : Specialisation
    pub selected : select gen r1 r2 ≡ some s
    pub publishes : CameFrom (ros.create_publisher s.ros2_message topic2 qos) h.ros2_publisher
    pub subscribes :
        CameFrom
          (ros.subscribe (record {
            topic = topic1;
            queue_size = size;
            md5sum = ros.md5sum s.ros1_message;
            datatype = ros.datatype s.ros1_message;
            ros2_pub = h.ros2_publisher;
            ros1_type_name = s.ros1_type_name;
            ros2_type_name = s.ros2_type_name;
          }))
          h.ros1_subscriber

  -- The subscription in ROS 2 feeds the publisher in ROS 1, knows the publisher that it must not
  -- hear, and ignores publications of its own node.
  pub record IsWired2to1 (r1 r2 topic1 topic2 : String) (size : ℕ) (qos : ros.Qos)
      (own : Option ros.Ros2Publisher) (h : Bridge2to1Handles ros) : Type 0 where
    pub s : Specialisation
    pub selected : select gen r1 r2 ≡ some s
    pub publishes : CameFrom (ros.advertise s.ros1_message topic1 size false) h.ros1_publisher
    pub subscribes :
        CameFrom
          (ros.create_subscription s.ros2_message topic2 qos (record {
            ros1_pub = h.ros1_publisher;
            ros1_type_name = s.ros1_type_name;
            ros2_type_name = s.ros2_type_name;
            ros2_pub = own;
            ignore_local_publications = true;
          }))
          h.ros2_subscriber

  make_factory-specialisation :
      (s : Specialisation) (w : ros.World) (factory : Factory ros)
      → (make_factory ros s w).0 ≡ ok factory
      → factory.specialisation ≡ s
  unfolding make_factory
  make_factory-specialisation s w factory h =
      let (library, _, rest1) =
        bind_value (ros.get_typesupport_library s.ros2_type_name "rosidl_typesupport_cpp") _ w h in
      let (support, _, rest2) =
        bind_value (load_type_support ros s.ros2_type_name library) _ _ rest1 in
      sym (ap (λ f. f.specialisation) (ok_value rest2))

  get_factory-selected :
      (r1 r2 : String) (w : ros.World) (factory : Factory ros)
      → (get_factory ros gen r1 r2 w).0 ≡ ok factory
      → select gen r1 r2 ≡ some factory.specialisation
  unfolding get_factory
  get_factory-selected r1 r2 w factory h = elim (Option-cases (select gen r1 r2)) [
    | inl e ↦ ground arith
    | inr (s, e) ↦ ground (arith, make_factory-specialisation s w factory)
  ]

  pub create_bridge_from_1_to_2-IsWired1to2 :
      (r1 topic1 : String) (size : ℕ) (r2 topic2 : String) (qos : ros.Qos) (w : ros.World)
      (h : Bridge1to2Handles ros)
      → (create_bridge_from_1_to_2 ros gen r1 topic1 size r2 topic2 qos w).0 ≡ ok h
      → IsWired1to2 r1 r2 topic1 topic2 size qos h
  unfolding create_bridge_from_1_to_2 create_ros2_publisher create_ros1_subscriber
  create_bridge_from_1_to_2-IsWired1to2 r1 topic1 size r2 topic2 qos w h returned =
      let (factory, e1, rest1) = bind_value (get_factory ros gen r1 r2) _ w returned in
      let (ros2_pub, e2, rest2) =
        bind_value (create_ros2_publisher ros factory topic2 qos) _ _ rest1 in
      let (ros1_sub, e3, rest3) =
        bind_value (create_ros1_subscriber ros factory topic1 size ros2_pub) _ _ rest2 in
      subst (IsWired1to2 r1 r2 topic1 topic2 size qos) (ok_value rest3) (record {
        s = factory.specialisation;
        selected = get_factory-selected r1 r2 w factory e1;
        publishes = (_, e2);
        subscribes = (_, e3);
      })

  pub create_bridge_from_2_to_1-IsWired2to1 :
      (r2 topic2 : String) (qos : ros.Qos) (r1 topic1 : String) (size : ℕ)
      (own : Option ros.Ros2Publisher) (w : ros.World) (h : Bridge2to1Handles ros)
      → (create_bridge_from_2_to_1 ros gen r2 topic2 qos r1 topic1 size own w).0 ≡ ok h
      → IsWired2to1 r1 r2 topic1 topic2 size qos own h
  unfolding create_bridge_from_2_to_1 create_ros1_publisher create_ros2_subscriber
  create_bridge_from_2_to_1-IsWired2to1 r2 topic2 qos r1 topic1 size own w h returned =
      let (factory, e1, rest1) = bind_value (get_factory ros gen r1 r2) _ w returned in
      let (ros1_pub, e2, rest2) =
        bind_value (create_ros1_publisher ros factory topic1 size false) _ _ rest1 in
      let (ros2_sub, e3, rest3) =
        bind_value (create_ros2_subscriber ros factory topic2 qos ros1_pub own) _ _ rest2 in
      subst (IsWired2to1 r1 r2 topic1 topic2 size qos own) (ok_value rest3) (record {
        s = factory.specialisation;
        selected = get_factory-selected r1 r2 w factory e1;
        publishes = (_, e2);
        subscribes = (_, e3);
      })

  -- Where a bidirectional bridge is created, its subscriber in ROS 1 feeds its publisher in ROS 2,
  -- its subscription in ROS 2 feeds its publisher in ROS 1, each by calls for the types of the
  -- selected factory on the same topic, and the subscription holds that publisher in ROS 2 as the
  -- one that it must not hear.
  pub create_bidirectional_bridge-IsWired :
      (r1 r2 topic : String) (size : ℕ) (qos : ros.Qos) (w : ros.World) (h : BridgeHandles ros)
      → (create_bidirectional_bridge ros gen r1 r2 topic size qos w).0 ≡ ok h
      → IsWired1to2 r1 r2 topic topic size qos h.bridge1to2
        × IsWired2to1 r1 r2 topic topic size
            (ros.sensor_data size)
            (some h.bridge1to2.ros2_publisher)
            h.bridge2to1
  unfolding create_bidirectional_bridge create_bridge_from_2_to_1_of_queue_size
  create_bidirectional_bridge-IsWired r1 r2 topic size qos w h returned =
      let (one, e1, rest1) =
        bind_value (create_bridge_from_1_to_2 ros gen r1 topic size r2 topic qos) _ w returned in
      let (two, e2, rest2) =
        bind_value
          (create_bridge_from_2_to_1 ros gen r2 topic (ros.sensor_data size) r1 topic size
            (some one.ros2_publisher))
          _ _ rest1 in
      subst
        (λ (h : BridgeHandles ros).
          IsWired1to2 r1 r2 topic topic size qos h.bridge1to2
          × IsWired2to1 r1 r2 topic topic size (ros.sensor_data size)
              (some h.bridge1to2.ros2_publisher) h.bridge2to1)
        (ok_value rest2)
        (
          create_bridge_from_1_to_2-IsWired1to2 r1 topic size r2 topic qos w one e1,
          create_bridge_from_2_to_1-IsWired2to1 r2 topic (ros.sensor_data size) r1 topic size
              (some one.ros2_publisher) _ two e2,
        )
