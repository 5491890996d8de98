-- ===== src/DynamicBridge/Polls/Found.antt =====
-- Which topics the polls report, against a description by the answers that they got.
pub mod Active
use ros1_bridge.Prelude.{
  ℕ, String, ◌≡◌, refl, Bool, true, false, ◌-◌, ◌++◌, ◌||◌, ◌==◌, if◌then◌else◌, Option, none, some,
  List, [], ◌∷◌, arith,
}
use ros1_bridge.Prelude.Exec.{ok}
use ros1_bridge.Prelude.Int.{ltb}
use ros1_bridge.StdMap.{StdMap, find, contains, insert, HasUniqueKeys}
use ros1_bridge.StdMap.Laws.{find-insert}
use ros1_bridge.DynamicBridge.Polls.{
  StdSet, Rows, SystemState, Graph, Topics, Ros2Topics, any_other, active_topics, active_part,
  collect_ros1_topics, add_untyped, others, note_ros2_topic,
}
use ros1_bridge.DynamicBridge.Polls.Ros1.{current_ros1_topics}
use ros1_bridge.DynamicBridge.Polls.Found.Active.{is_active, contains-active_part}
use ros1_bridge.DynamicBridge.Polls.Ros2.{count_ros2_topic, collect_ros2_topics}

-- The datatype that the master lists last for a topic.
abbrev pub last_type : String → List (String × String) → Option String
last_type t [] = none
last_type t ((topic, datatype) ∷ rest) = elim (last_type t rest) [
  | some later ↦ some later
  | none ↦ if topic == t then some datatype else none
]

abbrev pub or_else_string : Option String → Option String → Option String
or_else_string (some a) b = some a
or_else_string none b = b

module _ (t : String) (ps ss : StdSet) where
  collect_ros1_topics_lem :
      (topics : List (String × String)) (found : Topics)
      → (find t (collect_ros1_topics ps ss topics found).publishers ≡ (
          if contains t ps
          then or_else_string (last_type t topics) (find t found.publishers)
          else find t found.publishers))
        × (find t (collect_ros1_topics ps ss topics found).subscribers ≡ (
            if contains t ss
            then or_else_string (last_type t topics) (find t found.subscribers)
            else find t found.subscribers))
  unfolding collect_ros1_topics
  collect_ros1_topics_lem [] found = ground arith
  collect_ros1_topics_lem ((topic, datatype) ∷ rest) found = ground (
    arith,
    collect_ros1_topics_lem rest (record {
      publishers =
          if contains topic ps then insert topic datatype found.publishers else found.publishers;
      subscribers =
          if contains topic ss then insert topic datatype found.subscribers else found.subscribers;
    }),
    find-insert t topic datatype found.publishers,
    find-insert t topic datatype found.subscribers,
  )

find-add_untyped :
    (t : String) (active : StdSet) (found : StdMap String)
    → find t (add_untyped active found) ≡ (elim (find t found) [
      | some type ↦ some type
      | none ↦ if contains t active then some "" else none
    ])
unfolding add_untyped find
find-add_untyped t [] found = ground arith
find-add_untyped t ((topic, _) ∷ rest) found = ground (
  arith,
  find-add_untyped t rest (if contains topic found then found else insert topic "" found),
  find-insert t topic "" found,
)

-- A topic is stored as published in ROS 1 where a node other than the bridge publishes it and the
-- master gives a datatype for it, with the last datatype given; and as subscribed where a node other
-- than the bridge subscribes to it, with the last datatype given, or the empty text if there is none.
pub current_ros1_topics_lem :
    (own t : String) (state : SystemState) (topics : List (String × String))
    → (find t (current_ros1_topics own state topics).publishers
        ≡ (if is_active own t state.publishers then last_type t topics else none))
      × (find t (current_ros1_topics own state topics).subscribers ≡ (
          if is_active own t state.subscribers
          then or_else_string (last_type t topics) (some "")
          else none))
unfolding current_ros1_topics find
current_ros1_topics_lem own t state topics = ground (
  arith,
  collect_ros1_topics_lem t (active_part own state.publishers) (active_part own state.subscribers)
      topics (record { publishers = []; subscribers = [] }),
  contains-active_part own t state.publishers,
  contains-active_part own t state.subscribers,
  find-add_untyped t (active_part own state.subscribers)
      (collect_ros1_topics (active_part own state.publishers) (active_part own state.subscribers)
        topics (record { publishers = []; subscribers = [] })).subscribers,
)

-- The ends of a topic that are the bridge's own.
abbrev pub own_ends : Bool → ℕ
own_ends true = 1
own_ends false = 0

others_lem : (own : Bool) (count : ℕ) → others own count ≡ count - own_ends own
unfolding others
others_lem true count = refl
others_lem false count = omega arith

-- The type of a topic that is listed with one type and has `n` ends, the bridge's left out.
abbrev pub reported : ℕ → String → StdMap (List String) → Option String
reported n t topics = if t == "parameter_events" then none else elim (find t topics) [
  | none ↦ none
  | some types ↦ elim types [
    | [] ↦ none
    | type ∷ more ↦ elim more [ [] ↦ if ltb 0 n then some type else none | _ ∷ _ ↦ none ]
  ]
]

module _ {World : Type 0} (graph : Graph World) (publishers subscribers : String → ℕ) where
  -- The graph gives the same two counts for a topic whenever it is asked, and does not throw.
  abbrev pub Counts : Type 0
  Counts =
      (t : String) (w : World)
      → (graph.count_publishers t w ≡ (ok (publishers t), w))
        × (graph.count_subscribers t w ≡ (ok (subscribers t), w))

  counted :
      (a b : Bool) (topic type : String) (found : Topics) (w : World)
      → Counts
      → count_ros2_topic graph a b topic type found w ≡ (
        ok (
            note_ros2_topic topic type
              (others a (publishers topic))
              (others b (subscribers topic))
              found),
        w,
      )
  unfolding count_ros2_topic
  counted a b topic type found w counts = rw ((counts topic w).0, (counts topic w).1)

  module _ (own_publisher own_subscriber : String → Bool) where
    collect_ros2_topics_from :
        (topics : StdMap (List String)) (t : String) (found found' : Ros2Topics) (w : World)
        → Counts
        → HasUniqueKeys topics
        → (collect_ros2_topics graph own_publisher own_subscriber topics found w).0 ≡ ok found'
        → (find t found'.topics.publishers
            ≡ or_else_string
                (reported (others (own_publisher t) (publishers t)) t topics)
                (find t found.topics.publishers))
          × (find t found'.topics.subscribers
              ≡ or_else_string
                  (reported (others (own_subscriber t) (subscribers t)) t topics)
                  (find t found.topics.subscribers))
    unfolding collect_ros2_topics note_ros2_topic find
    collect_ros2_topics_from [] t found found' w counts u h = ground arith
    collect_ros2_topics_from ((topic, []) ∷ rest) t found found' w counts u h =
        ground (arith, collect_ros2_topics_from rest t found found' w counts u.1)
    collect_ros2_topics_from ((topic, type ∷ []) ∷ rest) t found found' w counts u h =
        let noted =
          note_ros2_topic topic type (others (own_publisher topic) (publishers topic))
            (others (own_subscriber topic) (subscribers topic)) found.topics in
        ground (
          arith,
          counted (own_publisher topic) (own_subscriber topic) topic type found.topics w counts,
          collect_ros2_topics_from rest t found found' w counts u.1,
          collect_ros2_topics_from rest t (record found { topics = noted }) found' w counts u.1,
          find-insert t topic type found.topics.publishers,
          find-insert t topic type found.topics.subscribers,
        )
    collect_ros2_topics_from ((topic, type ∷ _ ∷ _) ∷ rest) t found found' w counts u h = ground (
      arith,
      collect_ros2_topics_from rest t found found' w counts u.1,
      collect_ros2_topics_from rest t (record found { ignored = insert topic tt found.ignored })
          found' w counts u.1,
    )

    -- Where the loop over the ROS 2 topics returns, their names are unique, and the graph gives for each
    -- topic the same two counts in every state, a topic is found as published, and as subscribed, just
    -- where it is not `parameter_events`, has exactly one type, and the count without the bridge's own
    -- end is positive; and it is found with that type.
    pub collect_ros2_topics_lem :
        (topics : StdMap (List String)) (t : String) (ignored : StdSet) (found : Ros2Topics)
        (w : World)
        → Counts
        → HasUniqueKeys topics
        → (collect_ros2_topics graph own_publisher own_subscriber topics
            (record { topics = record { publishers = []; subscribers = [] }; ignored = ignored })
            w).0
          ≡ ok found
        → (find t found.topics.publishers
            ≡ reported (publishers t - own_ends (own_publisher t)) t topics)
          × (find t found.topics.subscribers
              ≡ reported (subscribers t - own_ends (own_subscriber t)) t topics)
    unfolding find
    collect_ros2_topics_lem topics t ignored found w counts u h = ground (
      arith,
      collect_ros2_topics_from topics t _ found w counts u h,
      others_lem (own_publisher t) (publishers t),
      others_lem (own_subscriber t) (subscribers t),
    )
