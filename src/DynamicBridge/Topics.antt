-- ===== src/DynamicBridge/Topics.antt =====
-- The topic part of `update_bridge` in src/dynamic_bridge.cpp. The source has it twice, for the
-- two ways; `Direction` holds what differs between the copies. The log is kept newest first.
pub mod Outcome
pub mod Stability
use mathlib.Core.Option as Option
use text.Mathlib.Text.{find? as find_text}
use ros1_bridge.Prelude.{
  String, Bool, true, false, not, ◌&&◌, ◌||◌, if◌then◌else◌, Option, none, some, List, [], ◌∷◌,
  is_some, keep,
}
use ros1_bridge.Prelude.Exec.{Exec, Result, ok, throw, runtime_error, Exception, pure, ◌>>=◌, ◌>>◌}
use ros1_bridge.StdMap.{StdMap, find, contains, insert, erase, keys}
use ros1_bridge.DynamicBridge.{
  Way, TypeNames, HandlesAndMessageTypes, Event, replace_bridge, created_bridge, failed_bridge,
  check_supported_pairs, removed_bridge,
}

-- `names` puts the publisher's and the subscriber's type in their places, `mapping` gives the
-- other side's type for a publisher's type, and `in_place` compares the types of a bridge that
-- exists with those that are wanted.
pub record Direction (Handles World : Type 0) : Type 0 where
  pub way : Way
  pub publishers : StdMap String
  pub subscribers : StdMap String
  pub bridge_all_topics : Bool
  pub mapping : String → Option String
  pub names : String → String → TypeNames
  pub in_place : TypeNames → TypeNames → Bool
  pub create : String → TypeNames → Exec World Handles

pub record TopicState (Handles World : Type 0) : Type 0 where
  pub bridges : StdMap (HandlesAndMessageTypes Handles)
  pub world : World
  pub log : List Event

-- std::string(e.what()).find("No template specialization") != std::string::npos
pub mentions_specialisation : String → Bool
mentions_specialisation what = is_some (find_text what "No template specialization")

module _ {Handles World : Type 0} (d : Direction Handles World) where
  -- The types for a topic that has a publisher of type `type`; `none` where the loop continues.
  unfoldable pub wanted_types : String → String → Option TypeNames
  wanted_types topic type = elim (find topic d.subscribers) [
    | some subscribed ↦ some (d.names type subscribed)
    | none ↦ if not d.bridge_all_topics then none else Option.map (d.names type) (d.mapping type)
  ]

  -- What follows the call that creates the handles: the bridge is stored, or a `runtime_error` is
  -- reported; any other exception leaves the loop.
  unfoldable pub settle :
      String
      → TypeNames
      → TopicState Handles World
      → Result Handles × World
      → Result (Unit {0}) × TopicState Handles World
  settle topic types st (ok handles, world) = (
    ok tt,
    record {
      bridges = insert topic (record { bridge_handles = handles; types = types }) st.bridges;
      world = world;
      log = created_bridge d.way topic types ∷ st.log;
    },
  )
  settle topic types st (throw (runtime_error what), world) = (
    ok tt,
    record st {
      world = world;
      log =
          let failed = failed_bridge d.way topic types what ∷ st.log in
          if mentions_specialisation what then check_supported_pairs ∷ failed else failed;
    },
  )
  settle topic types st (throw e, world) = (throw e, record st { world = world })

  unfoldable pub establish : String → TypeNames → Exec (TopicState Handles World) (Unit {0})
  establish topic types st = settle topic types st (d.create topic types st.world)

  -- Removes the bridge with previous types.
  unfoldable pub drop_previous : String → TopicState Handles World → TopicState Handles World
  drop_previous topic st = record st {
    bridges = erase topic st.bridges;
    log = replace_bridge d.way topic ∷ st.log;
  }

  -- One round of the loop over the publishers.
  unfoldable pub bridge_topic : String → String → Exec (TopicState Handles World) (Unit {0})
  bridge_topic topic type st = elim (wanted_types topic type) [
    | none ↦ (ok tt, st)
    | some types ↦ elim (find topic st.bridges) [
      | none ↦ establish topic types st
      | some bridge ↦
          if d.in_place bridge.types types
          then (ok tt, st)
          else establish topic types (drop_previous topic st)
    ]
  ]

  unfoldable pub create_bridges : StdMap String → Exec (TopicState Handles World) (Unit {0})
  create_bridges [] = pure tt
  create_bridges ((topic, type) ∷ rest) = do bridge_topic topic type; create_bridges rest

  unfoldable pub obsolete : String → Bool
  obsolete topic =
      not (contains topic d.publishers)
      || (not d.bridge_all_topics && not (contains topic d.subscribers))

  -- The loop over `to_be_removed_1to2`, or `to_be_removed_2to1`.
  unfoldable pub remove_bridges : List String → TopicState Handles World → TopicState Handles World
  remove_bridges [] st = st
  remove_bridges (topic ∷ rest) st =
      remove_bridges rest
        (record st { bridges = erase topic st.bridges; log = removed_bridge d.way topic ∷ st.log })

  unfoldable pub remove_obsolete : TopicState Handles World → TopicState Handles World
  remove_obsolete st = remove_bridges (keep obsolete (keys st.bridges)) st
