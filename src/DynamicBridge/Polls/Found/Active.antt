-- ===== src/DynamicBridge/Polls/Found/Active.antt =====
-- Which topics have a publisher, or a subscriber, beside the bridge.
use ros1_bridge.Prelude.{
  String, ◌≡◌, refl, Bool, true, false, ◌++◌, ◌||◌, ◌==◌, if◌then◌else◌, Option, none, some, List,
  [], ◌∷◌, arith,
}
use ros1_bridge.StdMap.{find, contains, insert}
use ros1_bridge.StdMap.Laws.{find-insert}
use ros1_bridge.DynamicBridge.Polls.{StdSet, Rows, any_other, active_topics, active_part}

-- The nodes in the rows of a topic.
abbrev pub nodes_of : String → Rows → List String
nodes_of t [] = []
nodes_of t ((topic, nodes) ∷ rows) =
    if topic == t then nodes ++ nodes_of t rows else nodes_of t rows

abbrev pub without : String → List String → List String
without own [] = []
without own (node ∷ nodes) = if node == own then without own nodes else node ∷ without own nodes

abbrev pub is_nonempty : List String → Bool
is_nonempty [] = false
is_nonempty (_ ∷ _) = true

-- Whether a node other than the bridge is in the rows of a topic.
abbrev pub is_active : String → String → Option Rows → Bool
is_active own t none = false
is_active own t (some rows) = is_nonempty (without own (nodes_of t rows))

any_other_lem :
    (own : String) (nodes : List String) → any_other own nodes ≡ is_nonempty (without own nodes)
unfolding any_other
any_other_lem own [] = refl
any_other_lem own (node ∷ nodes) = ground (arith, any_other_lem own nodes)

is_nonempty-without :
    (own : String) (xs ys : List String)
    → is_nonempty (without own (xs ++ ys))
      ≡ (is_nonempty (without own xs) || is_nonempty (without own ys))
is_nonempty-without own [] ys = refl
is_nonempty-without own (x ∷ xs) ys = ground (arith, is_nonempty-without own xs ys)

contains-active_topics :
    (own t : String) (rows : Rows) (active : StdSet)
    → contains t (active_topics own rows active)
      ≡ (contains t active || is_nonempty (without own (nodes_of t rows)))
unfolding active_topics
contains-active_topics own t [] active = ground arith
contains-active_topics own t ((topic, nodes) ∷ rows) active = ground (
  arith,
  contains-active_topics own t rows
      (if any_other own nodes then insert topic tt active else active),
  find-insert t topic tt active,
  any_other_lem own nodes,
  is_nonempty-without own nodes (nodes_of t rows),
)

pub contains-active_part :
    (own t : String) (rows : Option Rows) → contains t (active_part own rows) ≡ is_active own t rows
unfolding active_part find
contains-active_part own t none = refl
contains-active_part own t (some rows) = contains-active_topics own t rows []
