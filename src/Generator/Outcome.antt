-- ===== src/Generator/Outcome.antt =====
-- determine_field_mapping: which fields are mapped to which, and when no mapping is made.
use ros1_bridge.Prelude.{
  ◌≡◌, refl, sym, ap, ◌∙◌, true, false, not, ◌&&◌, String, Option, none, some, List, [], ◌∷◌, ◌⊎◌,
  ◌↔◌, is_some, if◌then◌else◌, has, map, keep, Bool-cases, inl, inr, All,
}
use mathlib.Core.Option.{some_inj}
use ros1_bridge.Prelude.Exec.{Result, ok, ok_value}
use ros1_bridge.Generator.{
  Selection, Message, Ros1Field, Member, Mapping, MessageMappingRule, lookup, field_names,
  selections_of,
}
use ros1_bridge.Generator.FieldMapping.{
  empty_mapping, set_missing, is_empty, counterpart, map_by_name, all_named, finish, apply_rules,
  add_selections, determine_field_mapping,
}
use ros1_bridge.Generator.Pairs.{pairs_of}
use ros1_bridge.Generator.ByName.{by_name_or, lookup-map_by_name}
use ros1_bridge.Generator.Built.{itself, AreDistinct, counterpart_name, map_by_name-Built}
use ros1_bridge.Generator.Described.{
  is_there, Ros1IsCovered, Ros2IsCovered, counterpart-has, keep-has_counterpart, none_left,
  all_named-Ros2IsCovered,
}

-- The mapping of fields of one name, in the order of ROS 1; and whether a field of ROS 1 is missing.
abbrev pub IsByName : (String → String) → List Member → List String → Mapping → Type 0
IsByName lower ros2_spec fields mapping =
    (mapping.fields_1_to_2 ≡ pairs_of itself lower (keep (is_there lower ros2_spec) fields))
    × (mapping.fields_2_to_1 ≡ pairs_of lower itself (keep (is_there lower ros2_spec) fields))
    × ((mapping.ros1_field_missing_in_ros2 ≡ false) ↔ Ros1IsCovered lower ros2_spec fields)

-- A mapping is made where one of the two messages covers the other, and none where neither does.
abbrev pub Associates :
    (String → String) → List Member → List String → Result (Option Mapping) → Type 0
Associates lower ros2_spec fields result =
    ((Ros1IsCovered lower ros2_spec fields ⊎ Ros2IsCovered lower ros2_spec fields)
      × (mapping : Mapping) × (result ≡ ok (some mapping))
      × IsByName lower ros2_spec fields mapping)
    ⊎ ((¬ Ros1IsCovered lower ros2_spec fields)
        × (¬ Ros2IsCovered lower ros2_spec fields)
        × (result ≡ ok none))

finished_one :
    (lower : String → String) (ros2_spec : List Member) (fields : List String)
    (looped : Mapping × List String) (mapping : Mapping)
    → finish lower ros2_spec fields looped ≡ some mapping
    → mapping.fields_1_to_2 ≡ looped.0.fields_1_to_2
finished_one lower ros2_spec fields (m, unmapped) mapping e =
    elim (Bool-cases (not (is_empty unmapped) && not (all_named lower ros2_spec fields))) [
      | inl none_made ↦ let bad : none ≡ some mapping = rw none_made at e in cc
      | inr made ↦
          let same : set_missing (not (is_empty unmapped)) m ≡ mapping =
            some_inj.0 (rw made at e) in
          sym (ap (λ n. n.fields_1_to_2) same)
    ]

named_or :
    (lower : String → String) (ros2_spec : List Member) (f : String) (before : Option Selection)
    → by_name_or lower ros2_spec (counterpart lower f ros2_spec) before
      ≡ (if is_there lower ros2_spec f then some (lower f ∷ []) else before)
named_or lower ros2_spec f before = go (counterpart lower f ros2_spec) refl
  where
    go :
        (o : Option Member)
        → counterpart lower f ros2_spec ≡ o
        → by_name_or lower ros2_spec o before
          ≡ (if is_there lower ros2_spec f then some (lower f ∷ []) else before)
    go none e = rw (sym (counterpart-has lower ros2_spec f ros2_spec) ∙ ap is_some e) refl
    go (some m) e =
        rw (sym (counterpart-has lower ros2_spec f ros2_spec) ∙ ap is_some e)
          (ap (λ n. some (n ∷ [])) (counterpart_name lower ros2_spec f ros2_spec m e))

fresh_at_first :
    (lower : String → String) (fields : List String)
    → All (λ f. has (lower f) (map lower []) ≡ false) fields
fresh_at_first lower [] = tt
fresh_at_first lower (f ∷ fs) = (refl, fresh_at_first lower fs)

finish-Associates :
    (lower : String → String) (ros2_spec : List Member) (fields : List String)
    (looped : Mapping × List String)
    → (looped.0.fields_1_to_2 ≡ pairs_of itself lower (keep (is_there lower ros2_spec) fields))
      × (looped.0.fields_2_to_1 ≡ pairs_of lower itself (keep (is_there lower ros2_spec) fields))
    → (is_empty looped.1 ≡ true) ↔ Ros1IsCovered lower ros2_spec fields
    → Associates lower ros2_spec fields (ok (finish lower ros2_spec fields looped))
finish-Associates lower ros2_spec fields (m, unmapped) built (covered, complete) =
    let (named, names) = all_named-Ros2IsCovered lower ros2_spec fields ros2_spec in
    elim (Bool-cases (is_empty unmapped)) [
      | inl e ↦ inl (
        inl (covered e),
        set_missing false m,
        rw e refl,
        (built.0, built.1, (λ _. covered e, λ _. refl)),
      )
      | inr e ↦ elim (Bool-cases (all_named lower ros2_spec fields)) [
        | inl all ↦ inl (
          inr (named all),
          set_missing true m,
          rw (e, all) refl,
          (built.0, built.1, (λ h. cc, λ h. let bad = complete h in cc)),
        )
        | inr some_left ↦
            inr (
              λ h. let bad = complete h in cc,
              λ h. let bad = names h in cc,
              rw (e, some_left) refl,
            )
      ]
    ]

module _ (nested_1 : Ros1Field → Result (List Ros1Field)) (nested_2 : Member → Result (List Member))
    (ros1_spec : List Ros1Field) (ros2_spec : List Member) where
  apply_no_rules :
      (rules : List MessageMappingRule) (mapping : Mapping)
      → All (λ rule. selections_of rule mapping.ros1_msg mapping.ros2_msg ≡ []) rules
      → apply_rules nested_1 nested_2 ros1_spec ros2_spec rules mapping ≡ ok mapping
  unfolding apply_rules add_selections
  apply_no_rules [] mapping nothing = refl
  apply_no_rules (rule ∷ rules) mapping (first, rest) = rw first (apply_no_rules rules mapping rest)

  -- With manual rules for the pair or without: after a mapping was made, each single field of
  -- ROS 1 is mapped to its name in lower case, where ROS 2 has a member of this name, whatever the
  -- rules say; and otherwise to what the rules have mapped it to.
  pub determine_field_mapping-by_name :
      (lower : String → String) (ros1_msg ros2_msg : Message) (rules : List MessageMappingRule)
      (ruled mapping : Mapping) (f : String)
      → apply_rules nested_1 nested_2 ros1_spec ros2_spec rules (empty_mapping ros1_msg ros2_msg)
        ≡ ok ruled
      → determine_field_mapping lower nested_1 nested_2 ros1_msg ros2_msg
          (some ros1_spec)
          (some ros2_spec)
          rules
        ≡ ok (some mapping)
      → has f (field_names ros1_spec) ≡ true
      → lookup (f ∷ []) mapping.fields_1_to_2 ≡ (
          if is_there lower ros2_spec f
          then some (lower f ∷ [])
          else lookup (f ∷ []) ruled.fields_1_to_2)
  unfolding determine_field_mapping
  determine_field_mapping-by_name lower ros1_msg ros2_msg rules ruled mapping f applied made there =
      let looped : Mapping × List String =
        map_by_name lower ros2_spec (field_names ros1_spec) ruled [] in
      let made' : ok (finish lower ros2_spec (field_names ros1_spec) looped) ≡ ok (some mapping) =
        rw applied at made in
      ap (lookup (f ∷ []))
        (finished_one lower ros2_spec (field_names ros1_spec) looped mapping (ok_value made'))
      ∙ lookup-map_by_name lower ros2_spec f (field_names ros1_spec) ruled []
      ∙ rw there (named_or lower ros2_spec f (lookup (f ∷ []) ruled.fields_1_to_2))

  -- Where no manual rule has fields for the pair and no two fields of ROS 1 have one name in lower
  -- case: a mapping is made just where each field of ROS 1 has its name in lower case among the
  -- members of ROS 2, or each member of ROS 2 is the name in lower case of some field of ROS 1. The
  -- mapping has the fields of ROS 1 whose name in lower case is there, in their order, each mapped to
  -- this name, and back; and it tells that no field is missing just where all of them are there.
  pub determine_field_mapping-Associates :
      (lower : String → String) (ros1_msg ros2_msg : Message) (rules : List MessageMappingRule)
      → All (λ rule. selections_of rule ros1_msg ros2_msg ≡ []) rules
      → AreDistinct lower ros2_spec (field_names ros1_spec)
      → Associates lower ros2_spec (field_names ros1_spec) (
          determine_field_mapping lower nested_1 nested_2 ros1_msg ros2_msg
            (some ros1_spec)
            (some ros2_spec)
            rules)
  unfolding determine_field_mapping
  determine_field_mapping-Associates lower ros1_msg ros2_msg rules no_rule distinct =
      let fields : List String = field_names ros1_spec in
      let start : Mapping = empty_mapping ros1_msg ros2_msg in
      let built =
        map_by_name-Built lower ros2_spec fields [] start [] distinct (fresh_at_first lower fields)
          (refl, refl) in
      let mapped = sym (keep-has_counterpart lower ros2_spec fields) in
      let (there, back) = none_left lower ros2_spec fields in
      rw (apply_no_rules rules start no_rule) (
        finish-Associates lower ros2_spec fields (map_by_name lower ros2_spec fields start [])
          (
            built.0.0 ∙ ap (pairs_of itself lower) (sym mapped),
            built.0.1 ∙ ap (pairs_of lower itself) (sym mapped),
          )
          (λ e. there (ap is_empty (sym built.1) ∙ e), λ h. ap is_empty built.1 ∙ back h))
