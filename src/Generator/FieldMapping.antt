-- ===== src/Generator/FieldMapping.antt =====
-- determine_field_mapping: manual rules first, then fields of one name.
use ros1_bridge.Prelude.{
  Bool, true, false, not, ◌&&◌, ◌||◌, String, Option, none, some, List, [], ◌∷◌, ◌++◌, ◌==◌, has,
  if◌then◌else◌,
}
use ros1_bridge.Prelude.Exec.{Result, ok, throw, out_of_range}
use ros1_bridge.Prelude.Results.{◌>>=◌}
use ros1_bridge.Generator.{
  Message, Ros1Field, Member, OrderedDict, Mapping, MessageMappingRule, add_field_pair,
  selected_fields, selections_of, field_names,
}

-- `except IndexError: continue`
abbrev pub skipping : {A : Type 0} → Result A → Mapping → (A → Result Mapping) → Result Mapping
skipping (ok a) mapping k = k a
skipping (throw out_of_range) mapping k = ok mapping
skipping (throw e) mapping k = throw e

-- A new Mapping.
abbrev pub empty_mapping : Message → Message → Mapping
empty_mapping ros1_msg ros2_msg = record {
  ros1_msg = ros1_msg;
  ros2_msg = ros2_msg;
  fields_1_to_2 = [];
  fields_2_to_1 = [];
  depends_on_ros2_messages = [];
  ros1_field_missing_in_ros2 = false;
}

abbrev pub set_missing : Bool → Mapping → Mapping
set_missing missing mapping = record {
  ros1_msg = mapping.ros1_msg;
  ros2_msg = mapping.ros2_msg;
  fields_1_to_2 = mapping.fields_1_to_2;
  fields_2_to_1 = mapping.fields_2_to_1;
  depends_on_ros2_messages = mapping.depends_on_ros2_messages;
  ros1_field_missing_in_ros2 = missing;
}

-- `[field[0].name for field in mapping.fields_1_to_2.keys()]`
abbrev pub key_heads : OrderedDict → List String
key_heads [] = []
key_heads (([], v) ∷ d) = key_heads d
key_heads ((f ∷ path, v) ∷ d) = f ∷ key_heads d

abbrev pub is_empty : List String → Bool
is_empty [] = true
is_empty (x ∷ xs) = false

module _ (nested_1 : Ros1Field → Result (List Ros1Field))
    (nested_2 : Member → Result (List Member)) where
  unfoldable pub add_selections :
      List Ros1Field → List Member → OrderedDict → Mapping → Result Mapping
  add_selections ros1_spec ros2_spec [] mapping = ok mapping
  add_selections ros1_spec ros2_spec ((ros1_selection, ros2_selection) ∷ selections) mapping = do
    next ←
        skipping (selected_fields (λ f. f.name) nested_1 ros1_selection ros1_spec) mapping
          (λ ros1_fields.
            skipping (selected_fields (λ m. m.name) nested_2 ros2_selection ros2_spec) mapping
              (λ ros2_members. ok (add_field_pair (field_names ros1_fields) ros2_members mapping)))
    add_selections ros1_spec ros2_spec selections next

  unfoldable pub apply_rules :
      List Ros1Field → List Member → List MessageMappingRule → Mapping → Result Mapping
  apply_rules ros1_spec ros2_spec [] mapping = ok mapping
  apply_rules ros1_spec ros2_spec (rule ∷ rules) mapping = do
    next ←
        add_selections ros1_spec ros2_spec (selections_of rule mapping.ros1_msg mapping.ros2_msg)
          mapping
    apply_rules ros1_spec ros2_spec rules next

abbrev pub map_field : String → Option Member → Mapping → Mapping
map_field f none mapping = mapping
map_field f (some m) mapping = add_field_pair (f ∷ []) (m ∷ []) mapping

abbrev pub note_unmapped : String → Mapping → List String → List String
note_unmapped f mapping unmapped =
    if has f (key_heads mapping.fields_1_to_2) then unmapped else unmapped ++ (f ∷ [])

module _ (lower : String → String) where
  -- The first member whose name is the field's in lower case.
  unfoldable pub counterpart : String → List Member → Option Member
  counterpart f [] = none
  counterpart f (m ∷ ms) = let rest = counterpart f ms in if lower f == m.name then some m else rest

  -- The loop over the fields of ROS 1, with `ros1_fields_not_mapped`.
  unfoldable pub map_by_name :
      List Member → List String → Mapping → List String → Mapping × List String
  map_by_name ros2_spec [] mapping unmapped = (mapping, unmapped)
  map_by_name ros2_spec (f ∷ fs) mapping unmapped =
      let next = map_field f (counterpart f ros2_spec) mapping in
      map_by_name ros2_spec fs next (note_unmapped f next unmapped)

  -- Some field of ROS 1 has the member's name in lower case.
  abbrev pub is_named : String → List String → Bool
  is_named m [] = false
  is_named m (f ∷ fs) = lower f == m || is_named m fs

  abbrev pub all_named : List Member → List String → Bool
  all_named [] fs = true
  all_named (m ∷ ms) fs = let rest = all_named ms fs in if is_named m.name fs then rest else false

  abbrev pub finish : List Member → List String → Mapping × List String → Option Mapping
  finish ros2_spec fields (mapping, unmapped) =
      if not (is_empty unmapped) && not (all_named ros2_spec fields)
      then none
      else some (set_missing (not (is_empty unmapped)) mapping)

module _ (lower : String → String) (nested_1 : Ros1Field → Result (List Ros1Field))
    (nested_2 : Member → Result (List Member)) where
  abbrev pub determine_with :
      Option (List Ros1Field)
      → Option (List Member)
      → Mapping
      → List MessageMappingRule
      → Result (Option Mapping)
  determine_with none ros2_spec mapping rules = ok none
  determine_with (some ros1_spec) none mapping rules = ok none
  determine_with (some ros1_spec) (some ros2_spec) mapping rules = do
    ruled ← apply_rules nested_1 nested_2 ros1_spec ros2_spec rules mapping
    ok (
        finish lower ros2_spec (field_names ros1_spec)
          (map_by_name lower ros2_spec (field_names ros1_spec) ruled []))

  -- Of the two messages, what could be loaded.
  unfoldable pub determine_field_mapping :
      Message
      → Message
      → Option (List Ros1Field)
      → Option (List Member)
      → List MessageMappingRule
      → Result (Option Mapping)
  determine_field_mapping ros1_msg ros2_msg ros1_spec ros2_spec rules =
      determine_with ros1_spec ros2_spec (empty_mapping ros1_msg ros2_msg) rules
