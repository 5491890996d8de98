-- ===== src/Generator/ByName.antt =====
-- What the name-based loop does to a mapping.
use ros1_bridge.Prelude.{
  ◌≡◌, refl, ap, ◌∙◌, Bool, true, false, String, Option, none, some, List, [], ◌∷◌, ◌==◌, has,
  Bool-cases, inl, inr, arith, if◌then◌else◌, subst,
}
use ros1_bridge.Generator.{Member, Selection, Mapping, add_field_pair, lookup}
use ros1_bridge.Generator.FieldMapping.{counterpart, map_field, map_by_name, note_unmapped}
use ros1_bridge.Generator.Pairs.{lookup-put_single, lookup-put_other}

module _ (lower : String → String) (ros2_spec : List Member) where
  -- What the mapping has for a field of ROS 1 by name, or else what it had.
  abbrev pub by_name_or : Option Member → Option Selection → Option Selection
  by_name_or none before = before
  by_name_or (some m) before = some (m.name ∷ [])

  map_field_same :
      (f : String) (o : Option Member) (mapping : Mapping)
      → lookup (f ∷ []) (map_field f o mapping).fields_1_to_2
        ≡ by_name_or o (lookup (f ∷ []) mapping.fields_1_to_2)
  unfolding add_field_pair
  map_field_same f none mapping = refl
  map_field_same f (some m) mapping = lookup-put_single f _ _

  map_field_other :
      (f g : String) (o : Option Member) (mapping : Mapping)
      → (f == g) ≡ false
      → lookup (f ∷ []) (map_field g o mapping).fields_1_to_2
        ≡ lookup (f ∷ []) mapping.fields_1_to_2
  unfolding add_field_pair
  map_field_other f g none mapping differ = refl
  map_field_other f g (some m) mapping differ = lookup-put_other f g _ _ differ

  named_same :
      (f g : String) (mapping : Mapping)
      → (g == f) ≡ true
      → lookup (f ∷ []) (map_field g (counterpart lower g ros2_spec) mapping).fields_1_to_2
        ≡ by_name_or (counterpart lower f ros2_spec) (lookup (f ∷ []) mapping.fields_1_to_2)
  named_same f g mapping same =
      let names : f ≡ g = ground (arith, same) in
      subst
        (λ k.
          lookup (f ∷ []) (map_field k (counterpart lower k ros2_spec) mapping).fields_1_to_2
          ≡ by_name_or (counterpart lower f ros2_spec) (lookup (f ∷ []) mapping.fields_1_to_2))
        names (map_field_same f (counterpart lower f ros2_spec) mapping)

  by_name_or_settled :
      (b : Bool) (o : Option Member) (before : Option Selection)
      → (if b then by_name_or o (by_name_or o before) else by_name_or o before)
        ≡ by_name_or o before
  by_name_or_settled true none before = refl
  by_name_or_settled true (some m) before = refl
  by_name_or_settled false o before = refl

  pub lookup-map_by_name :
      (f : String) (fs : List String) (mapping : Mapping) (unmapped : List String)
      → lookup (f ∷ []) (map_by_name lower ros2_spec fs mapping unmapped).0.fields_1_to_2 ≡ (
          if has f fs
          then by_name_or (counterpart lower f ros2_spec) (lookup (f ∷ []) mapping.fields_1_to_2)
          else lookup (f ∷ []) mapping.fields_1_to_2)
  unfolding map_by_name
  lookup-map_by_name f [] mapping unmapped = refl
  lookup-map_by_name f (g ∷ fs) mapping unmapped =
      let next : Mapping = map_field g (counterpart lower g ros2_spec) mapping in
      let later = lookup-map_by_name f fs next (note_unmapped g next unmapped) in
      elim (Bool-cases (g == f)) [
        | inl same ↦
            let now = named_same f g mapping same in
            rw same (
              later
              ∙ ap (λ o. if has f fs then by_name_or (counterpart lower f ros2_spec) o else o) now
              ∙ by_name_or_settled (has f fs) (counterpart lower f ros2_spec)
                  (lookup (f ∷ []) mapping.fields_1_to_2))
        | inr differ ↦
            let other : (f == g) ≡ false = ground (arith, differ) in
            let now = map_field_other f g (counterpart lower g ros2_spec) mapping other in
            rw differ (
              later
              ∙ ap (λ o. if has f fs then by_name_or (counterpart lower f ros2_spec) o else o) now)
      ]
