-- ===== src/Generator/Built.antt =====
-- The name-based loop from an empty mapping: the pairs that it has put in, in the order of ROS 1.
use ros1_bridge.Prelude.{
  ◌≡◌, refl, sym, ap, ◌∙◌, Bool, true, false, not, ◌||◌, String, some, List, [], ◌∷◌, ◌++◌, has,
  map, keep, is_some, Option-cases, inl, inr, ==_refl, arith, All, subst,
}
use mathlib.Core.List.{append_assoc, append-nil}
use ros1_bridge.Generator.{Member, Mapping, add_field_pair, put}
use ros1_bridge.Generator.FieldMapping.{
  counterpart, map_field, map_by_name, note_unmapped, key_heads,
}
use ros1_bridge.Generator.Pairs.{pairs_of, put-pairs_of, key_heads-pairs_of}

abbrev pub itself : String → String
itself f = f

map-itself : (fs : List String) → map itself fs ≡ fs
map-itself [] = refl
map-itself (f ∷ fs) = ap (λ l. f ∷ l) (map-itself fs)

module _ (lower : String → String) (ros2_spec : List Member) where
  abbrev pub has_counterpart : String → Bool
  has_counterpart f = is_some (counterpart lower f ros2_spec)

  abbrev pub has_none : String → Bool
  has_none f = not (is_some (counterpart lower f ros2_spec))

  -- No two fields have one name in lower case.
  abbrev pub AreDistinct : List String → Type 0
  AreDistinct [] = Unit
  AreDistinct (f ∷ fs) = (has (lower f) (map lower fs) ≡ false) × AreDistinct fs

  pub counterpart_name :
      (f : String) (ms : List Member) (m : Member)
      → counterpart lower f ms ≡ some m
      → m.name ≡ lower f
  unfolding counterpart
  counterpart_name f [] m e = cc
  counterpart_name f (n ∷ ms) m e = ground (arith, counterpart_name f ms m)

  has-lower :
      (f : String) (fs : List String) → has (lower f) (map lower fs) ≡ false → has f fs ≡ false
  has-lower f [] e = refl
  has-lower f (g ∷ fs) e = ground (arith, has-lower f fs)

  has_last : (f : String) (fs : List String) → has f (fs ++ (f ∷ [])) ≡ true
  has_last f [] = ground (arith, ==_refl f)
  has_last f (g ∷ fs) = ground (arith, has_last f fs)

  has-append_lower :
      (f : String) (gs fs : List String)
      → has f (map lower (fs ++ gs)) ≡ (has f (map lower fs) || has f (map lower gs))
  has-append_lower f gs [] = refl
  has-append_lower f gs (g ∷ fs) = ground (arith, has-append_lower f gs fs)

  -- `fs` are mapped, and the others are new.
  abbrev IsBuilt : List String → Mapping → Type 0
  IsBuilt fs mapping =
      (mapping.fields_1_to_2 ≡ pairs_of itself lower fs)
      × (mapping.fields_2_to_1 ≡ pairs_of lower itself fs)

  abbrev AreNew : List String → List String → Type 0
  AreNew done fs = All (λ f. has (lower f) (map lower done) ≡ false) fs

  add-IsBuilt :
      (fs : List String) (f : String) (m : Member) (mapping : Mapping)
      → IsBuilt fs mapping
      → has (lower f) (map lower fs) ≡ false
      → m.name ≡ lower f
      → IsBuilt (fs ++ (f ∷ [])) (add_field_pair (f ∷ []) (m ∷ []) mapping)
  unfolding add_field_pair
  add-IsBuilt fs f m mapping (there, back) fresh name =
      let alone : has f (map itself fs) ≡ false =
        ap (has f) (map-itself fs) ∙ has-lower f fs fresh in
      (
        ap (λ d. put (f ∷ []) (m.name ∷ []) d) there
            ∙ ap (λ n. put (f ∷ []) (n ∷ []) (pairs_of itself lower fs)) name
            ∙ put-pairs_of itself lower f fs alone,
        ap (λ d. put (m.name ∷ []) (f ∷ []) d) back
            ∙ ap (λ n. put (n ∷ []) (f ∷ []) (pairs_of lower itself fs)) name
            ∙ put-pairs_of lower itself f fs fresh,
      )

  add-AreNew :
      (f : String) (fs gs : List String)
      → AreNew fs gs
      → has (lower f) (map lower gs) ≡ false
      → AreNew (fs ++ (f ∷ [])) gs
  add-AreNew f fs [] new other = tt
  add-AreNew f fs (g ∷ gs) (first, rest) other = (
    has-append_lower (lower g) (f ∷ []) fs ∙ ground (arith, first, other),
    add-AreNew f fs gs rest (ground (arith, other)),
  )

  built-heads :
      (fs : List String) (mapping : Mapping)
      → IsBuilt fs mapping
      → key_heads mapping.fields_1_to_2 ≡ fs
  built-heads fs mapping built =
      ap key_heads built.0 ∙ key_heads-pairs_of itself lower fs ∙ map-itself fs

  pub map_by_name-Built :
      (fs before : List String) (mapping : Mapping) (unmapped : List String)
      → AreDistinct fs
      → AreNew before fs
      → IsBuilt before mapping
      → IsBuilt
          (before ++ keep has_counterpart fs)
          (map_by_name lower ros2_spec fs mapping unmapped).0
        × ((map_by_name lower ros2_spec fs mapping unmapped).1 ≡ unmapped ++ keep has_none fs)
  unfolding map_by_name
  map_by_name-Built [] before mapping unmapped distinct new built =
      (subst (λ l. IsBuilt l mapping) (sym (append-nil before)) built, sym (append-nil unmapped))
  map_by_name-Built (f ∷ fs) before mapping unmapped distinct new built =
      elim (Option-cases (counterpart lower f ros2_spec)) [
        | inl missing ↦
            let alone : has f (key_heads mapping.fields_1_to_2) ≡ false =
              ap (has f) (built-heads before mapping built) ∙ has-lower f before new.0 in
            let (rest, noted) =
              map_by_name-Built fs before mapping (unmapped ++ (f ∷ [])) distinct.1 new.1 built in
            rw (missing, alone, keep, map_by_name, map_field, note_unmapped)
              (rest, noted ∙ append_assoc unmapped (f ∷ []) (keep has_none fs))
        | inr (m, found) ↦
            let next : Mapping = add_field_pair (f ∷ []) (m ∷ []) mapping in
            let next_built : IsBuilt (before ++ (f ∷ [])) next =
              add-IsBuilt before f m mapping built new.0 (counterpart_name f ros2_spec m found) in
            let listed : has f (key_heads next.fields_1_to_2) ≡ true =
              ap (has f) (built-heads (before ++ (f ∷ [])) next next_built) ∙ has_last f before in
            let (rest, noted) =
              map_by_name-Built fs (before ++ (f ∷ [])) next unmapped distinct.1
                (add-AreNew f before fs new.1 distinct.0) next_built in
            rw (found, listed, keep, map_by_name, map_field, note_unmapped)
              (
                subst (λ l. IsBuilt l (map_by_name lower ros2_spec fs next unmapped).0)
                    (append_assoc before (f ∷ []) (keep has_counterpart fs)) rest,
                noted,
              )
      ]
