-- ===== src/Generator/Described.antt =====
-- The fields that two messages share by name, told apart from the loops of determine_field_mapping.
use ros1_bridge.Prelude.{
  ◌≡◌, refl, ap, ◌∙◌, sym, Bool, true, false, not, String, List, [], ◌∷◌, ◌↔◌, has, map, keep,
  is_some, Bool-cases, inl, inr, All, arith,
}
use ros1_bridge.Generator.{Member, member_names}
use ros1_bridge.Generator.FieldMapping.{counterpart, is_empty, is_named, all_named}
use ros1_bridge.Generator.Built.{has_counterpart, has_none}

keep_same :
    {p q : String → Bool} → ((f : String) → p f ≡ q f) → (fs : List String) → keep p fs ≡ keep q fs
keep_same same [] = refl
keep_same {p} {q} same (f ∷ fs) = go (p f) (q f) (same f) (keep_same same fs)
  where
    go :
        (a b : Bool)
        → a ≡ b
        → {xs ys : List String} → xs ≡ ys
        → elim a as (λ _. List String) [ true ↦ f ∷ xs | false ↦ xs ]
          ≡ elim b as (λ _. List String) [ true ↦ f ∷ ys | false ↦ ys ]
    go true true e h = ap (λ l. f ∷ l) h
    go true false e h = cc
    go false true e h = cc
    go false false e h = h

every_same :
    {p q : String → Bool}
    → ((f : String) → p f ≡ q f)
    → (fs : List String) → All (λ f. p f ≡ true) fs
    → All (λ f. q f ≡ true) fs
every_same same [] h = tt
every_same same (f ∷ fs) (first, rest) = (sym (same f) ∙ first, every_same same fs rest)

none_kept :
    (p : String → Bool) (fs : List String)
    → (is_empty (keep (λ f. not (p f)) fs) ≡ true) ↔ All (λ f. p f ≡ true) fs
none_kept p [] = (λ e. tt, λ h. refl)
none_kept p (f ∷ fs) = go (p f) refl (none_kept p fs)
  where
    go :
        (b : Bool)
        → p f ≡ b
        → (is_empty (keep (λ f. not (p f)) fs) ≡ true) ↔ All (λ f. p f ≡ true) fs
        → (is_empty (elim (not b) as (λ _. List String) [
          | true ↦ f ∷ keep (λ f. not (p f)) fs
          | false ↦ keep (λ f. not (p f)) fs
        ])
            ≡ true)
          ↔ ((p f ≡ true) × All (λ f. p f ≡ true) fs)
    go true e (there, back) = (λ h. (e, there h), λ h. back h.1)
    go false e (there, back) = (λ h. cc, λ h. let first = h.0 in cc)

module _ (lower : String → String) (ros2_spec : List Member) where
  -- ROS 2 has a member whose name is the field's in lower case.
  abbrev pub is_there : String → Bool
  is_there f = has (lower f) (member_names ros2_spec)

  -- ROS 2 has a member for each of the fields of ROS 1.
  abbrev pub Ros1IsCovered : List String → Type 0
  Ros1IsCovered fields = All (λ f. is_there f ≡ true) fields

  -- ROS 1 has a field for each of the members of ROS 2.
  abbrev pub Ros2IsCovered : List String → Type 0
  Ros2IsCovered fields = All (λ m. has m (map lower fields) ≡ true) (member_names ros2_spec)

  pub counterpart-has :
      (f : String) (ms : List Member)
      → is_some (counterpart lower f ms) ≡ has (lower f) (member_names ms)
  unfolding counterpart
  counterpart-has f [] = refl
  counterpart-has f (m ∷ ms) = ground (arith, counterpart-has f ms)

  pub keep-has_counterpart :
      (fields : List String) → keep (has_counterpart lower ros2_spec) fields ≡ keep is_there fields
  keep-has_counterpart fields = keep_same (λ f. counterpart-has f ros2_spec) fields

  pub none_left :
      (fields : List String)
      → (is_empty (keep (has_none lower ros2_spec) fields) ≡ true) ↔ Ros1IsCovered fields
  none_left fields =
      let (there, back) = none_kept (has_counterpart lower ros2_spec) fields in
      (
        λ e. every_same (λ f. counterpart-has f ros2_spec) fields (there e),
        λ h. back (every_same (λ f. sym (counterpart-has f ros2_spec)) fields h),
      )

  is_named-has :
      (m : String) (fields : List String) → is_named lower m fields ≡ has m (map lower fields)
  is_named-has m [] = refl
  is_named-has m (f ∷ fs) = ground (arith, is_named-has m fs)

  pub all_named-Ros2IsCovered :
      (fields : List String) (ms : List Member)
      → (all_named lower ms fields ≡ true)
        ↔ All (λ m. has m (map lower fields) ≡ true) (member_names ms)
  all_named-Ros2IsCovered fields [] = (λ e. tt, λ h. refl)
  all_named-Ros2IsCovered fields (m ∷ ms) =
      let (there, back) = all_named-Ros2IsCovered fields ms in
      let same = is_named-has m.name fields in
      elim (Bool-cases (is_named lower m.name fields)) [
        | inl e ↦ rw e (λ h. (sym same ∙ e, there h), λ h. back h.1)
        | inr e ↦ rw e (λ h. cc, λ h. let first = h.0 in cc)
      ]
