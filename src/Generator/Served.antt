-- ===== src/Generator/Served.antt =====
-- The two kinds of lookup that are generated agree: a pair of types that a mapping has is one for
-- which there is a factory.
use ros1_bridge.Prelude.{
  ◌≡◌, refl, sym, ap, subst, true, false, not, String, Option, none, some, List, [], ◌∷◌, ◌==◌,
  keep, map, has, All, is_some, ◌⊎◌, inl, inr, Bool-cases, string_discrete, ==_refl, arith,
  if◌then◌else◌,
}
use mathlib.Core.Bool.{and-eq-true_iff}
use mathlib.Core.Option.{some_inj}
use ros1_bridge.Factory.{Specialisation}
use ros1_bridge.Factory.Registry.{
  Generated, Package, ServiceMapping, ros1_name, ros2_name, first_some, builtin_mappings, select,
  get_1to2_mapping, get_2to1_mapping,
}
use ros1_bridge.Factory.Registry.Selection.{
  join, package_mappings, known_mappings, Fits, Looked, found, missing, select-Looked,
}
use ros1_bridge.Factory.Registry
use ros1_bridge.Generator.{Message, Mapping, has_message, ◌==ₘ◌}
use ros1_bridge.Generator.Filled.{
  names_of, is_mapped, mapped_msgs, of_package, fill_package, custom_packages, generate_cpp,
}
use ros1_bridge.Generator.Among.{
  Among, All-Among, Among-append_left, Among-append_right, Among-join, Among-keep, Among-map,
  has-Among,
}

has_message-Among :
    (m : Message) (ms : List Message)
    → has_message m ms ≡ true
    → (i : Message) × Among i ms
      × (i.package_name ≡ m.package_name)
      × (i.message_name ≡ m.message_name)
has_message-Among m [] e = cc
has_message-Among m (n ∷ ms) e = elim (Bool-cases (n ==ₘ m)) [
  | inl same ↦ (n, inl refl, ground (arith, same), ground (arith, same))
  | inr differ ↦
      let (i, there, p, q) = has_message-Among m ms (ground (arith, e, differ)) in
      (i, inr there, p, q)
]

-- A mapping whose message is one of a package that the templates are filled in for, or one of those
-- with a custom implementation.
abbrev pub IsServed : List String → List Message → Mapping → Type 0
IsServed package_names msgs m =
    ((has m.ros2_msg.package_name package_names ≡ true)
      × ((m.ros2_msg.package_name == "builtin_interfaces") ≡ false)
      × (has_message m.ros2_msg msgs ≡ true))
    ⊎ Among (names_of m) builtin_mappings

same_test : (s t : String) → s ≡ t → (s == t) ≡ true
same_test s t e = subst (λ u. (s == u) ≡ true) e (==_refl s)

looked_up :
    (r1 r2 : String) (ms : List Registry.Mapping) (o : Option Specialisation) (n : Registry.Mapping)
    → Looked r1 r2 ms o
    → Among n ms
    → Fits r1 r2 n
    → is_some o ≡ true
looked_up r1 r2 ms _ n (found s first) there fits = refl
looked_up r1 r2 ms _ n (missing none_fits) there fits =
    absurd (All-Among (λ m. ¬ Fits r1 r2 m) n ms none_fits there fits)

-- The mapping that a lookup by one of its two names has found.
mapping_of :
    (key value : Registry.Mapping → String) (k v : String) (ms : List Mapping)
    → first_some (λ m. if k == key m then some (value m) else none) (map names_of ms) ≡ some v
    → (m : Mapping) × Among m ms × (k ≡ key (names_of m)) × (v ≡ value (names_of m))
mapping_of key value k v [] e = cc
mapping_of key value k v (m ∷ ms) e = elim (string_discrete k (key (names_of m))) [
  | yes same ↦ (m, inl refl, same, sym (some_inj.0 (rw (same_test _ _ same, first_some) at e)))
  | no differ ↦
      let other : (k == key (names_of m)) ≡ false = ground (arith, differ) in
      let (n, there, first, second) = mapping_of key value k v ms (rw (other, first_some) at e) in
      (n, inr there, first, second)
]

module _ (package_names : List String) (msgs srvs : List Message) (mappings : List Mapping)
    (services : List ServiceMapping) where
  Among-package_mappings :
      (x : Registry.Mapping) (p : Package) (ps : List Package)
      → Among x (join p.messages)
      → Among p ps
      → Among x (package_mappings ps)
  Among-package_mappings x p (q ∷ ps) m (inl e) =
      Among-append_left x (join q.messages) (package_mappings ps)
        (subst (λ r. Among x (join r.messages)) e m)
  Among-package_mappings x p (q ∷ ps) m (inr n) =
      Among-append_right x (join q.messages) (package_mappings ps)
        (Among-package_mappings x p ps m n)
  Among-package_mappings x p [] m n = absurd n

  served-Among :
      (m : Mapping)
      → Among m mappings
      → IsServed package_names msgs m
      → Among (names_of m) (known_mappings (generate_cpp package_names msgs srvs mappings services))
  unfolding generate_cpp
  served-Among m there (inr builtin) =
      Among-append_left (names_of m) builtin_mappings
        (package_mappings
          (map (fill_package msgs srvs mappings services) (custom_packages package_names)))
        builtin
  served-Among m there (inl (named, custom, given)) =
      let p : String = m.ros2_msg.package_name in
      let (i, interface, same_package, same_name) = has_message-Among m.ros2_msg msgs given in
      let mapped : is_mapped p i m ≡ true =
        (and-eq-true_iff _ _).1 (==_refl p, same_test _ _ (sym same_name)) in
      let own : (i.package_name == p) ≡ true = same_test _ _ same_package in
      let in_interface : Among (names_of m) (mapped_msgs p mappings i) =
        Among-map names_of m (keep (is_mapped p i) mappings)
          (Among-keep (is_mapped p i) m mappings mapped there) in
      let in_package : Among (names_of m)
          (join (fill_package msgs srvs mappings services p).messages) =
        Among-join (names_of m) (mapped_msgs p mappings i)
          (map (mapped_msgs p mappings) (of_package p msgs)) in_interface
          (Among-map (mapped_msgs p mappings) i (of_package p msgs)
            (Among-keep (λ j. j.package_name == p) i msgs own interface)) in
      let package_there : Among p (custom_packages package_names) =
        Among-keep (λ name. not (name == "builtin_interfaces")) p package_names (ap not custom)
          (has-Among p package_names named) in
      Among-append_right (names_of m) builtin_mappings
        (package_mappings
          (map (fill_package msgs srvs mappings services) (custom_packages package_names)))
        (Among-package_mappings (names_of m) (fill_package msgs srvs mappings services p)
          (map (fill_package msgs srvs mappings services) (custom_packages package_names))
          in_package
          (Among-map (fill_package msgs srvs mappings services) p (custom_packages package_names)
            package_there))

  served_select :
      (m : Mapping) (r1 r2 : String)
      → Among m mappings
      → IsServed package_names msgs m
      → r1 ≡ ros1_name (names_of m)
      → r2 ≡ ros2_name (names_of m)
      → is_some (select (generate_cpp package_names msgs srvs mappings services) r1 r2) ≡ true
  served_select m r1 r2 there served first second =
      let gen : Generated = generate_cpp package_names msgs srvs mappings services in
      looked_up r1 r2 (known_mappings gen) (select gen r1 r2) (names_of m) (select-Looked gen r1 r2)
        (served-Among m there served) (inl first, second)

  -- Where each mapping is for a message of a package that the templates are filled in for, or is one
  -- of the two with a custom implementation: for each pair of type names that the generated lookup
  -- of mappings gives, in either direction, the generated lookup of factories finds one.
  pub mapped_types_served :
      (r1 r2 : String)
      → All (IsServed package_names msgs) mappings
      → (get_1to2_mapping (generate_cpp package_names msgs srvs mappings services) r1 ≡ some r2)
        ⊎ (get_2to1_mapping (generate_cpp package_names msgs srvs mappings services) r2 ≡ some r1)
      → is_some (select (generate_cpp package_names msgs srvs mappings services) r1 r2) ≡ true
  unfolding generate_cpp get_1to2_mapping get_2to1_mapping
  mapped_types_served r1 r2 served (inl e) =
      let (m, there, first, second) = mapping_of ros1_name ros2_name r1 r2 mappings e in
      served_select m r1 r2 there (All-Among (IsServed package_names msgs) m mappings served there)
        first second
  mapped_types_served r1 r2 served (inr e) =
      let (m, there, second, first) = mapping_of ros2_name ros1_name r2 r1 mappings e in
      served_select m r1 r2 there (All-Among (IsServed package_names msgs) m mappings served there)
        first second
