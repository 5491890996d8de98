-- ===== src/Factory/Registry/Selection.antt =====
-- Which factory and which mapping a pair of type names gets.
use ros1_bridge.Prelude.{
  String, ◌≡◌, refl, Option, none, some, List, [], ◌∷◌, ◌++◌, arith, ◌⊎◌, inl, inr, All, subst,
  string_discrete,
}
use ros1_bridge.Prelude.Exec.{throw, runtime_error}
use ros1_bridge.Ros.{Ros}
use ros1_bridge.Factory.{Specialisation, make_factory}
use ros1_bridge.Factory.Registry.{
  Mapping, Package, Generated, ros1_name, ros2_name, first_some, specialise, builtin_mappings,
  get_factory_package, select, get_factory, no_specialisation,
}

-- The mappings that the generated code tests, in the order of its tests.
abbrev pub join {ℓ} : {A : Type ℓ} → List (List A) → List A
join [] = []
join (xs ∷ xss) = xs ++ join xss

abbrev pub package_mappings : List Package → List Mapping
package_mappings [] = []
package_mappings (p ∷ ps) = join p.messages ++ package_mappings ps

abbrev pub known_mappings : Generated → List Mapping
known_mappings gen = builtin_mappings ++ package_mappings gen.packages

-- The first of two answers.
abbrev or_else {ℓ} : {A : Type ℓ} → Option A → Option A → Option A
or_else (some a) b = some a
or_else none b = b

module _ {ℓ κ} {A : Type ℓ} {B : Type κ} where
  first_some-append :
      (f : A → Option B) (xs ys : List A)
      → first_some f (xs ++ ys) ≡ or_else (first_some f xs) (first_some f ys)
  first_some-append f [] ys = refl
  first_some-append f (x ∷ xs) ys = ground (arith, first_some-append f xs ys)

  first_some-join :
      (f : A → Option B) (xss : List (List A))
      → first_some (first_some f) xss ≡ first_some f (join xss)
  first_some-join f [] = refl
  first_some-join f (xs ∷ xss) =
      ground (arith, first_some-append f xs (join xss), first_some-join f xss)

-- The condition of the generated tests.
abbrev pub Fits : String → String → Mapping → Type 0
Fits r1 r2 m = ((r1 ≡ ros1_name m) ⊎ (r1 ≡ "")) × (r2 ≡ ros2_name m)

-- The specialisation for the first mapping that fits, and the absence of such a mapping.
pub data IsFirstFit (r1 r2 : String) : List Mapping → Specialisation → Type 0 where
  here :
      {m : Mapping} {ms : List Mapping}
      → Fits r1 r2 m
      → IsFirstFit r1 r2 (m ∷ ms) (record {
        ros1_message = ros1_name m;
        ros2_message = ros2_name m;
        ros1_type_name = ros1_name m;
        ros2_type_name = r2;
      })
  later :
      {m : Mapping} {ms : List Mapping} {s : Specialisation}
      → ¬ Fits r1 r2 m
      → IsFirstFit r1 r2 ms s
      → IsFirstFit r1 r2 (m ∷ ms) s

pub data Looked (r1 r2 : String) (ms : List Mapping) : Option Specialisation → Type 0 where
  found : (s : Specialisation) → IsFirstFit r1 r2 ms s → Looked r1 r2 ms (some s)
  missing : All (λ m. ¬ Fits r1 r2 m) ms → Looked r1 r2 ms none

Fits-Dec : (r1 r2 : String) (m : Mapping) → Dec (Fits r1 r2 m)
Fits-Dec r1 r2 m =
    go (string_discrete r1 (ros1_name m)) (string_discrete r1 "") (string_discrete r2 (ros2_name m))
  where
    go : {P Q R : Type 0} → Dec P → Dec Q → Dec R → Dec ((P ⊎ Q) × R)
    go (yes p) q (yes r) = yes (inl p, r)
    go (no p) (yes q) (yes r) = yes (inr q, r)
    go (no p) (no q) (yes r) = no λ fits. elim fits.0 [ inl x ↦ p x | inr x ↦ q x ]
    go p q (no r) = no λ fits. r fits.1

specialise_fit :
    (r1 r2 : String) (m : Mapping)
    → Fits r1 r2 m
    → specialise r1 r2 m
      ≡ some (record {
        ros1_message = ros1_name m;
        ros2_message = ros2_name m;
        ros1_type_name = ros1_name m;
        ros2_type_name = r2;
      })
unfolding specialise
specialise_fit r1 r2 m fits = ground arith

specialise_misfit : (r1 r2 : String) (m : Mapping) → ¬ Fits r1 r2 m → specialise r1 r2 m ≡ none
unfolding specialise
specialise_misfit r1 r2 m misfit = ground arith

first_some-Looked :
    (r1 r2 : String) (ms : List Mapping) → Looked r1 r2 ms (first_some (specialise r1 r2) ms)
first_some-Looked r1 r2 [] = missing tt
first_some-Looked r1 r2 (m ∷ ms) = elim (Fits-Dec r1 r2 m) [
  | yes fits ↦ rw (specialise_fit r1 r2 m fits, first_some) (found _ (here fits))
  | no misfit ↦
      rw (specialise_misfit r1 r2 m misfit, first_some) (after misfit (first_some-Looked r1 r2 ms))
]
  where
    after :
        {m : Mapping} {ms : List Mapping} {o : Option Specialisation}
        → ¬ Fits r1 r2 m
        → Looked r1 r2 ms o
        → Looked r1 r2 (m ∷ ms) o
    after misfit (found s first) = found s (later misfit first)
    after misfit (missing none_fits) = missing (misfit, none_fits)

first_some-packages :
    (r1 r2 : String) (ps : List Package)
    → first_some (get_factory_package r1 r2) ps
      ≡ first_some (specialise r1 r2) (package_mappings ps)
first_some-packages r1 r2 [] = refl
first_some-packages r1 r2 (p ∷ ps) = ground (
  arith,
  first_some-join (specialise r1 r2) p.messages,
  first_some-append (specialise r1 r2) (join p.messages) (package_mappings ps),
  first_some-packages r1 r2 ps,
)

pub select-Looked :
    (gen : Generated) (r1 r2 : String) → Looked r1 r2 (known_mappings gen) (select gen r1 r2)
unfolding select
select-Looked gen r1 r2 =
    subst (Looked r1 r2 (known_mappings gen))
      (ground (
        arith,
        first_some-append (specialise r1 r2) builtin_mappings (package_mappings gen.packages),
        first_some-packages r1 r2 gen.packages,
      ))
      (first_some-Looked r1 r2 (known_mappings gen))

-- A lookup of a factory makes the one for the first known mapping that fits the two type names;
-- where none fits it throws the `runtime_error` and leaves the state as it was.
pub get_factory-Looked :
    (ros : Ros) (gen : Generated) (r1 r2 : String) (w : ros.World)
    → ((s : Specialisation) × IsFirstFit r1 r2 (known_mappings gen) s
        × (get_factory ros gen r1 r2 w ≡ make_factory ros s w))
      ⊎ (All (λ m. ¬ Fits r1 r2 m) (known_mappings gen)
          × (get_factory ros gen r1 r2 w ≡ (throw (runtime_error no_specialisation), w)))
unfolding get_factory
get_factory-Looked ros gen r1 r2 w = go (select gen r1 r2) refl (select-Looked gen r1 r2)
  where
    go :
        (o : Option Specialisation)
        → select gen r1 r2 ≡ o
        → Looked r1 r2 (known_mappings gen) o
        → ((s : Specialisation) × IsFirstFit r1 r2 (known_mappings gen) s
            × (get_factory ros gen r1 r2 w ≡ make_factory ros s w))
          ⊎ (All (λ m. ¬ Fits r1 r2 m) (known_mappings gen)
              × (get_factory ros gen r1 r2 w ≡ (throw (runtime_error no_specialisation), w)))
    go (some s) e (found _ first) = inl (s, first, rw (e, get_factory) refl)
    go none e (missing none_fits) = inr (none_fits, rw (e, get_factory) refl)
