-- ===== src/Generator/Sorted.antt =====
-- What the topological order gives.
use mathlib.Core.List.Perm
use mathlib.Core.List.{Perm, append_assoc, append-nil}
use ros1_bridge.Prelude.{
  ℕ, zero, suc, ◌≤◌, ◌≡◌, refl, sym, ap, ◌∙◌, Bool, true, false, not, ◌&&◌, ◌||◌, Option, none,
  some, List, [], ◌∷◌, ◌++◌, length, keep, map, All, ◌⊎◌, inl, inr, Bool-cases, arith, subst,
}
use ros1_bridge.Generator.{Message, Mapping, has_message, ◌==ₘ◌}
use ros1_bridge.Generator.Order.{
  set_dependencies, satisfy, skip, pick_or, pick, Ordered, go_on, order, order_mappings,
}

-- The dependencies that are not among `seen`.
abbrev missing : List Message → List Message → List Message
missing seen ds = keep (λ d. not (has_message d seen)) ds

-- A mapping after those of the messages `seen` have been ordered.
abbrev pub without : List Message → Mapping → Mapping
without seen m = set_dependencies (missing seen m.depends_on_ros2_messages) m

-- A mapping as it stands in the order.
abbrev pub released : Mapping → Mapping
released m = set_dependencies [] m

-- Each mapping's dependencies are messages of ROS 2 of mappings that stand before it.
abbrev pub IsTopological : List Message → List Mapping → Type 0
IsTopological seen [] = Unit
IsTopological seen (m ∷ ms) =
    All (λ d. has_message d seen ≡ true) m.depends_on_ros2_messages
    × IsTopological (m.ros2_msg ∷ seen) ms

abbrev pub seen_after : List Message → List Mapping → List Message
seen_after seen [] = seen
seen_after seen (m ∷ ms) = seen_after (m.ros2_msg ∷ seen) ms

-- Some dependency is not among `seen`.
abbrev pub lacks : List Message → List Message → Bool
lacks seen [] = false
lacks seen (d ∷ ds) = not (has_message d seen) || lacks seen ds

keep-keep :
    {A : Type 0} (p q r : A → Bool)
    → ((x : A) → r x ≡ (q x && p x))
    → (xs : List A) → keep p (keep q xs) ≡ keep r xs
keep-keep p q r both [] = refl
keep-keep p q r both (x ∷ xs) = ground (arith, both x, keep-keep p q r both xs)

not-or : (a b : Bool) → not (a || b) ≡ (not b && not a)
not-or a b = ground arith

satisfied :
    (r : Message) (seen ds : List Message)
    → keep (λ d. not (r ==ₘ d)) (missing seen ds) ≡ missing (r ∷ seen) ds
satisfied r seen ds =
    keep-keep (λ d. not (r ==ₘ d)) (λ d. not (has_message d seen))
      (λ d. not (has_message d (r ∷ seen))) (λ d. not-or (r ==ₘ d) (has_message d seen)) ds

nothing_missing :
    (seen ds : List Message) → missing seen ds ≡ [] → All (λ d. has_message d seen ≡ true) ds
nothing_missing seen [] e = tt
nothing_missing seen (d ∷ ds) e = elim (Bool-cases (has_message d seen)) [
  | inl known ↦ (known, nothing_missing seen ds (rw (known, keep) at e))
  | inr unknown ↦ let bad : d ∷ missing seen ds ≡ [] = rw (unknown, keep) at e in cc
]

something_missing :
    (seen ds : List Message) (d : Message) (rest : List Message)
    → missing seen ds ≡ d ∷ rest
    → lacks seen ds ≡ true
something_missing seen [] d rest e = cc
something_missing seen (x ∷ ds) d rest e = elim (Bool-cases (has_message x seen)) [
  | inl known ↦ rw known (something_missing seen ds d rest (rw (known, keep) at e))
  | inr unknown ↦ rw unknown refl
]

-- A first mapping that can go, or that every one lacks a message.
Picked : List Message → List Mapping → Option (Mapping × List Mapping) → Type 0
Picked seen ms picked =
    ((picked ≡ none) × All (λ m. lacks seen m.depends_on_ros2_messages ≡ true) ms)
    ⊎ ((m : Mapping) × (rest : List Mapping) × (picked ≡ some (released m, map (without seen) rest))
        × All (λ d. has_message d seen ≡ true) m.depends_on_ros2_messages
        × Perm ms (m ∷ rest)
        × (length ms ≡ suc (length rest)))

skip-Picked :
    (seen : List Message) (m : Mapping) (ms : List Mapping)
    (picked : Option (Mapping × List Mapping))
    → lacks seen m.depends_on_ros2_messages ≡ true
    → Picked seen ms picked
    → Picked seen (m ∷ ms) (skip (without seen m) picked)
unfolding Picked
skip-Picked seen m ms picked lacking (inl (e, stuck)) =
    inl (ap (skip (without seen m)) e, (lacking, stuck))
skip-Picked seen m ms picked lacking (inr (p, rest, e, known, perm, size)) = inr (
  p,
  m ∷ rest,
  ap (skip (without seen m)) e,
  known,
  Perm.trans (Perm.cons m perm) (Perm.swap p m rest),
  ap suc size,
)

List-cases :
    (ds : List Message) → (ds ≡ []) ⊎ ((d : Message) × (rest : List Message) × (ds ≡ d ∷ rest))
List-cases [] = inl refl
List-cases (d ∷ ds) = inr (d, ds, refl)

pick-Picked :
    (seen : List Message) (ms : List Mapping) → Picked seen ms (pick (map (without seen) ms))
unfolding Picked pick
pick-Picked seen [] = inl (refl, tt)
pick-Picked seen (m ∷ ms) = elim (List-cases (missing seen m.depends_on_ros2_messages)) [
  | inl free ↦ rw free (
      inr (
        m,
        ms,
        refl,
        nothing_missing seen m.depends_on_ros2_messages free,
        Perm.refl (m ∷ ms),
        refl,
      ))
  | inr (d, rest, e) ↦
      subst
        (λ ds.
          Picked seen (m ∷ ms)
            (pick_or ds (without seen m) (map (without seen) ms) (pick (map (without seen) ms))))
        (sym e)
        (skip-Picked seen m ms (pick (map (without seen) ms))
          (something_missing seen m.depends_on_ros2_messages d rest e) (pick-Picked seen ms))
]

map_satisfied :
    (r : Message) (seen : List Message) (ms : List Mapping)
    → map (satisfy r) (map (without seen) ms) ≡ map (without (r ∷ seen)) ms
map_satisfied r seen [] = refl
map_satisfied r seen (m ∷ ms) =
    ap (λ ds. set_dependencies ds m ∷ map (satisfy r) (map (without seen) ms))
      (satisfied r seen m.depends_on_ros2_messages)
    ∙ ap (λ l. without (r ∷ seen) m ∷ l) (map_satisfied r seen ms)

-- What is ordered, in `os`, behind what was there, and what is left, in `ls`.
abbrev pub IsSplit :
    List Message → List Mapping → List Mapping → Option Ordered → (os ls : List Mapping) → Type 0
IsSplit seen before ms result os ls =
    (result ≡ some (before ++ map released os, map (without (seen_after seen os)) ls))
    × IsTopological seen os
    × Perm ms (os ++ ls)
    × All (λ m. lacks (seen_after seen os) m.depends_on_ros2_messages ≡ true) ls

order-IsSplit :
    (rounds : ℕ) (before : List Mapping) (seen : List Message) (ms : List Mapping)
    → length ms ≤ rounds
    → (os ls : List Mapping) × IsSplit seen before ms
        (order rounds before (map (without seen) ms))
        os
        ls
unfolding order Picked
order-IsSplit zero before seen [] h =
    ([], [], (ap (λ l. some (l, [])) (sym (append-nil before)), tt, Perm.refl [], tt))
order-IsSplit (suc n) before seen [] h =
    ([], [], (ap (λ l. some (l, [])) (sym (append-nil before)), tt, Perm.refl [], tt))
order-IsSplit zero before seen (m ∷ ms) h = absurd (omega (arith, h))
order-IsSplit (suc n) before seen (m ∷ ms) h = elim (pick-Picked seen (m ∷ ms)) [
  | inl (e, stuck) ↦ (
    [],
    m ∷ ms,
    (
      ap (go_on (order n) before (map (without seen) (m ∷ ms))) e
          ∙ ap (λ l. some (l, map (without seen) (m ∷ ms))) (sym (append-nil before)),
      tt,
      Perm.refl (m ∷ ms),
      stuck,
    ),
  )
  | inr (p, rest, e, known, perm, size) ↦
      let (os, ls, (result, sorted, same, left)) =
        order-IsSplit n (before ++ (released p ∷ [])) (p.ros2_msg ∷ seen) rest
          (omega (arith, h, size)) in
      (
        p ∷ os,
        ls,
        (
          ap (go_on (order n) before (map (without seen) (m ∷ ms))) e
              ∙ ap (order n (before ++ (released p ∷ []))) (map_satisfied p.ros2_msg seen rest)
              ∙ result
              ∙ ap (λ l. some (l, map (without (seen_after (p.ros2_msg ∷ seen) os)) ls))
                  (append_assoc before (released p ∷ []) (map released os)),
          (known, sorted),
          Perm.trans perm (Perm.cons p same),
          left,
        ),
      )
]

all_missing : (ds : List Message) → missing [] ds ≡ ds
all_missing [] = refl
all_missing (d ∷ ds) = ap (λ l. d ∷ l) (all_missing ds)

without_none : (ms : List Mapping) → map (without []) ms ≡ ms
without_none [] = refl
without_none (m ∷ ms) =
    ap (λ ds. set_dependencies ds m ∷ map (without []) ms) (all_missing m.depends_on_ros2_messages)
    ∙ ap (λ l. m ∷ l) (without_none ms)

-- The order ends within one round for each mapping. What is ordered and what is left are the
-- mappings that were given: each ordered one stands behind mappings for all the messages that it
-- depends on, and each one that is left depends on a message that no ordered mapping is for.
pub order_mappings-IsSplit :
    (mappings : List Mapping)
    → (os ls : List Mapping) × IsSplit [] [] mappings (order_mappings mappings) os ls
unfolding order_mappings
order_mappings-IsSplit mappings =
    subst
      (λ l. (os ls : List Mapping) × IsSplit [] [] mappings (order (length mappings) [] l) os ls)
      (without_none mappings) (order-IsSplit (length mappings) [] [] mappings (omega arith))
