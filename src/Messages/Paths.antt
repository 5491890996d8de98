-- ===== src/Messages/Paths.antt =====
-- Selections and assignments: what one reads after the other, and their types.
use ros1_bridge.Prelude.{
  ◌≡◌, refl, ap, ◌∙◌, Bool, true, not, ◌||◌, String, Option, none, some, List, [], ◌∷◌, ◌==◌,
  Bool-cases, inl, inr, arith, Option-cases, subst,
}
use mathlib.Core.Option
use mathlib.Core.Option.{some_inj}
use ros1_bridge.Messages.{
  Value, and_then, Members, message, end, member, get, set, find_member, change_member,
}

-- Neither selection lies within the other.
abbrev pub apart : List String → List String → Bool
apart (f ∷ p) (g ∷ q) = not (f == g) || apart p q
apart p q = Bool.false

find_member-change :
    (f : String) (h : Value → Value) (ms : Members)
    → find_member f (change_member f h ms) ≡ Option.map h (find_member f ms)
find_member-change f h end = refl
find_member-change f h (member g w ms) = ground (arith, find_member-change f h ms)

find_member-change_other :
    (f g : String) (h : Value → Value) (ms : Members)
    → (f == g) ≡ Bool.false
    → find_member f (change_member g h ms) ≡ find_member f ms
find_member-change_other f g h end ne = refl
find_member-change_other f g h (member k w ms) ne =
    ground (arith, find_member-change_other f g h ms ne)

pub get_set_same :
    (path : List String) (w v u : Value) → get path v ≡ some u → get path (set path w v) ≡ some w
unfolding get set
get_set_same [] w v u e = refl
get_set_same (f ∷ path) w (message ms) u e = elim (Option-cases (find_member f ms)) [
  | inl missing ↦ let bad : none ≡ some u = rw missing at e in cc
  | inr (x, found) ↦
      rw (find_member-change f (set path w) ms, found) (get_set_same path w x u (rw found at e))
]
get_set_same (f ∷ path) w v u e = cc

and_then-map {ℓ} :
    {A : Type ℓ} (h : Value → Value) (k : Value → Option A) (o : Option Value)
    → ((v : Value) → k (h v) ≡ k v)
    → and_then (Option.map h o) k ≡ and_then o k
and_then-map h k none same = refl
and_then-map h k (some v) same = same v

pub get_set-apart :
    (p q : List String) (w v : Value) → apart p q ≡ true → get p (set q w v) ≡ get p v
unfolding get set
get_set-apart [] q w v e = cc
get_set-apart (f ∷ p) [] w v e = cc
get_set-apart (f ∷ p) (g ∷ q) w (message ms) e = elim (Bool-cases (f == g)) [
  | inl same ↦
      let names : f ≡ g = ground (arith, same) in
      let rest : apart p q ≡ true = rw same at e in
      subst
        (λ k.
          and_then (find_member f (change_member k (set q w) ms)) (get p)
          ≡ and_then (find_member f ms) (get p))
        names
        (ap (λ o. and_then o (get p)) (find_member-change f (set q w) ms)
          ∙ and_then-map (set q w) (get p) (find_member f ms) (λ v. get_set-apart p q w v rest))
  | inr differ ↦ rw (find_member-change_other f g (set q w) ms differ) refl
]
get_set-apart (f ∷ p) (g ∷ q) w v e = refl
