-- ===== src/Messages/Typed.antt =====
-- A selection in a message of a declared type has the type that the declaration says, and an
-- assignment of a value of that type keeps the message's type.
use ros1_bridge.Prelude.{
  ◌≡◌, refl, sym, subst, Bool-cases, Option-cases, inl, inr, String, none, some, List, [], ◌∷◌,
  ◌==◌,
}
use mathlib.Core.Option.{some_inj}
use ros1_bridge.Messages.{Value, Members, get, set, find_member, member_of, change, change_member}
use ros1_bridge.Messages.Types.{FieldType, Spec, HasType, HasMembers, find_field, field_of, type_at}

find_member-HasType :
    (ms : Members) (s : Spec) (f : String) (σ : FieldType)
    → HasMembers ms s
    → find_field f s ≡ some σ
    → (v : Value) × (find_member f ms ≡ some v) × HasType v σ
find_member-HasType _ _ f σ HasMembers.end e = cc
find_member-HasType _ _ f σ (HasMembers.member {name} {v} {τ} {ms} {s} h hs) e =
    elim (Bool-cases (name == f)) [
      | inl same ↦
          let here : τ ≡ σ = some_inj.0 (rw same at e) in
          (v, rw same refl, subst (λ t. HasType v t) here h)
      | inr differ ↦
          let (x, found, typed) = find_member-HasType ms s f σ hs (rw differ at e) in
          (x, rw differ found, typed)
    ]

member_of-HasType :
    (v : Value) (τ : FieldType) (f : String) (σ : FieldType)
    → HasType v τ
    → field_of f τ ≡ some σ
    → (x : Value) × (member_of f v ≡ some x) × HasType x σ
member_of-HasType _ _ f σ (HasType.struct {ms} {s} hs) e = find_member-HasType ms s f σ hs e
member_of-HasType _ _ f σ (HasType.primitive h) e = cc
member_of-HasType _ _ f σ (HasType.duration_1 _ _) e = cc
member_of-HasType _ _ f σ (HasType.duration_2 _ _) e = cc
member_of-HasType _ _ f σ (HasType.time_1 _ _) e = cc
member_of-HasType _ _ f σ (HasType.time_2 _ _) e = cc
member_of-HasType _ _ f σ (HasType.unbounded _) e = cc
member_of-HasType _ _ f σ (HasType.bounded _ _) e = cc
member_of-HasType _ _ f σ (HasType.fixed _ _) e = cc

pub get-HasType :
    (path : List String) (v : Value) (τ σ : FieldType)
    → HasType v τ
    → type_at path τ ≡ some σ
    → (x : Value) × (get path v ≡ some x) × HasType x σ
unfolding get
get-HasType [] v τ σ h e = (v, refl, subst (λ t. HasType v t) (some_inj.0 e) h)
get-HasType (f ∷ path) v τ σ h e = elim (Option-cases (field_of f τ)) [
  | inl missing ↦ let bad : none ≡ some σ = rw missing at e in cc
  | inr (ρ, known) ↦
      let (x, found, typed) = member_of-HasType v τ f ρ h known in
      let (y, inner, typed') = get-HasType path x ρ σ typed (rw known at e) in
      (y, rw (found, inner) refl, typed')
]

change_member-HasMembers :
    (ms : Members) (s : Spec) (f : String) (ρ : FieldType) (h : Value → Value)
    → HasMembers ms s
    → find_field f s ≡ some ρ
    → ((x : Value) → HasType x ρ → HasType (h x) ρ)
    → HasMembers (change_member f h ms) s
change_member-HasMembers _ _ f ρ h HasMembers.end e keeps = HasMembers.end
change_member-HasMembers _ _ f ρ h (HasMembers.member {name} {v} {τ} {ms} {s} t ts) e keeps =
    elim (Bool-cases (name == f)) [
      | inl same ↦
          let here : ρ ≡ τ = sym (some_inj.0 (rw same at e)) in
          let kept : HasType (h v) τ =
            subst (λ t'. HasType v t' → HasType (h v) t') here (keeps v) t in
          rw same (HasMembers.member kept ts)
      | inr differ ↦
          rw differ
            (HasMembers.member t (change_member-HasMembers ms s f ρ h ts (rw differ at e) keeps))
    ]

change-HasType :
    (v : Value) (τ : FieldType) (f : String) (ρ : FieldType) (h : Value → Value)
    → HasType v τ
    → field_of f τ ≡ some ρ
    → ((x : Value) → HasType x ρ → HasType (h x) ρ)
    → HasType (change f h v) τ
change-HasType _ _ f ρ h (HasType.struct {ms} {s} hs) e keeps =
    HasType.struct (change_member-HasMembers ms s f ρ h hs e keeps)
change-HasType _ _ f σ h (HasType.primitive t) e keeps = HasType.primitive t
change-HasType _ _ f σ h (HasType.duration_1 a b) e keeps = HasType.duration_1 a b
change-HasType _ _ f σ h (HasType.duration_2 a b) e keeps = HasType.duration_2 a b
change-HasType _ _ f σ h (HasType.time_1 a b) e keeps = HasType.time_1 a b
change-HasType _ _ f σ h (HasType.time_2 a b) e keeps = HasType.time_2 a b
change-HasType _ _ f σ h (HasType.unbounded a) e keeps = HasType.unbounded a
change-HasType _ _ f σ h (HasType.bounded a b) e keeps = HasType.bounded a b
change-HasType _ _ f σ h (HasType.fixed a b) e keeps = HasType.fixed a b

pub set-HasType :
    (path : List String) (v : Value) (τ σ : FieldType) (w : Value)
    → HasType v τ
    → type_at path τ ≡ some σ
    → HasType w σ
    → HasType (set path w v) τ
unfolding set
set-HasType [] v τ σ w h e t = subst (λ t'. HasType w t') (sym (some_inj.0 e)) t
set-HasType (f ∷ path) v τ σ w h e t = elim (Option-cases (field_of f τ)) [
  | inl missing ↦ let bad : none ≡ some σ = rw missing at e in cc
  | inr (ρ, known) ↦
      change-HasType v τ f ρ (set path w) h known
        (λ x typed. set-HasType path x ρ σ w typed (rw known at e) t)
]
