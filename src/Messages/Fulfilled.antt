-- ===== src/Messages/Fulfilled.antt =====
-- What a generated conversion has done to the message that it was given.
use ros1_bridge.Prelude.{
  suc, ◌≡◌, refl, sym, ap, ◌∙◌, true, String, Option, none, some, List, Bool-cases, inl, inr,
  if◌then◌else◌, subst,
}
use mathlib.Core.Bool.{and-eq-true_iff}
use ros1_bridge.Prelude.Exec.{Result, ok, throw, other, ok_value}
use ros1_bridge.Prelude.Results.{Result-bind_ok, ◌>>=◌}
use ros1_bridge.Messages.{
  Value, Elements, Container, single, sequence, bounded_sequence, array, Conversion, copied,
  builtin, sub_message, FieldPairs, done, pair, Side, size, resized, elements_of, fresh_element,
  get, set, present, source_fields, target_fields, copy, convert_each, admits, convert_field,
  convert_value, convert,
}
use ros1_bridge.Messages.Preserved.{size-resized}
use ros1_bridge.Messages.Paths.{get_set_same, get_set-apart}
use ros1_bridge.Messages.Specified.{
  Together, Vectors, InContainer, IsConversion, Fulfils, leaves, is_distinct, are_distinct,
}

elements_ok : (x : Value) (xs : Elements) → elements_of x ≡ ok xs → x ≡ Value.vector xs
elements_ok (Value.vector ys) xs e = ap (λ l. Value.vector l) (ok_value e)
elements_ok x xs e = cc

-- A field that a loop over two vectors fills.
filled-Vectors :
    (R : Elements → Elements → Type 0) (fill : Elements → Elements → Result Elements)
    → ((xs ys zs : Elements) → fill xs ys ≡ ok zs → R xs zs)
    → (x y z : Value)
    → (elements_of x >>= λ xs. elements_of y >>= λ ys. fill xs ys >>= λ zs. ok (Value.vector zs))
      ≡ ok z
    → Vectors R x z
filled-Vectors R fill right x y z e =
    let write : Elements → Result Value = λ zs. ok (Value.vector zs) in
    let (xs, source, e₁) =
      Result-bind_ok (elements_of x) (λ xs. elements_of y >>= λ ys. fill xs ys >>= write) e in
    let (ys, target, e₂) = Result-bind_ok (elements_of y) (λ ys. fill xs ys >>= write) e₁ in
    let (zs, loop, e₃) = Result-bind_ok (fill xs ys) write e₂ in
    let from : x ≡ Value.vector xs = elements_ok x xs source in
    subst (λ w. Vectors R w z) (sym from)
      (subst (λ w. Vectors R (Value.vector xs) w) (ok_value e₃) (right xs ys zs loop))

module _ (R : Value → Value → Type 0) (convert_one : Value → Value → Result Value)
    (right : (x y z : Value) → convert_one x y ≡ ok z → R x z) where
  convert_each-Together :
      (xs ys zs : Elements)
      → convert_each convert_one xs ys ≡ ok zs
      → (size zs ≡ size ys) × Together R xs zs
  unfolding convert_each
  convert_each-Together Elements.nil ys zs e = (ap size (sym (ok_value e)), tt)
  convert_each-Together (Elements.cons x xs) Elements.nil zs e =
      subst (λ l. (size l ≡ 0) × Together R (Elements.cons x xs) l) (ok_value e) (refl, tt)
  convert_each-Together (Elements.cons x xs) (Elements.cons y ys) zs e =
      let (z, first, e₁) =
        Result-bind_ok (convert_one x y)
          (λ z. convert_each convert_one xs ys >>= λ zs. ok (Elements.cons z zs)) e in
      let (rest, loop, e₂) =
        Result-bind_ok (convert_each convert_one xs ys) (λ zs. ok (Elements.cons z zs)) e₁ in
      let (same, together) = convert_each-Together xs ys rest loop in
      subst (λ l. (size l ≡ suc (size ys)) × Together R (Elements.cons x xs) l) (ok_value e₂)
        (ap suc same, (right x y z first, together))

  convert_resized-Together :
      (fresh : Value) (xs ys zs : Elements)
      → convert_each convert_one xs (resized fresh (size xs) ys) ≡ ok zs
      → (size zs ≡ size xs) × Together R xs zs
  convert_resized-Together fresh xs ys zs e =
      let (same, together) = convert_each-Together xs (resized fresh (size xs) ys) zs e in
      (same ∙ size-resized fresh (size xs) ys, together)

  convert_field-InContainer :
      (side : Side) (container : Container) (x y z : Value)
      → convert_field side container convert_one x y ≡ ok z
      → InContainer container R x z
  unfolding convert_field
  convert_field-InContainer side single x y z e = right x y z e
  convert_field-InContainer side (sequence f g) x y z e =
      filled-Vectors _
        (λ xs ys. convert_each convert_one xs (resized (fresh_element side f g) (size xs) ys))
        (convert_resized-Together (fresh_element side f g)) x y z e
  convert_field-InContainer side (bounded_sequence maximum_size f g) x y z e =
      filled-Vectors _
        (λ xs ys.
          if admits side maximum_size (size xs)
          then convert_each convert_one xs (resized (fresh_element side f g) (size xs) ys)
          else throw (other "assertion failed"))
        (λ xs ys zs e'. elim (Bool-cases (admits side maximum_size (size xs))) [
          | inl fits ↦ convert_resized-Together (fresh_element side f g) xs ys zs (rw fits at e')
          | inr over ↦ let bad : throw (other "assertion failed") ≡ ok zs = rw over at e' in cc
        ])
        x y z e
  convert_field-InContainer side array x y z e =
      filled-Vectors _ (convert_each convert_one)
        (λ xs ys zs e'. (convert_each-Together xs ys zs e').1) x y z e

present_of_ok : (o : Option Value) (x : Value) → present o ≡ ok x → o ≡ some x
present_of_ok none x e = cc
present_of_ok (some y) x e = ap (λ w. some w) (ok_value e)

-- The parts of one statement that returned.
statement_returned :
    (source target out : Value) (p q : List String) (convert_one : Value → Value → Result Value)
    (go_on : Value → Result Value)
    → (present (get p source) >>= λ x.
        present (get q target) >>= λ y. convert_one x y >>= λ z. go_on (set q z target))
      ≡ ok out
    → (x y z : Value) × (get p source ≡ some x)
      × (get q target ≡ some y)
      × (convert_one x y ≡ ok z)
      × (go_on (set q z target) ≡ ok out)
statement_returned source target out p q convert_one go_on e =
    let (x, read, e₁) =
      Result-bind_ok (present (get p source))
        (λ x. present (get q target) >>= λ y. convert_one x y >>= λ z. go_on (set q z target)) e in
    let (y, there, e₂) =
      Result-bind_ok (present (get q target)) (λ y. convert_one x y >>= λ z. go_on (set q z target))
        e₁ in
    let (z, one, e₃) = Result-bind_ok (convert_one x y) (λ z. go_on (set q z target)) e₂ in
    (x, y, z, present_of_ok _ x read, present_of_ok _ y there, one, e₃)

pub convert-Leaves :
    (side : Side) (pairs : FieldPairs) (source target out : Value) (path : List String)
    → leaves side pairs path ≡ true
    → convert side pairs source target ≡ ok out
    → get path out ≡ get path target
unfolding convert
convert-Leaves side done source target out path free e = ap (get path) (sym (ok_value e))
convert-Leaves side (pair p q container k rest) source target out path free e =
    let (here, later) = (and-eq-true_iff _ _).0 free in
    let (x, y, z, read, there, one, rest_ok) =
      statement_returned source target out (source_fields side p q) (target_fields side p q)
        (convert_field side container (convert_value side k)) (convert side rest source) e in
    convert-Leaves side rest source (set (target_fields side p q) z target) out path later rest_ok
    ∙ get_set-apart path (target_fields side p q) z target here

mutual
  unfolding convert convert_value copy IsConversion Fulfils is_distinct are_distinct

  convert_value-IsConversion :
      (side : Side) (k : Conversion)
      → is_distinct side k ≡ true
      → (x y z : Value) → convert_value side k x y ≡ ok z
      → IsConversion side k x z
  convert_value-IsConversion side copied distinct (Value.primitive p) y z e = sym (ok_value e)
  convert_value-IsConversion side copied distinct x y z e = cc
  convert_value-IsConversion side builtin distinct x y z e = sym e
  convert_value-IsConversion side (sub_message pairs) distinct x y z e =
      convert-Fulfils side pairs distinct x y z e

  -- Where no two pairs write to one place: after a conversion that returned, each mapped
  -- field of the target is the conversion of the field of the source that it is mapped to, whatever
  -- the target held before, vectors with the source's size where the size is not fixed, and nested
  -- messages likewise.
  pub convert-Fulfils :
      (side : Side) (pairs : FieldPairs)
      → are_distinct side pairs ≡ true
      → (source target out : Value) → convert side pairs source target ≡ ok out
      → Fulfils side pairs source out
  convert-Fulfils side done distinct source target out e = tt
  convert-Fulfils side (pair p q container k rest) distinct source target out e =
      let (both, later) = (and-eq-true_iff _ _).0 distinct in
      let (free, here) = (and-eq-true_iff _ _).0 both in
      let (x, y, z, read, there, one, rest_ok) =
        statement_returned source target out (source_fields side p q) (target_fields side p q)
          (convert_field side container (convert_value side k)) (convert side rest source) e in
      let written : get (target_fields side p q) out ≡ some z =
        convert-Leaves side rest source (set (target_fields side p q) z target) out
          (target_fields side p q) free rest_ok
        ∙ get_set_same (target_fields side p q) z target y there in
      (
        rw (read, written)
            (convert_field-InContainer (IsConversion side k) (convert_value side k)
              (convert_value-IsConversion side k here) side container x y z one),
        convert-Fulfils side rest later source (set (target_fields side p q) z target) out rest_ok,
      )
