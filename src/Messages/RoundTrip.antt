-- ===== src/Messages/RoundTrip.antt =====
-- From ROS 1 to ROS 2 and back.
use ros1_bridge.Prelude.{◌≡◌, sym, ap, ◌∙◌, subst, arith}
use ros1_bridge.Prelude.Exec.{ok, ok_value}
use ros1_bridge.Prelude.Int.{pos}
use ros1_bridge.Convert.{Ros1Duration, Ros1Time, duration_1_to_2, time_1_to_2}
use ros1_bridge.Convert.Wrap.{duration_round_trips, time_round_trips}
use ros1_bridge.Messages.{
  Value, Elements, Container, single, Conversion, copied, builtin, sub_message, FieldPairs, done,
  pair, to_1, to_2, size, get, convert_builtin,
}
use ros1_bridge.Messages.Types.{FieldType, HasType, Each, Converts, Fits, Compiles}
use ros1_bridge.Messages.Typed.{get-HasType}
use ros1_bridge.Messages.Specified.{Together, Vectors, InContainer, Selected, IsConversion, Fulfils}

abbrev pub Holds : Container → (Value → Value → Type 0) → Value → Value → Type 0
Holds single R x z = R x z
Holds _ R x z = Vectors (λ xs zs. (size zs ≡ size xs) × Together R xs zs) x z

unfoldable mutual
  pub IsRestored : Conversion → Value → Value → Type 0
  IsRestored copied x z = z ≡ x
  IsRestored builtin x z = z ≡ x
  IsRestored (sub_message pairs) x z = Restores pairs x z

  -- Each mapped field of the second message is that of the first.
  pub Restores : FieldPairs → Value → Value → Type 0
  Restores done source back = Unit
  Restores (pair p q container k rest) source back =
      Selected (Holds container (IsRestored k)) (get p source) (get p back)
      × Restores rest source back

-- A conversion of single values that comes back.
abbrev ComesBack : (R there back : Value → Value → Type 0) → (σ τ : FieldType) → Type 0
ComesBack R there back σ τ =
    (x y z : Value) → HasType x σ → HasType y τ → HasType z σ → there x y → back y z → R x z

elements-ComesBack :
    (R there back : Value → Value → Type 0) (σ τ : FieldType)
    → ComesBack R there back σ τ
    → (xs ys zs : Elements) → Each xs σ
    → Each ys τ
    → Each zs σ
    → size ys ≡ size xs
    → Together there xs ys
    → Together back ys zs
    → Together R xs zs
elements-ComesBack R there back σ τ one _ ys zs Each.nil h i same t b = tt
elements-ComesBack R there back σ τ one _ _ zs (Each.cons g gs) Each.nil i same t b =
    absurd (omega (arith, same))
elements-ComesBack R there back σ τ one _ _ _ (Each.cons g gs) (Each.cons h hs) Each.nil same t b =
    tt
elements-ComesBack R there back σ τ one _ _ _ (Each.cons {x} {xs} g gs)
      (Each.cons {x = y} {xs = ys} h hs) (Each.cons {x = z} {xs = zs} i is) same t b =
    (
      one x y z g h i t.0 b.0,
      elements-ComesBack R there back σ τ one xs ys zs gs hs is (omega (arith, same)) t.1 b.1,
    )

container-ComesBack :
    (container : Container) (k : Conversion) (R there back : Value → Value → Type 0)
    → ((σ τ : FieldType) → Converts k σ τ → ComesBack R there back σ τ)
    → (σ τ : FieldType) → Fits container k σ τ
    → ComesBack (Holds container R) (InContainer container there) (InContainer container back) σ τ
container-ComesBack _ k R there back one σ τ (Fits.single c) x y z g h i t b =
    one σ τ c x y z g h i t b
container-ComesBack _ k R there back one _ _ (Fits.sequence {τ₁} {τ₂} _ _ c) _ _ _
      (HasType.unbounded {xs} g) (HasType.unbounded {xs = ys} h) (HasType.unbounded {xs = zs} i) t
      b =
    (b.0 ∙ t.0, elements-ComesBack R there back τ₁ τ₂ (one τ₁ τ₂ c) xs ys zs g h i t.0 t.1 b.1)
container-ComesBack _ k R there back one _ _ (Fits.bounded_sequence {τ₁} {τ₂} _ _ c) _ _ _
      (HasType.unbounded {xs} g) (HasType.bounded {xs = ys} h _) (HasType.unbounded {xs = zs} i) t
      b =
    (b.0 ∙ t.0, elements-ComesBack R there back τ₁ τ₂ (one τ₁ τ₂ c) xs ys zs g h i t.0 t.1 b.1)
container-ComesBack _ k R there back one _ _ (Fits.array {τ₁} {τ₂} c) _ _ _ (HasType.fixed {xs} g n)
      (HasType.fixed {xs = ys} h m) (HasType.fixed {xs = zs} i l) t b =
    (l ∙ sym n, elements-ComesBack R there back τ₁ τ₂ (one τ₁ τ₂ c) xs ys zs g h i (m ∙ sym n) t b)

duration-ComesBack :
    (d : Ros1Duration) (y z : Value)
    → HasType (Value.ros1_duration d) FieldType.duration_1
    → ok y ≡ convert_builtin to_2 (Value.ros1_duration d)
    → ok z ≡ convert_builtin to_1 y
    → z ≡ Value.ros1_duration d
unfolding convert_builtin
duration-ComesBack d y z (HasType.duration_1 a b) t e =
    let there : y ≡ Value.ros2_duration (duration_1_to_2 d) = ok_value t in
    let back : ok z ≡ convert_builtin to_1 (Value.ros2_duration (duration_1_to_2 d)) =
      subst (λ w. ok z ≡ convert_builtin to_1 w) there e in
    ok_value back
    ∙ ap (λ w. Value.ros1_duration w)
        (duration_round_trips d (record { sec = pos 0; nanosec = 0 }) b (omega arith)).0

time-ComesBack :
    (d : Ros1Time) (y z : Value)
    → HasType (Value.ros1_time d) FieldType.time_1
    → ok y ≡ convert_builtin to_2 (Value.ros1_time d)
    → ok z ≡ convert_builtin to_1 y
    → z ≡ Value.ros1_time d
unfolding convert_builtin
time-ComesBack d y z (HasType.time_1 a b) t e =
    let there : y ≡ Value.ros2_time (time_1_to_2 d) = ok_value t in
    let back : ok z ≡ convert_builtin to_1 (Value.ros2_time (time_1_to_2 d)) =
      subst (λ w. ok z ≡ convert_builtin to_1 w) there e in
    ok_value back
    ∙ ap (λ w. Value.ros1_time w)
        (time_round_trips d (record { sec = pos 0; nanosec = 0 }) a (omega arith)).0

mutual
  unfolding IsConversion Fulfils IsRestored Restores

  conversion-ComesBack :
      (k : Conversion) (σ τ : FieldType)
      → Converts k σ τ
      → ComesBack (IsRestored k) (IsConversion to_2 k) (IsConversion to_1 k) σ τ
  conversion-ComesBack _ _ _ Converts.copied x y z g h i t b = b ∙ t
  conversion-ComesBack _ _ _ Converts.duration _ y z (HasType.duration_1 {d} a b) h i t e =
      duration-ComesBack d y z (HasType.duration_1 a b) t e
  conversion-ComesBack _ _ _ Converts.time _ y z (HasType.time_1 {t = d} a b) h i t e =
      time-ComesBack d y z (HasType.time_1 a b) t e
  conversion-ComesBack (sub_message pairs) σ τ (Converts.sub_message c) x y z g h i t b =
      pairs-ComesBack pairs σ τ c x y z g h i t b

  pub pairs-ComesBack :
      (pairs : FieldPairs) (σ τ : FieldType)
      → Compiles pairs σ τ
      → ComesBack (Restores pairs) (Fulfils to_2 pairs) (Fulfils to_1 pairs) σ τ
  pairs-ComesBack _ σ τ Compiles.done x y z g h i t b = tt
  pairs-ComesBack (pair p q container k rest) σ τ (Compiles.pair {σ₁} {σ₂} e₁ e₂ fits others) x y z
        g h i t b =
      let (u, read, typed) = get-HasType p x σ σ₁ g e₁ in
      let (v, read₂, typed₂) = get-HasType q y τ σ₂ h e₂ in
      let (w, read₃, typed₃) = get-HasType p z σ σ₁ i e₁ in
      let t' : InContainer container (IsConversion to_2 k) u v = rw (read, read₂) at t.0 in
      let b' : InContainer container (IsConversion to_1 k) v w = rw (read₂, read₃) at b.0 in
      (
        rw (read, read₃)
            (container-ComesBack container k (IsRestored k) (IsConversion to_2 k)
              (IsConversion to_1 k) (conversion-ComesBack k) σ₁ σ₂ fits u v w typed typed₂ typed₃ t'
              b'),
        pairs-ComesBack rest σ τ others x y z g h i t.1 b.1,
      )
