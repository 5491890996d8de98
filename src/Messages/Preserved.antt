-- ===== src/Messages/Preserved.antt =====
-- A generated conversion that compiles gives a message of the declared type.
use ros1_bridge.Prelude.{
  ℕ, zero, suc, ◌≤◌, ◌≡◌, refl, ap, ◌∙◌, String, some, List, Bool-cases, inl, inr, arith,
  if◌then◌else◌,
}
use ros1_bridge.Prelude.Exec.{Exception, Result, ok, throw, other}
use ros1_bridge.Prelude.Results.{Post, Post-bind, ◌>>=◌}
use ros1_bridge.Prelude.Int.{ltb, to_int32-IsInt32, to_uint32-IsUint32}
use ros1_bridge.Convert.{duration_1_to_2, duration_2_to_1, time_1_to_2, time_2_to_1}
use ros1_bridge.Messages.{
  Value, Elements, Container, Conversion, FieldPairs, Side, to_1, to_2, size, resized, get, set,
  present, source_fields, target_fields, convert_builtin, copy, convert_each, admits, convert_field,
  convert_value, convert,
}
use ros1_bridge.Messages.Types.{
  FieldType, HasType, Each, Converts, Fits, Compiles, type_at, duration_1, duration_2, time_1,
  time_2,
}
use ros1_bridge.Messages.Typed.{get-HasType, set-HasType}

abbrev pub source_type : Side → FieldType → FieldType → FieldType
source_type to_2 τ₁ τ₂ = τ₁
source_type to_1 τ₁ τ₂ = τ₂

abbrev pub target_type : Side → FieldType → FieldType → FieldType
target_type to_2 τ₁ τ₂ = τ₂
target_type to_1 τ₁ τ₂ = τ₁

-- The only way to fail is the assertion on a size, which stands in one of the two functions.
abbrev pub IsFailure : Side → Exception → Type 0
IsFailure to_2 e = e ≡ other "assertion failed"
IsFailure to_1 e = ⊥

abbrev pub Gives : Side → FieldType → Result Value → Type 0
Gives side τ r = Post (λ v. HasType v τ) (IsFailure side) r

duration-Gives :
    (side : Side) (x : Value)
    → HasType x (source_type side duration_1 duration_2)
    → Gives side (target_type side duration_1 duration_2) (convert_builtin side x)
unfolding convert_builtin duration_1_to_2 duration_2_to_1
duration-Gives to_2 _ (HasType.duration_1 {d} a b) =
    HasType.duration_2 a (to_uint32-IsUint32 d.nsec)
duration-Gives to_1 _ (HasType.duration_2 {d} a b) =
    HasType.duration_1 a (to_int32-IsInt32 d.nanosec b)

time-Gives :
    (side : Side) (x : Value)
    → HasType x (source_type side time_1 time_2)
    → Gives side (target_type side time_1 time_2) (convert_builtin side x)
unfolding convert_builtin time_1_to_2 time_2_to_1
time-Gives to_2 _ (HasType.time_1 {t} a b) = HasType.time_2 (to_int32-IsInt32 t.sec a) b
time-Gives to_1 _ (HasType.time_2 {t} a b) = HasType.time_1 (to_uint32-IsUint32 t.sec) b

pub size-resized : (fresh : Value) (n : ℕ) (ys : Elements) → size (resized fresh n ys) ≡ n
size-resized fresh zero ys = refl
size-resized fresh (suc n) Elements.nil = omega (arith, size-resized fresh n Elements.nil)
size-resized fresh (suc n) (Elements.cons y ys) = omega (arith, size-resized fresh n ys)

resized-Each :
    (fresh : Value) (n : ℕ) (ys : Elements) (τ : FieldType)
    → HasType fresh τ
    → Each ys τ
    → Each (resized fresh n ys) τ
resized-Each fresh zero ys τ f h = Each.nil
resized-Each fresh (suc n) _ τ f Each.nil =
    Each.cons f (resized-Each fresh n Elements.nil τ f Each.nil)
resized-Each fresh (suc n) _ τ f (Each.cons {x} {xs} h hs) =
    Each.cons h (resized-Each fresh n xs τ f hs)

module _ (side : Side) (σ τ : FieldType) (convert : Value → Value → Result Value)
    (gives : (x y : Value) → HasType x σ → HasType y τ → Gives side τ (convert x y)) where
  abbrev Filled : Elements → Elements → Type 0
  Filled ys zs = Each zs τ × (size zs ≡ size ys)

  convert_each-Filled :
      (xs ys : Elements)
      → Each xs σ
      → Each ys τ
      → Post (Filled ys) (IsFailure side) (convert_each convert xs ys)
  unfolding convert_each
  convert_each-Filled _ ys Each.nil h = (h, refl)
  convert_each-Filled _ _ (Each.cons g gs) Each.nil = (Each.nil, refl)
  convert_each-Filled _ _ (Each.cons {x} {xs} g gs) (Each.cons {x = y} {xs = ys} h hs) =
      Post-bind (λ z. HasType z τ) (Filled (Elements.cons y ys)) (IsFailure side) (convert x y)
        (λ z. convert_each convert xs ys >>= λ zs. ok (Elements.cons z zs)) (gives x y g h)
        (λ z t.
          Post-bind (Filled ys) (Filled (Elements.cons y ys)) (IsFailure side)
            (convert_each convert xs ys) (λ zs. ok (Elements.cons z zs))
            (convert_each-Filled xs ys gs hs)
            (λ zs filled. (Each.cons t filled.0, ap suc filled.1)))

  -- What a vector field gets from a loop that fills it.
  loop-Gives :
      (ρ : FieldType) (xs ys : Elements)
      → Each xs σ
      → Each ys τ
      → ((zs : Elements) → Filled ys zs → HasType (Value.vector zs) ρ)
      → Gives side ρ (convert_each convert xs ys >>= λ zs. ok (Value.vector zs))
  loop-Gives ρ xs ys g h k =
      Post-bind (Filled ys) (λ v. HasType v ρ) (IsFailure side) (convert_each convert xs ys)
        (λ zs. ok (Value.vector zs)) (convert_each-Filled xs ys g h) k

  resized-Gives :
      (ρ : FieldType) (fresh : Value) (xs ys : Elements)
      → HasType fresh τ
      → Each xs σ
      → Each ys τ
      → ((zs : Elements) → Each zs τ → size zs ≡ size xs → HasType (Value.vector zs) ρ)
      → Gives side ρ
          (convert_each convert xs (resized fresh (size xs) ys) >>= λ zs. ok (Value.vector zs))
  resized-Gives ρ fresh xs ys f g h k =
      loop-Gives ρ xs (resized fresh (size xs) ys) g (resized-Each fresh (size xs) ys τ f h)
        (λ zs filled. k zs filled.0 (filled.1 ∙ size-resized fresh (size xs) ys))

-- A conversion of elements that keeps the declared types.
abbrev pub Keeps : Side → Conversion → (Value → Value → Result Value) → Type 0
Keeps side k convert =
    (σ τ : FieldType)
    → Converts k σ τ
    → (x y : Value) → HasType x (source_type side σ τ)
    → HasType y (target_type side σ τ)
    → Gives side (target_type side σ τ) (convert x y)

bounded-Gives :
    (xs ys : Elements) (maximum_size : ℕ) (fresh : Value) (σ τ : FieldType)
    (convert : Value → Value → Result Value)
    → ((x y : Value) → HasType x σ → HasType y τ → Gives to_2 τ (convert x y))
    → HasType fresh τ
    → Each xs σ
    → Each ys τ
    → Gives to_2 (FieldType.bounded maximum_size τ) (
        (if admits to_2 maximum_size (size xs)
          then convert_each convert xs (resized fresh (size xs) ys)
          else throw (other "assertion failed"))
        >>= λ zs. ok (Value.vector zs))
unfolding admits
bounded-Gives xs ys maximum_size fresh σ τ convert gives f g h =
    elim (Bool-cases (ltb maximum_size (size xs))) [
      | inl over ↦ rw over refl
      | inr fits ↦
          let bound : size xs ≤ maximum_size = ground (arith, fits) in
          rw fits (
            resized-Gives to_2 σ τ convert gives (FieldType.bounded maximum_size τ) fresh xs ys f g
              h (λ zs each same. HasType.bounded each (omega (arith, same, bound))))
    ]

convert_field-Gives :
    (side : Side) (container : Container) (k : Conversion) (convert : Value → Value → Result Value)
    → Keeps side k convert
    → (σ τ : FieldType) → Fits container k σ τ
    → (x y : Value) → HasType x (source_type side σ τ)
    → HasType y (target_type side σ τ)
    → Gives side (target_type side σ τ) (convert_field side container convert x y)
unfolding convert_field admits
convert_field-Gives side _ k convert keeps σ τ (Fits.single c) x y g h = keeps σ τ c x y g h
convert_field-Gives to_2 _ k convert keeps _ _ (Fits.sequence {τ₁} {τ₂} f₁ f₂ c) _ _
      (HasType.unbounded {xs} g) (HasType.unbounded {xs = ys} h) =
    resized-Gives to_2 τ₁ τ₂ convert (keeps τ₁ τ₂ c) (FieldType.unbounded τ₂) _ xs ys f₂ g h
      (λ zs each same. HasType.unbounded each)
convert_field-Gives to_1 _ k convert keeps _ _ (Fits.sequence {τ₁} {τ₂} f₁ f₂ c) _ _
      (HasType.unbounded {xs} g) (HasType.unbounded {xs = ys} h) =
    resized-Gives to_1 τ₂ τ₁ convert (keeps τ₁ τ₂ c) (FieldType.unbounded τ₁) _ xs ys f₁ g h
      (λ zs each same. HasType.unbounded each)
convert_field-Gives to_2 _ k convert keeps _ _
      (Fits.bounded_sequence {maximum_size} {τ₁} {τ₂} f₁ f₂ c) _ _ (HasType.unbounded {xs} g)
      (HasType.bounded {xs = ys} h _) =
    bounded-Gives xs ys maximum_size _ τ₁ τ₂ convert (keeps τ₁ τ₂ c) f₂ g h
convert_field-Gives to_1 _ k convert keeps _ _ (Fits.bounded_sequence {τ₁} {τ₂} f₁ f₂ c) _ _
      (HasType.bounded {xs} g _) (HasType.unbounded {xs = ys} h) =
    resized-Gives to_1 τ₂ τ₁ convert (keeps τ₁ τ₂ c) (FieldType.unbounded τ₁) _ xs ys f₁ g h
      (λ zs each same. HasType.unbounded each)
convert_field-Gives to_2 _ k convert keeps _ _ (Fits.array {static_size} {τ₁} {τ₂} c) _ _
      (HasType.fixed {xs} g n) (HasType.fixed {xs = ys} h m) =
    loop-Gives to_2 τ₁ τ₂ convert (keeps τ₁ τ₂ c) (FieldType.fixed static_size τ₂) xs ys g h
      (λ zs filled. HasType.fixed filled.0 (filled.1 ∙ m))
convert_field-Gives to_1 _ k convert keeps _ _ (Fits.array {static_size} {τ₁} {τ₂} c) _ _
      (HasType.fixed {xs} g n) (HasType.fixed {xs = ys} h m) =
    loop-Gives to_1 τ₂ τ₁ convert (keeps τ₁ τ₂ c) (FieldType.fixed static_size τ₁) xs ys g h
      (λ zs filled. HasType.fixed filled.0 (filled.1 ∙ m))

source-known :
    (side : Side) (p q : List String) (τ₁ τ₂ σ₁ σ₂ : FieldType)
    → type_at p τ₁ ≡ some σ₁
    → type_at q τ₂ ≡ some σ₂
    → type_at (source_fields side p q) (source_type side τ₁ τ₂) ≡ some (source_type side σ₁ σ₂)
source-known to_2 p q τ₁ τ₂ σ₁ σ₂ e₁ e₂ = e₁
source-known to_1 p q τ₁ τ₂ σ₁ σ₂ e₁ e₂ = e₂

target-known :
    (side : Side) (p q : List String) (τ₁ τ₂ σ₁ σ₂ : FieldType)
    → type_at p τ₁ ≡ some σ₁
    → type_at q τ₂ ≡ some σ₂
    → type_at (target_fields side p q) (target_type side τ₁ τ₂) ≡ some (target_type side σ₁ σ₂)
target-known to_2 p q τ₁ τ₂ σ₁ σ₂ e₁ e₂ = e₂
target-known to_1 p q τ₁ τ₂ σ₁ σ₂ e₁ e₂ = e₁

-- One statement of the template, and what follows it.
statement-Gives :
    (side : Side) (source target : Value) (source_path target_path : List String)
    (σ₁ τ₁ σ₂ τ₂ : FieldType) (convert_one : Value → Value → Result Value)
    (go_on : Value → Result Value)
    → HasType source σ₁
    → HasType target τ₁
    → type_at source_path σ₁ ≡ some σ₂
    → type_at target_path τ₁ ≡ some τ₂
    → ((x y : Value) → HasType x σ₂ → HasType y τ₂ → Gives side τ₂ (convert_one x y))
    → ((v : Value) → HasType v τ₁ → Gives side τ₁ (go_on v))
    → Gives side τ₁ (
        present (get source_path source) >>= λ x. present (get target_path target) >>= λ y.
        convert_one x y >>= λ z. go_on (set target_path z target))
statement-Gives side source target p q σ₁ τ₁ σ₂ τ₂ convert_one go_on h t e₁ e₂ one rest =
    let (x, found, typed) = get-HasType p source σ₁ σ₂ h e₁ in
    let (y, there, typed') = get-HasType q target τ₁ τ₂ t e₂ in
    rw (found, there)
      (Post-bind (λ v. HasType v τ₂) (λ v. HasType v τ₁) (IsFailure side) (convert_one x y)
        (λ z. go_on (set q z target)) (one x y typed typed')
        (λ z ok. rest (set q z target) (set-HasType q target τ₁ τ₂ z t e₂ ok)))

mutual
  unfolding convert copy

  -- A nested conversion too.
  pub convert_value-Keeps : (side : Side) (k : Conversion) → Keeps side k (convert_value side k)
  convert_value-Keeps to_2 _ _ _ Converts.copied _ y (HasType.primitive t) h = HasType.primitive t
  convert_value-Keeps to_1 _ _ _ Converts.copied _ y (HasType.primitive t) h = HasType.primitive t
  convert_value-Keeps side _ _ _ Converts.duration x y g h = duration-Gives side x g
  convert_value-Keeps side _ _ _ Converts.time x y g h = time-Gives side x g
  convert_value-Keeps side (Conversion.sub_message pairs) σ τ (Converts.sub_message c) x y g h =
      convert-HasType side pairs σ τ c x y g h

  -- Where the conversion of a pair of messages compiles: from messages of the declared types, each
  -- of the two functions gives a message of the declared type, unless the size of a vector is
  -- above the bound of its sequence in ROS 2.
  pub convert-HasType :
      (side : Side) (pairs : FieldPairs) (τ₁ τ₂ : FieldType)
      → Compiles pairs τ₁ τ₂
      → (source target : Value) → HasType source (source_type side τ₁ τ₂)
      → HasType target (target_type side τ₁ τ₂)
      → Gives side (target_type side τ₁ τ₂) (convert side pairs source target)
  convert-HasType side _ τ₁ τ₂ Compiles.done source target g h = h
  convert-HasType side (FieldPairs.pair p q container k rest) τ₁ τ₂
        (Compiles.pair {σ₁} {σ₂} e₁ e₂ fits others) source target g h =
      statement-Gives side source target (source_fields side p q) (target_fields side p q)
        (source_type side τ₁ τ₂) (target_type side τ₁ τ₂) (source_type side σ₁ σ₂)
        (target_type side σ₁ σ₂) (convert_field side container (convert_value side k))
        (convert side rest source) g h (source-known side p q τ₁ τ₂ σ₁ σ₂ e₁ e₂)
        (target-known side p q τ₁ τ₂ σ₁ σ₂ e₁ e₂)
        (convert_field-Gives side container k (convert_value side k) (convert_value-Keeps side k) σ₁
          σ₂ fits)
        (λ v t. convert-HasType side rest τ₁ τ₂ others source v g t)
