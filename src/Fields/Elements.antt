-- ===== src/Fields/Elements.antt =====
-- The element-wise conversion of arrays and sequences against `map`.
use ros1_bridge.Prelude.{ℕ, ◌≤◌, ◌≡◌, refl, sym, ap, ◌∙◌, List, [], ◌∷◌, map, length, resize, arith}
use ros1_bridge.Prelude.Exec.{ok}
use ros1_bridge.Fields.{convert_elements, convert_sequence, convert_bounded_sequence}

module _ {A B : Type 0} (convert : A → B → B) (value : A → B)
    (overwrites : (x : A) (y : B) → convert x y ≡ value x) where
  convert_array :
      (source : List A) (destination : List B)
      → length destination ≡ length source
      → convert_elements convert source destination ≡ map value source
  unfolding convert_elements
  convert_array [] [] h = refl
  convert_array [] (y ∷ ys) h = absurd (omega (arith, h))
  convert_array (x ∷ xs) [] h = absurd (omega (arith, h))
  convert_array (x ∷ xs) (y ∷ ys) h =
      rw (overwrites x y, convert_array xs ys (omega (arith, h))) refl

  convert_resized :
      (fresh : B) (source : List A) (destination : List B)
      → convert_elements convert source (resize fresh (length source) destination)
        ≡ map value source
  unfolding convert_elements
  convert_resized fresh [] ys = refl
  convert_resized fresh (x ∷ xs) [] = rw (overwrites x fresh, convert_resized fresh xs []) refl
  convert_resized fresh (x ∷ xs) (y ∷ ys) = rw (overwrites x y, convert_resized fresh xs ys) refl

module _ {A B : Type 0} (there : A → B → B) (back : B → A → A) (value : A → B) (value_back : B → A)
    (overwrites : (x : A) (y : B) → there x y ≡ value x)
    (overwrites_back : (y : B) (x : A) → back y x ≡ value_back y)
    (restores : (x : A) → value_back (value x) ≡ x) where
  length-map : (f : A → B) (xs : List A) → length (map f xs) ≡ length xs
  length-map f [] = refl
  length-map f (x ∷ xs) = omega (arith, length-map f xs)

  map_restores : (xs : List A) → map value_back (map value xs) ≡ xs
  map_restores [] = refl
  map_restores (x ∷ xs) = rw (restores x, map_restores xs) refl

  -- Where the conversions of an element give the same whatever they overwrite, and restore each
  -- element: a sequence that is converted to the other side and back comes back as it was, whatever
  -- the two destinations held and however long they were, the way through a sequence with an upper
  -- bound included, where the bound admits it; and so does an array, where the destinations have
  -- its size.
  pub sequences_round_trip :
      (fresh : B) (fresh_back : A) (maximum_size : ℕ) (xs : List A) (ys : List B) (zs : List A)
      (array : List B) (array_back : List A)
      → length xs ≤ maximum_size
      → length array ≡ length xs
      → length array_back ≡ length xs
      → (convert_sequence back fresh_back (convert_sequence there fresh xs ys) zs ≡ xs)
        × (convert_bounded_sequence maximum_size there fresh xs ys
            ≡ ok (convert_sequence there fresh xs ys))
        × (convert_elements back (convert_elements there xs array) array_back ≡ xs)
  unfolding convert_sequence convert_bounded_sequence
  sequences_round_trip fresh fresh_back maximum_size xs ys zs array array_back bound same
        same_back =
      let sent = convert_resized there value overwrites fresh xs ys in
      (
        ap (λ l. convert_elements back l (resize fresh_back (length l) zs)) sent
            ∙ convert_resized back value_back overwrites_back fresh_back (map value xs) zs
            ∙ map_restores xs,
        ground arith,
        ap (λ l. convert_elements back l array_back)
              (convert_array there value overwrites xs array same)
            ∙ convert_array back value_back overwrites_back (map value xs) array_back
                (same_back ∙ sym (length-map value xs))
            ∙ map_restores xs,
      )
