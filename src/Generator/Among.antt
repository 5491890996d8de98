-- ===== src/Generator/Among.antt =====
-- Lists that have an element.
use ros1_bridge.Prelude.{
  ◌≡◌, sym, ap, ◌∙◌, subst, Bool, true, String, List, [], ◌∷◌, ◌++◌, keep, map, has, All, ◌⊎◌, inl,
  inr, Bool-cases, string_discrete, arith,
}
use ros1_bridge.Factory.Registry.Selection.{join}

abbrev pub Among : {A : Type 0} → A → List A → Type 0
Among x [] = ⊥
Among x (y ∷ ys) = (x ≡ y) ⊎ Among x ys

module _ {A : Type 0} where
  pub All-Among : (P : A → Type 0) (x : A) (xs : List A) → All P xs → Among x xs → P x
  All-Among P x (y ∷ ys) (h, hs) (inl e) = subst P (sym e) h
  All-Among P x (y ∷ ys) (h, hs) (inr m) = All-Among P x ys hs m
  All-Among P x [] h m = absurd m

  pub Among-append_left : (x : A) (xs ys : List A) → Among x xs → Among x (xs ++ ys)
  Among-append_left x (y ∷ xs) ys (inl e) = inl e
  Among-append_left x (y ∷ xs) ys (inr m) = inr (Among-append_left x xs ys m)
  Among-append_left x [] ys m = absurd m

  pub Among-append_right : (x : A) (xs ys : List A) → Among x ys → Among x (xs ++ ys)
  Among-append_right x [] ys m = m
  Among-append_right x (y ∷ xs) ys m = inr (Among-append_right x xs ys m)

  pub Among-join :
      (x : A) (xs : List A) (xss : List (List A)) → Among x xs → Among xs xss → Among x (join xss)
  Among-join x xs (ys ∷ xss) m (inl e) = Among-append_left x ys (join xss) (subst (Among x) e m)
  Among-join x xs (ys ∷ xss) m (inr n) =
      Among-append_right x ys (join xss) (Among-join x xs xss m n)
  Among-join x xs [] m n = absurd n

  pub Among-keep :
      (test : A → Bool) (x : A) (xs : List A) → test x ≡ true → Among x xs → Among x (keep test xs)
  Among-keep test x (y ∷ ys) e (inl same) = rw (sym (ap test same) ∙ e, keep) (inl same)
  Among-keep test x (y ∷ ys) e (inr m) = elim (Bool-cases (test y)) [
    | inl t ↦ rw (t, keep) (inr (Among-keep test x ys e m))
    | inr f ↦ rw (f, keep) (Among-keep test x ys e m)
  ]
  Among-keep test x [] e m = absurd m

  pub Among-map :
      {B : Type 0} (f : A → B) (x : A) (xs : List A) → Among x xs → Among (f x) (map f xs)
  Among-map f x (y ∷ ys) (inl e) = inl (ap f e)
  Among-map f x (y ∷ ys) (inr m) = inr (Among-map f x ys m)
  Among-map f x [] m = absurd m

pub has-Among : (s : String) (xs : List String) → has s xs ≡ true → Among s xs
has-Among s [] e = cc
has-Among s (x ∷ xs) e = elim (string_discrete x s) [
  | yes same ↦ inl (sym same)
  | no differ ↦ inr (has-Among s xs (ground (arith, e, differ)))
]
