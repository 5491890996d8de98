-- ===== src/Generator/Pairs.antt =====
-- The dictionaries of a mapping: lookups after an assignment, and assignments to new keys.
use ros1_bridge.Prelude.{
  ◌≡◌, refl, ap, false, String, some, List, [], ◌∷◌, ◌++◌, ◌==◌, has, map, ==_refl, arith,
}
use ros1_bridge.Generator.{Selection, OrderedDict, put, lookup}
use ros1_bridge.Generator.FieldMapping.{key_heads}

pub lookup-put_single :
    (f : String) (v : Selection) (d : OrderedDict) → lookup (f ∷ []) (put (f ∷ []) v d) ≡ some v
unfolding put
lookup-put_single f v [] = ground (arith, ==_refl f)
lookup-put_single f v ((j, w) ∷ d) = ground (arith, lookup-put_single f v d)

pub lookup-put_other :
    (f g : String) (v : Selection) (d : OrderedDict)
    → (f == g) ≡ false
    → lookup (f ∷ []) (put (g ∷ []) v d) ≡ lookup (f ∷ []) d
unfolding put
lookup-put_other f g v [] differ = ground arith
lookup-put_other f g v (([], w) ∷ d) differ = ground (arith, lookup-put_other f g v d differ)
lookup-put_other f g v ((k ∷ [], w) ∷ d) differ = ground (arith, lookup-put_other f g v d differ)
lookup-put_other f g v ((k ∷ l ∷ p, w) ∷ d) differ = ground (arith, lookup-put_other f g v d differ)

-- Dictionaries of single fields.
abbrev pub pairs_of : (String → String) → (String → String) → List String → OrderedDict
pairs_of key value [] = []
pairs_of key value (f ∷ fs) = (key f ∷ [], value f ∷ []) ∷ pairs_of key value fs

pub put-pairs_of :
    (key value : String → String) (f : String) (fs : List String)
    → has (key f) (map key fs) ≡ false
    → put (key f ∷ []) (value f ∷ []) (pairs_of key value fs) ≡ pairs_of key value (fs ++ (f ∷ []))
unfolding put
put-pairs_of key value f [] fresh = refl
put-pairs_of key value f (g ∷ fs) fresh = ground (arith, put-pairs_of key value f fs)

pub key_heads-pairs_of :
    (key value : String → String) (fs : List String)
    → key_heads (pairs_of key value fs) ≡ map key fs
key_heads-pairs_of key value [] = refl
key_heads-pairs_of key value (f ∷ fs) = ap (λ l. key f ∷ l) (key_heads-pairs_of key value fs)
