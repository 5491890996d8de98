-- ===== src/Text.antt =====
-- What src/dynamic_bridge.cpp and src/parameter_bridge.cpp do with a type name: `find("/")`, and the
-- texts before and behind a position. Positions count characters.
use Prim.Native.String as Chars
use Prim.Native.String.append
use Prim.Native.Char.{Char, code}
use text.Mathlib.TextEquality.{Char-path}
use native.Mathlib.Decide.{ℕ_discrete}
use mathlib.Core.Logic.{ite}
use ros1_bridge.Prelude.{
  ℕ, zero, suc, String, ◌<>◌, ◌≡◌, ◌≢◌, refl, ap, ◌∙◌, sym, Option, none, some, arith,
}
use mathlib.Core.Option as Option

-- s.find("/")
unfoldable pub find_slash : String → Option ℕ
find_slash Chars.[] = none
find_slash (Chars.◌∷◌ c s) =
    let rest = find_slash s in ite (ℕ_discrete (code c) b'/') (some 0) (Option.map suc rest)

-- s.substr(0, n)
unfoldable pub substr_to : ℕ → String → String
substr_to zero s = ""
substr_to (suc n) Chars.[] = ""
substr_to (suc n) (Chars.◌∷◌ c s) = Chars.◌∷◌ c (substr_to n s)

-- s.substr(n)
unfoldable pub substr_from : ℕ → String → String
substr_from zero s = s
substr_from (suc n) Chars.[] = ""
substr_from (suc n) (Chars.◌∷◌ c s) = substr_from n s

abbrev slash : Char
slash = "/"

slash_path : (c : Char) → code c ≡ b'/' → slash ≡ c
slash_path c h = Char-path slash c (sym h)

slash-append : (s : String) → "/" <> s ≡ Chars.◌∷◌ slash s
slash-append s = append.cons slash "" s ∙ ap (Chars.◌∷◌ slash) (append.nil s)

-- Where a text has a first slash at position `n`, the text before `n`, a slash, and the text behind
-- `n` put together are the text.
pub find_slash-split :
    (s : String) (n : ℕ)
    → find_slash s ≡ some n
    → substr_to n s <> ("/" <> substr_from (suc n) s) ≡ s
unfolding find_slash substr_to substr_from
find_slash-split Chars.[] n h = cc
find_slash-split (Chars.◌∷◌ c s) zero h =
    append.nil _ ∙ slash-append s ∙ ap (λ d. Chars.◌∷◌ d s) (slash_path c (ground arith))
find_slash-split (Chars.◌∷◌ c s) (suc n) h =
    rw (append.cons c) (ap (Chars.◌∷◌ c) (find_slash-split s n (ground arith)))

-- There is no slash before it.
pub find_slash-substr_to :
    (s : String) (n : ℕ) → find_slash s ≡ some n → find_slash (substr_to n s) ≡ none
unfolding find_slash substr_to
find_slash-substr_to Chars.[] n h = ground arith
find_slash-substr_to (Chars.◌∷◌ c s) zero h = refl
find_slash-substr_to (Chars.◌∷◌ c s) (suc n) h = ground (arith, find_slash-substr_to s n)

-- A text without a slash is not two texts with one between them.
pub no_slash : (p n s : String) → find_slash s ≡ none → (p <> ("/" <> n)) ≢ s
unfolding find_slash ℕ_discrete
no_slash Chars.[] n s h e =
    let starts : Chars.◌∷◌ slash n ≡ s = sym (slash-append n) ∙ sym (append.nil _) ∙ e in
    let bad : find_slash (Chars.◌∷◌ slash n) ≡ none = ap find_slash starts ∙ h in
    ground (arith, bad)
no_slash (Chars.◌∷◌ c p) n s h e =
    let starts : Chars.◌∷◌ c (p <> ("/" <> n)) ≡ s = sym (append.cons c p _) ∙ e in
    let none_found : find_slash (Chars.◌∷◌ c (p <> ("/" <> n))) ≡ none = ap find_slash starts ∙ h in
    no_slash p n (p <> ("/" <> n)) (ground (arith, none_found)) refl
