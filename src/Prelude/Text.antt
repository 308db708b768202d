-- ===== src/Prelude/Text.antt =====
-- Methods of Python's texts: `str.upper` on ASCII text, which the schemas require of MAC addresses, and
-- `str.split` at a character.
use Prim.Native.Nat.{ℕ, ◌-◌, ◌<◌}
use Prim.Native.Char.{Char, code}
use Prim.Native.String.{String, char_at, ◌++◌}
use text.Mathlib.TextLemmas.{nil-append, cons-append}
use mathlib.Core.Path.{◌≡◌, refl, ap, ap₂, ◌∙◌}
use mathlib.Core.Logic.{inl, inr}
use mathlib.Core.Bool.{Bool, true, not, ◌&&◌}
use mathlib.Core.List.{List, [], ◌∷◌}
use native.Mathlib.Omega.{arith}
use foris_controller.Prelude.Tests.{passes, passes_at, Bool-cases, leb, if◌then◌else◌}

is_lower : ℕ → Bool
is_lower c = leb b'a' c && leb c b'z'

upper_char : Char → Char
unfolding is_lower
upper_char c = if is_lower (code c) then char_at "ABCDEFGHIJKLMNOPQRSTUVWXYZ" (code c - 97) else c

unfoldable pub upper : String → String
unfolding upper_char
upper String.[] = String.[]
upper (String.◌∷◌ c s) = String.◌∷◌ (upper_char c) (upper s)

abbrev pub same : ℕ → ℕ → Bool
same a b = leb a b && leb b a

abbrev pub onto_first : Char → List String → List String
onto_first c [] = String.◌∷◌ c String.[] ∷ []
onto_first c (w ∷ ws) = String.◌∷◌ c w ∷ ws

-- text.split(c), the character by its number
unfoldable pub split_on : ℕ → String → List String
split_on n String.[] = String.[] ∷ []
split_on n (String.◌∷◌ c s) =
    let rest = split_on n s in if same (code c) n then String.[] ∷ rest else onto_first c rest

-- A text has no character of this number.
abbrev pub without : ℕ → String → Bool
without n String.[] = true
without n (String.◌∷◌ c s) = not (same (code c) n) && without n s

pub split_on-append :
    (n : ℕ) (c : Char) (a b : String)
    → same (code c) n ≡ true
    → without n a ≡ true
    → split_on n (a ++ String.◌∷◌ c b) ≡ a ∷ split_on n b
unfolding split_on
split_on-append n c String.[] b e h =
    ap (split_on n) (nil-append (String.◌∷◌ c b)) ∙ ground (arith, e)
split_on-append n c (String.◌∷◌ d a) b e h =
    ap (split_on n) (cons-append d a (String.◌∷◌ c b))
    ∙ ground (arith, h, split_on-append n c a b e (ground (arith, h)))

pub split_on-whole : (n : ℕ) (a : String) → without n a ≡ true → split_on n a ≡ a ∷ []
unfolding split_on
split_on-whole n String.[] h = refl
split_on-whole n (String.◌∷◌ c a) h = ground (arith, h, split_on-whole n a (ground (arith, h)))

capital : ℕ → Bool
unfolding is_lower
capital i = not (is_lower (code (char_at "ABCDEFGHIJKLMNOPQRSTUVWXYZ" i)))

capitals : passes capital 26 ≡ true
unfolding passes capital
capitals = refl

upper_char-upper_char : (c : Char) → upper_char (upper_char c) ≡ upper_char c
upper_char-upper_char c = elim (Bool-cases (is_lower (code c))) [
  | inr f ↦ unfold upper_char in ground (arith, f)
  | inl t ↦
      let small : code c - 97 < 26 = unfold is_lower in ground (arith, t) in
      let high = passes_at capital 26 (code c - 97) capitals small in
      unfold capital in unfold upper_char in ground (arith, t, high)
]

pub upper-upper : (s : String) → upper (upper s) ≡ upper s
unfolding upper
upper-upper String.[] = refl
upper-upper (String.◌∷◌ c s) = ap₂ (λ d t. String.◌∷◌ d t) (upper_char-upper_char c) (upper-upper s)
