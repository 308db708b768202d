-- ===== src/Backends/Strokes.antt =====
-- Numbers written in strokes, on which the tests run what reads and writes numbers.
use Prim.Native.Char.{code}
use package.text.Mathlib.TextLemmas.{head-eq_of_cons-eq}
use foris_controller.Prelude.{
  ℕ, zero, suc, String, ◌==◌, ◌≡◌, refl, false, none, some, ap, inl, inr, Bool-cases, arith, eq_iff,
}
use foris_controller.Exceptions.{Result, ok}
use foris_controller.Uci.Export.{chars}
use foris_controller.Backends.{split_last, Numerals, with_unit}

unfoldable pub strokes : ℕ → String
strokes zero = ""
strokes (suc n) = String.◌∷◌ "1" (strokes n)

unfoldable pub count : String → ℕ
count String.[] = 0
count (String.◌∷◌ c s) = suc (count s)

counted : (n : ℕ) → count (strokes n) ≡ n
unfolding strokes count
counted zero = refl
counted (suc n) = ap suc (counted n)

pub strokes_counted : (n : ℕ) → ◌≡◌ {A = Result ℕ} (ok (count (strokes n))) (ok n)
strokes_counted n = ap ok (counted n)

last_stroke : (n : ℕ) → split_last (chars (strokes (suc n))) ≡ some (chars (strokes n), "1")
unfolding strokes split_last
last_stroke zero = refl
last_stroke (suc n) = let last = last_stroke n in cc

pub strokes_plain : (n : ℕ) → with_unit (strokes n) ≡ none
unfolding strokes with_unit split_last
strokes_plain zero = refl
strokes_plain (suc n) = let last = last_stroke n in cc

pub strokes_finite : (n : ℕ) → (strokes n == "infinite") ≡ false
unfolding strokes
strokes_finite zero = refl
strokes_finite (suc n) = elim (Bool-cases (strokes (suc n) == "infinite")) [
  | inr f ↦ f
  | inl t ↦
      let same : String.◌∷◌ "1" (strokes n) ≡ "infinite" =
        (eq_iff (strokes (suc n)) "infinite").0 t in
      let heads = ap code (head-eq_of_cons-eq same) in absurd (omega (arith, heads))
]

abbrev pub unary : Numerals
unary = record {
  show = strokes;
  int = λ s. ok (count s);
  show_items = λ values. "[]";
  int-show = strokes_counted;
  show_plain = strokes_plain;
  show_finite = strokes_finite;
}
