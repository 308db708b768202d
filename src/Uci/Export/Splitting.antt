-- ===== src/Uci/Export/Splitting.antt =====
-- str.splitlines on a text whose lines end with a line feed.
use Prim.Native.Char.{Char}
use foris_controller.Prelude.{◌≡◌, refl, ap, ◌∙◌, false, List, [], ◌∷◌, ◌++◌, any, All, arith}
use foris_controller.Uci.Export.{Line, chars, is_break, with_char, splitlines}

unfoldable pub unlines : List Line → Line
unlines [] = []
unlines (line ∷ lines) = line ++ (chars "\n" ++ unlines lines)

-- A line that splitlines does not break.
abbrev pub IsLine : Line → Type 0
IsLine line = any is_break line ≡ false

splitlines-char :
    (c : Char) (s : Line)
    → is_break c ≡ false
    → splitlines false (c ∷ s) ≡ with_char c (splitlines false s)
unfolding splitlines
splitlines-char c s h = ground (arith, h)

splitlines-line :
    (line s : Line)
    → IsLine line
    → splitlines false (line ++ (chars "\n" ++ s)) ≡ line ∷ splitlines false s
splitlines-line [] s h = unfold splitlines in unfold is_break in refl
splitlines-line (c ∷ line) s h =
    splitlines-char c (line ++ (chars "\n" ++ s)) (ground (arith, h))
    ∙ ap (with_char c) (splitlines-line line s (ground (arith, h)))

pub splitlines-unlines :
    (lines : List Line) → All IsLine lines → splitlines false (unlines lines) ≡ lines
unfolding unlines
splitlines-unlines [] h = unfold splitlines in refl
splitlines-unlines (line ∷ lines) h =
    splitlines-line line (unlines lines) h.0 ∙ ap (λ ls. line ∷ ls) (splitlines-unlines lines h.1)
