-- ===== src/Uci/Export/Quoting.antt =====
-- The values of an export: each is between quotes, and a quote in it is written '\''.
use Prim.Native.Char.{Char}
use package.text.Mathlib.TextEquality.{Char-path}
use mathlib.Core.List.{append_assoc}
use foris_controller.Prelude.{
  any, ℕ, ◌≡◌, refl, sym, ap, ◌∙◌, true, false, inl, inr, List, [], ◌∷◌, ◌++◌, arith, Bool-cases,
  if◌then◌else◌,
}
use foris_controller.Uci.Export.{
  Line, chars, is, is_quote, has_quote, without_last, lstrip, rstrip, strip, outside, inside, split,
  converted, join, convert_value,
}

-- How `uci export` writes a value.
unfoldable pub body : Line → Line
body [] = []
body (c ∷ s) = let rest = body s in if is_quote c then chars "'\\''" ++ rest else c ∷ rest

unfoldable pub quote : Line → Line
quote value = chars "'" ++ body value ++ chars "'"

pub body-quote : (c : Char) (s : Line) → is_quote c ≡ true → body (c ∷ s) ≡ chars "'\\''" ++ body s
unfolding body
body-quote c s h = ap (λ b. if b then chars "'\\''" ++ body s else c ∷ body s) h

pub body-plain : (c : Char) (s : Line) → is_quote c ≡ false → body (c ∷ s) ≡ c ∷ body s
unfolding body
body-plain c s h = ap (λ b. if b then chars "'\\''" ++ body s else c ∷ body s) h

quote_char : (c : Char) → is_quote c ≡ true → c ≡ "'"
quote_char c h = Char-path c "'" (ground arith)

module _ (n : ℕ) (q : Char) (is_q : is n q ≡ true) where
  rstrip-wrapped : (s : Line) → any (is n) s ≡ false → rstrip n (s ++ q ∷ []) ≡ s
  unfolding rstrip
  rstrip-wrapped [] h = ground (arith, is_q)
  rstrip-wrapped (c ∷ []) h = ground (arith, h, is_q)
  rstrip-wrapped (c ∷ d ∷ s) h =
      let rest = rstrip-wrapped (d ∷ s) (ground (arith, h)) in ap (without_last n c) rest

  -- A character that a text does not have is stripped off both of its ends.
  pub strip-wrapped : (s : Line) → any (is n) s ≡ false → strip n (q ∷ (s ++ q ∷ [])) ≡ s
  unfolding strip lstrip rstrip
  strip-wrapped [] h = ground (arith, is_q)
  strip-wrapped (c ∷ s) h =
      let plain : is n c ≡ false = ground (arith, h) in
      let inner = c ∷ (s ++ q ∷ []) in
      ap (λ b. rstrip n (if b then lstrip n inner else q ∷ inner)) is_q
      ∙ ap (λ b. rstrip n (if b then lstrip n (s ++ q ∷ []) else inner)) plain
      ∙ rstrip-wrapped (c ∷ s) h

strip-quoted : (s : Line) → has_quote s ≡ false → strip 39 (chars "'" ++ s ++ chars "'") ≡ s
strip-quoted s h = strip-wrapped 39 "'" refl s h

converted-quoted : (s : Line) → has_quote s ≡ false → converted (chars "'" ++ s ++ chars "'") ≡ s
converted-quoted [] h = strip-quoted [] h
converted-quoted (c ∷ []) h = strip-quoted (c ∷ []) h
converted-quoted (c ∷ d ∷ s) h = strip-quoted (c ∷ d ∷ s) h

has_quote-quoted : (s : Line) → has_quote (s ++ chars "'") ≡ true
has_quote-quoted [] = refl
has_quote-quoted (c ∷ s) = ground (arith, has_quote-quoted s)

has_quote-snoc :
    (s : Line) (c : Char)
    → has_quote s ≡ false
    → is_quote c ≡ false
    → has_quote (s ++ c ∷ []) ≡ false
has_quote-snoc [] c h k = ground (arith, k)
has_quote-snoc (d ∷ s) c h k = ground (arith, h, has_quote-snoc s c (ground (arith, h)) k)

-- The steps of the split.
split-open :
    (rest : Line)
    → has_quote rest ≡ true
    → split (outside []) (chars "'" ++ rest) ≡ [] ∷ split (inside (chars "'")) rest
unfolding split
split-open rest h =
    ap
      (λ b. elim b as (λ x. List Line) [
        | true ↦ [] ∷ split (inside (chars "'")) rest
        | false ↦ split (outside (chars "'")) rest
      ])
      h

split-close :
    (piece rest : Line)
    → split (inside piece) (chars "'" ++ rest) ≡ (piece ++ chars "'") ∷ split (outside []) rest
unfolding split
split-close piece rest = refl

split-escape :
    (rest : Line)
    → split (outside []) (chars "\\'" ++ rest) ≡ [] ∷ chars "\\'" ∷ split (outside []) rest
unfolding split
split-escape rest = refl

split-plain :
    (piece : Line) (c : Char) (rest : Line)
    → is_quote c ≡ false
    → split (inside piece) (c ∷ rest) ≡ split (inside (piece ++ c ∷ [])) rest
unfolding split
split-plain piece c rest h = ground (arith, h)

-- A quote of the value ends a piece, is read as the escaped one, and begins the next piece.
join-escaped :
    (piece rest : Line)
    → has_quote piece ≡ false
    → has_quote rest ≡ true
    → join (split (inside (chars "'" ++ piece)) (chars "'\\''" ++ rest))
      ≡ piece ++ "'" ∷ join (split (inside (chars "'")) rest)
unfolding join strip lstrip rstrip
join-escaped piece rest h k =
    ap join (split-close (chars "'" ++ piece) (chars "\\''" ++ rest))
    ∙ ap (λ ps. join ((chars "'" ++ piece ++ chars "'") ∷ ps)) (split-escape (chars "'" ++ rest))
    ∙ ap (λ ps. join ((chars "'" ++ piece ++ chars "'") ∷ [] ∷ chars "\\'" ∷ ps))
        (split-open rest k)
    ∙ ap (λ l. l ++ "'" ∷ join (split (inside (chars "'")) rest)) (converted-quoted piece h)

split-body :
    (s piece : Line)
    → has_quote piece ≡ false
    → join (split (inside (chars "'" ++ piece)) (body s ++ chars "'")) ≡ piece ++ s
split-body [] piece h =
    unfold split in
    unfold join in
    unfold body in
    unfold strip in unfold lstrip in unfold rstrip in ap (λ l. l ++ []) (converted-quoted piece h)
split-body (c ∷ s) piece h = elim (Bool-cases (is_quote c)) [
  | inl t ↦
      ap (λ l. join (split (inside (chars "'" ++ piece)) (l ++ chars "'"))) (body-quote c s t)
      ∙ join-escaped piece (body s ++ chars "'") h (has_quote-quoted (body s))
      ∙ ap (λ l. piece ++ "'" ∷ l) (split-body s [] refl)
      ∙ ap (λ d. piece ++ d ∷ s) (sym (quote_char c t))
  | inr t ↦
      ap (λ l. join (split (inside (chars "'" ++ piece)) (l ++ chars "'"))) (body-plain c s t)
      ∙ ap join (split-plain (chars "'" ++ piece) c (body s ++ chars "'") t)
      ∙ split-body s (piece ++ c ∷ []) (has_quote-snoc piece c h t)
      ∙ append_assoc piece (c ∷ []) s
]

-- A value is read back as it was.
pub convert_value-quote : (s : Line) → convert_value (quote s) ≡ s
unfolding convert_value quote join strip lstrip rstrip
convert_value-quote s =
    ap join (split-open (body s ++ chars "'") (has_quote-quoted (body s))) ∙ split-body s [] refl
