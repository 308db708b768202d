-- ===== src/Uci/Export/Parser/Lines.antt =====
-- The lines that `uci export` prints for an option, a list, a section and a package, and how the
-- regular expressions read them.
use package.text.Mathlib.TextBridge.{of_list}
use foris_controller.Prelude.{
  suc, ◌≤◌, String, ◌≡◌, refl, sym, ap, ap₂, ◌∙◌, true, false, ◌&&◌, Option, none, some, [], ◌∷◌,
  ◌++◌, any, leb, length, length-append, arith, Bool-cases, inl, inr, subst,
}
use foris_controller.Uci.Export.{Line, chars, is_space, is_quote}
use foris_controller.Uci.Export.Quoting.{body, quote, body-quote, body-plain}
use foris_controller.Uci.Export.Matching.{
  after, word, blank, ends_quoted, quoted_value, assignment, drop_quote, nonblank, whole,
  closed_name, config_line, package_line,
}

pub of_list-chars : (s : String) → of_list (chars s) ≡ s
of_list-chars String.[] = refl
of_list-chars (String.◌∷◌ c s) = ap (λ t. String.◌∷◌ c t) (of_list-chars s)

-- A name: not empty, and without spaces.
abbrev pub IsName : String → Type 0
IsName s = (blank (chars s) ≡ false) × (any is_space (chars s) ≡ false)

-- A value that an export can show: not empty.
abbrev pub IsShown : String → Type 0
IsShown s = blank (chars s) ≡ false

abbrev pub item_line : String → String → String → Line
item_line keyword name value =
    chars "\t" ++ (chars keyword ++ (chars name ++ (" " ∷ quote (chars value))))

abbrev pub section_line : String → String → Line
section_line section_type name =
    chars "config " ++ (chars section_type ++ (" " ∷ "'" ∷ (chars name ++ chars "'")))

abbrev pub header_line : String → Line
header_line name = chars "package " ++ chars name

word_all : (name : Line) → any is_space name ≡ false → word name ≡ (name, [])
unfolding word
word_all [] h = refl
word_all (c ∷ name) h =
    let plain : is_space c ≡ false = ground (arith, h) in
    let rest = word_all name (ground (arith, h)) in ground (arith, plain, rest)

word-space :
    (name rest : Line)
    → any is_space name ≡ false
    → word (name ++ (" " ∷ rest)) ≡ (name, " " ∷ rest)
unfolding word is_space
word-space [] rest h = refl
word-space (c ∷ name) rest h =
    let plain : is_space c ≡ false = ground (arith, h) in
    let later = word-space name rest (ground (arith, h)) in ground (arith, plain, later)

no_space-append : (s : Line) → any is_space s ≡ false → any is_space (s ++ chars "'") ≡ false
no_space-append [] h = unfold is_space in refl
no_space-append (c ∷ s) h = ground (arith, h, no_space-append s (ground (arith, h)))

ends_quoted-append : (s : Line) → ends_quoted (s ++ chars "'") ≡ true
unfolding ends_quoted
ends_quoted-append [] = refl
ends_quoted-append (c ∷ []) = refl
ends_quoted-append (c ∷ d ∷ s) = ends_quoted-append (d ∷ s)

body-length : (s : Line) → length s ≤ length (body s)
unfolding body
body-length [] = omega arith
body-length (c ∷ s) = elim (Bool-cases (is_quote c)) [
  | inl t ↦
      subst (λ l. suc (length s) ≤ length l) (sym (body-quote c s t)) (omega (arith, body-length s))
  | inr t ↦
      subst (λ l. suc (length s) ≤ length l) (sym (body-plain c s t)) (omega (arith, body-length s))
]

quoted_value-quote : (s : Line) → blank s ≡ false → quoted_value (quote s) ≡ true
unfolding quote
quoted_value-quote [] h = absurd (ground (arith, h))
quoted_value-quote (c ∷ s) h =
    let long = body-length (c ∷ s) in
    let more = length-append (body (c ∷ s)) (chars "'") in
    let ends = ends_quoted-append (body (c ∷ s)) in
    let two : leb 2 (length (body (c ∷ s) ++ chars "'")) ≡ true = ground (arith, long, more) in
    ap₂ (λ a b. a && b) two ends

-- A name and a quoted value are read.
pub assignment-line :
    (name value : String)
    → IsName name
    → IsShown value
    → assignment (chars name ++ (" " ∷ quote (chars value)))
      ≡ some (chars name, quote (chars value))
unfolding assignment after
assignment-line name value n v =
    let read = word-space (chars name) (quote (chars value)) n.1 in
    let good = quoted_value-quote (chars value) v in let full = n.0 in cc

drop_quote-append : (s : Line) → drop_quote (s ++ chars "'") ≡ some s
unfolding drop_quote
drop_quote-append [] = refl
drop_quote-append (c ∷ []) = refl
drop_quote-append (c ∷ d ∷ s) = let later = drop_quote-append (d ∷ s) in cc

nonblank_lem : (s : Line) → blank s ≡ false → nonblank s ≡ some s
nonblank_lem [] h = absurd (ground (arith, h))
nonblank_lem (c ∷ s) h = refl

closed_name-quoted :
    (name : String) → IsName name → closed_name (word (chars name ++ chars "'")) ≡ some (chars name)
closed_name-quoted name n =
    let all = word_all (chars name ++ chars "'") (no_space-append (chars name) n.1) in
    let dropped = drop_quote-append (chars name) in
    ap closed_name all
    ∙ ap (λ o. elim o as (λ x. Option Line) [ none ↦ none | some s ↦ nonblank s ]) dropped
    ∙ nonblank_lem (chars name) n.0

pub config_line-section :
    (section_type name : String)
    → IsName section_type
    → IsName name
    → config_line (section_line section_type name) ≡ some (chars section_type, chars name)
unfolding config_line after
config_line-section section_type name t n =
    let first = word-space (chars section_type) ("'" ∷ (chars name ++ chars "'")) t.1 in
    let second = closed_name-quoted name n in cc

pub package_line-header :
    (name : String) → IsName name → package_line (header_line name) ≡ some (chars name)
unfolding package_line after
package_line-header name n = ap whole (word_all (chars name) n.1) ∙ nonblank_lem (chars name) n.0
