-- ===== src/Uci/Export/Parser/Options.antt =====
-- The options of a section, as `uci export` prints them and as _parse_section reads them.
use mathlib.Core.List.{append_assoc, append-nil}
use package.text.Mathlib.TextBridge.{of_list}
use foris_controller.Prelude.{
  String, ◌==◌, ◌≡◌, refl, sym, ap, ap₂, ◌∙◌, subst, false, ◌||◌, none, some, List, [], ◌∷◌, ◌++◌,
  map, Dict, lookup, insert, All, arith, eq_refl, eq_iff,
}
use foris_controller.Exceptions.{Result, ok, ◌>>=◌}
use foris_controller.Uci.{OptionValue, text, items, num}
use foris_controller.Uci.Export.{Line, chars, is_space, convert_value}
use foris_controller.Uci.Export.Quoting.{quote, convert_value-quote}
use foris_controller.Uci.Export.Matching.{after, skip_spaces, startswith}
use foris_controller.Uci.Export.Parser.{Options, append_to, with_line, parse_section}
use foris_controller.Uci.Export.Parser.Lines.{
  of_list-chars, IsName, IsShown, item_line, assignment-line,
}

-- Dictionaries whose keys are distinct.
module _ {ℓ} {V : Type ℓ} where
  abbrev pub Distinct : Dict V → Type 0
  Distinct [] = Unit
  Distinct ((k, v) ∷ d) = All (λ e. (e.0 == k) ≡ false) d × Distinct d

  All-middle :
      (k : String) (v : V) (j : String) (d rest : Dict V)
      → All (λ e. (e.0 == j) ≡ false) (d ++ ((k, v) ∷ rest))
      → (k == j) ≡ false
  All-middle k v j [] rest h = h.0
  All-middle k v j (e ∷ d) rest h = All-middle k v j d rest h.1

  pub lookup-prefix :
      (k : String) (v : V) (d rest : Dict V) → Distinct (d ++ ((k, v) ∷ rest)) → lookup k d ≡ none
  unfolding lookup
  lookup-prefix k v [] rest h = refl
  lookup-prefix k v ((j, w) ∷ d) rest h =
      ground
        (arith, eq_iff k j, eq_iff j k, All-middle k v j d rest h.0, lookup-prefix k v d rest h.1)

  pub insert-new :
      (k : String) (v : V) (d : Dict V) → lookup k d ≡ none → insert k v d ≡ d ++ ((k, v) ∷ [])
  unfolding lookup insert
  insert-new k v [] h = refl
  insert-new k v ((j, w) ∷ d) h = ground (arith, h, insert-new k v d)

  insert-last :
      (k : String) (v w : V) (d : Dict V)
      → lookup k d ≡ none
      → insert k w (d ++ ((k, v) ∷ [])) ≡ d ++ ((k, w) ∷ [])
  unfolding lookup insert
  insert-last k v w [] h = ground (arith, eq_refl k)
  insert-last k v w ((j, x) ∷ d) h = ground (arith, h, insert-last k v w d)

  lookup-last :
      (k : String) (v : V) (d : Dict V) → lookup k d ≡ none → lookup k (d ++ ((k, v) ∷ [])) ≡ some v
  unfolding lookup
  lookup-last k v [] h = ground (arith, eq_refl k)
  lookup-last k v ((j, x) ∷ d) h = ground (arith, h, lookup-last k v d)

abbrev pub option_lines : String → OptionValue → List Line
option_lines name (text value) = item_line "option " name value ∷ []
option_lines name (items values) = map (item_line "list " name) values
option_lines name (num n) = []

abbrev pub options_lines : Options → List Line
options_lines [] = []
options_lines ((name, value) ∷ options) = option_lines name value ++ options_lines options

-- What an export can show.
abbrev pub IsPrinted : OptionValue → Type 0
IsPrinted (text value) = IsShown value
IsPrinted (items []) = ⊥
IsPrinted (items (value ∷ values)) = All IsShown (value ∷ values)
IsPrinted (num n) = ⊥

abbrev pub ArePrinted : Options → Type 0
ArePrinted = All (λ o. IsName o.0 × IsPrinted o.1)

read_back : (value : String) → of_list (convert_value (quote (chars value))) ≡ value
read_back value = ap of_list (convert_value-quote (chars value)) ∙ of_list-chars value

with_line-option :
    (name value : String) (result : Options)
    → IsName name
    → IsShown value
    → with_line (item_line "option " name value) result ≡ ok (insert name (text value) result)
unfolding with_line after skip_spaces is_space
with_line-option name value result n v =
    let read = assignment-line name value n v in
    let name' = of_list-chars name in let value' = read_back value in cc

with_line-list :
    (name value : String) (result : Options)
    → IsName name
    → IsShown value
    → with_line (item_line "list " name value) result
      ≡ (append_to (lookup name result) value >>= λ w. ok (insert name w result))
unfolding with_line after skip_spaces is_space
with_line-list name value result n v =
    let read = assignment-line name value n v in
    ap
      (λ o. elim o as (λ x. Result Options) [
        | none ↦ ok result
        | some (m, w) ↦ append_to (lookup (of_list m) result) (of_list (convert_value w)) >>= λ u.
            ok (insert (of_list m) u result)
      ])
      read
    ∙ ap₂ (λ m w. append_to (lookup m result) w >>= λ u. ok (insert m u result))
        (of_list-chars name) (read_back value)

-- A line that begins no section and no package is taken into the options.
parse_section-line :
    (line : Line) (lines : List Line) (result result' : Options)
    → (startswith line "package" || startswith line "config") ≡ false
    → with_line line result ≡ ok result'
    → parse_section (line ∷ lines) result ≡ parse_section lines result'
unfolding parse_section
parse_section-line line lines result result' plain read = cc

append-last :
    (name value : String) (done : List String) (result : Options)
    → lookup name result ≡ none
    → (append_to (lookup name (result ++ ((name, items done) ∷ []))) value >>= λ w.
        ok (insert name w (result ++ ((name, items done) ∷ []))))
      ≡ ok (result ++ ((name, items (done ++ (value ∷ []))) ∷ []))
unfolding append_to
append-last name value done result fresh =
    ap (λ o. append_to o value >>= λ w. ok (insert name w (result ++ ((name, items done) ∷ []))))
      (lookup-last name (items done) result fresh)
    ∙ ap ok (insert-last name (items done) (items (done ++ (value ∷ []))) result fresh)

append-first :
    (name value : String) (result : Options)
    → lookup name result ≡ none
    → (append_to (lookup name result) value >>= λ w. ok (insert name w result))
      ≡ ok (result ++ ((name, items (value ∷ [])) ∷ []))
unfolding append_to
append-first name value result fresh =
    ap (λ o. append_to o value >>= λ w. ok (insert name w result)) fresh
    ∙ ap ok (insert-new name (items (value ∷ [])) result fresh)

-- The further lines of a list.
parse_section-values :
    (name : String) (done values : List String) (lines : List Line) (result : Options)
    → IsName name
    → All IsShown values
    → lookup name result ≡ none
    → parse_section
        (map (item_line "list " name) values ++ lines)
        (result ++ ((name, items done) ∷ []))
      ≡ parse_section lines (result ++ ((name, items (done ++ values)) ∷ []))
parse_section-values name done [] lines result n v fresh =
    ap (λ vs. parse_section lines (result ++ ((name, items vs) ∷ []))) (sym (append-nil done))
parse_section-values name done (value ∷ values) lines result n v fresh =
    parse_section-line (item_line "list " name value) (map (item_line "list " name) values ++ lines)
      (result ++ ((name, items done) ∷ [])) (result ++ ((name, items (done ++ (value ∷ []))) ∷ []))
      (unfold after in refl)
      (with_line-list name value (result ++ ((name, items done) ∷ [])) n v.0
        ∙ append-last name value done result fresh)
    ∙ parse_section-values name (done ++ (value ∷ [])) values lines result n v.1 fresh
    ∙ ap (λ vs. parse_section lines (result ++ ((name, items vs) ∷ [])))
        (append_assoc done (value ∷ []) values)

parse_section-option :
    (name : String) (value : OptionValue) (lines : List Line) (result : Options)
    → IsName name
    → IsPrinted value
    → lookup name result ≡ none
    → parse_section (option_lines name value ++ lines) result
      ≡ parse_section lines (result ++ ((name, value) ∷ []))
parse_section-option name (text value) lines result n v fresh =
    parse_section-line (item_line "option " name value) lines result
      (result ++ ((name, text value) ∷ [])) (unfold after in refl)
      (with_line-option name value result n v ∙ ap ok (insert-new name (text value) result fresh))
parse_section-option name (items []) lines result n v fresh = absurd v
parse_section-option name (items (value ∷ values)) lines result n v fresh =
    parse_section-line (item_line "list " name value) (map (item_line "list " name) values ++ lines)
      result (result ++ ((name, items (value ∷ [])) ∷ [])) (unfold after in refl)
      (with_line-list name value result n v.0 ∙ append-first name value result fresh)
    ∙ parse_section-values name (value ∷ []) values lines result n v.1 fresh
parse_section-option name (num m) lines result n v fresh = absurd v

-- The options of a section are read in order.
pub parse_section-options :
    (options : Options) (lines : List Line) (result : Options)
    → ArePrinted options
    → Distinct (result ++ options)
    → parse_section (options_lines options ++ lines) result
      ≡ parse_section lines (result ++ options)
parse_section-options [] lines result p d = ap (parse_section lines) (sym (append-nil result))
parse_section-options ((name, value) ∷ options) lines result p d =
    let fresh = lookup-prefix name value result options d in
    let same = append_assoc result ((name, value) ∷ []) options in
    ap (λ ls. parse_section ls result)
      (append_assoc (option_lines name value) (options_lines options) lines)
    ∙ parse_section-option name value (options_lines options ++ lines) result p.0.0 p.0.1 fresh
    ∙ parse_section-options options lines (result ++ ((name, value) ∷ [])) p.1
        (subst Distinct (sym same) d)
    ∙ ap (parse_section lines) same
