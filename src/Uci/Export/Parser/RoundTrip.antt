-- ===== src/Uci/Export/Parser/RoundTrip.antt =====
-- The lines of an export, as `uci export` prints the configuration, and how they are read.
use mathlib.Core.List.{append_assoc, append-nil}
use package.text.Mathlib.TextBridge.{of_list}
use foris_controller.Prelude.{
  ℕ, zero, suc, ◌≤◌, ◌<◌, String, ◌≡◌, refl, sym, ap, ap₂, ◌∙◌, subst, false, some, List, [], ◌∷◌,
  ◌++◌, insert, All, length, length-append, arith,
}
use foris_controller.Exceptions.{ok}
use foris_controller.Uci.{UciSection, UciData}
use foris_controller.Uci.Export.{Line, chars, splitlines}
use foris_controller.Uci.Export.Splitting.{IsLine, unlines, splitlines-unlines}
use foris_controller.Uci.Export.Matching.{after, skip_spaces, anonymous_name}
use foris_controller.Uci.Export.Parser.{
  Options, parse_section, with_line, section_of, and_section, parse_package, parse_packages, read,
}
use foris_controller.Uci.Export.Parser.Lines.{
  of_list-chars, IsName, section_line, header_line, config_line-section, package_line-header,
}
use foris_controller.Uci.Export.Parser.Options.{
  Distinct, lookup-prefix, insert-new, options_lines, ArePrinted, parse_section-options,
}

abbrev pub section_lines : UciSection → List Line
section_lines s = section_line s.type s.name ∷ (options_lines s.options ++ ([] ∷ []))

abbrev pub sections_lines : List UciSection → List Line
sections_lines [] = []
sections_lines (s ∷ sections) = section_lines s ++ sections_lines sections

abbrev pub export_lines : UciData → List Line
export_lines [] = []
export_lines ((name, sections) ∷ d) =
    header_line name ∷ [] ∷ (sections_lines sections ++ export_lines d)

-- What an export can show: names, values that are not empty, each option once; a section is anonymous
-- by its name.
pub record IsSection (s : UciSection) : Type 0 where
  pub type_IsName : IsName s.type
  pub name_IsName : IsName s.name
  pub printed : ArePrinted s.options
  pub distinct : Distinct s.options
  pub by_name : anonymous_name (chars s.name) ≡ s.anonymous

abbrev pub ArePackages : UciData → Type 0
ArePackages = All (λ p. IsName p.0 × All IsSection p.1)

-- The options of a section end where the next section or package begins.
parse_section-end :
    (sections : List UciSection) (d : UciData) (result : Options)
    → parse_section ([] ∷ (sections_lines sections ++ export_lines d)) result
      ≡ ok (result, sections_lines sections ++ export_lines d)
unfolding parse_section with_line after skip_spaces
parse_section-end [] [] result = refl
parse_section-end [] ((name, sections) ∷ d) result = refl
parse_section-end (s ∷ sections) d result = refl

section_of-lem :
    (s : UciSection) → IsSection s → section_of (chars s.type) (chars s.name) s.options ≡ s
section_of-lem s h =
    ap₂
      (λ t n. record {
        type = t;
        name = n;
        options = s.options;
        anonymous = anonymous_name (chars s.name);
      })
      (of_list-chars s.type) (of_list-chars s.name)
    ∙ ap (λ b. record s { anonymous = b }) h.by_name

section_lines-read :
    (s : UciSection) (sections : List UciSection) (d : UciData)
    → IsSection s
    → parse_section
        (options_lines s.options ++ ([] ∷ []) ++ sections_lines sections ++ export_lines d)
        []
      ≡ ok (s.options, sections_lines sections ++ export_lines d)
section_lines-read s sections d h =
    ap (λ ls. parse_section ls [])
      (append_assoc (options_lines s.options ++ ([] ∷ [])) (sections_lines sections)
          (export_lines d)
        ∙ append_assoc (options_lines s.options) ([] ∷ [])
            (sections_lines sections ++ export_lines d))
    ∙ parse_section-options s.options ([] ∷ (sections_lines sections ++ export_lines d)) []
        h.printed h.distinct
    ∙ parse_section-end sections d s.options

parse_package-section :
    (rounds : ℕ) (s : UciSection) (sections : List UciSection) (d : UciData)
    → IsSection s
    → parse_package (suc rounds) (sections_lines (s ∷ sections) ++ export_lines d)
      ≡ and_section s (parse_package rounds (sections_lines sections ++ export_lines d))
unfolding parse_package after
parse_package-section rounds s sections d h =
    let line = config_line-section s.type s.name h.type_IsName h.name_IsName in
    let lines = section_lines-read s sections d h in let same = section_of-lem s h in cc

parse_package-blank :
    (rounds : ℕ) (lines : List Line)
    → parse_package (suc rounds) ([] ∷ lines) ≡ parse_package rounds lines
unfolding parse_package after
parse_package-blank rounds lines = refl

parse_package-sections :
    (rounds : ℕ) (sections : List UciSection) (d : UciData)
    → All IsSection sections
    → length sections < rounds
    → parse_package rounds (sections_lines sections ++ export_lines d)
      ≡ some (ok (sections, export_lines d))
parse_package-sections zero sections d h r = absurd (omega arith)
parse_package-sections (suc rounds) [] [] h r = unfold parse_package in refl
parse_package-sections (suc rounds) [] ((name, sections) ∷ d) h r =
    unfold parse_package in unfold after in refl
parse_package-sections (suc rounds) (s ∷ sections) d h r =
    parse_package-section rounds s sections d h.0
    ∙ ap (and_section s) (parse_package-sections rounds sections d h.1 (omega arith))

length-sections_lines :
    (sections : List UciSection) → length sections ≤ length (sections_lines sections)
length-sections_lines [] = omega arith
length-sections_lines (s ∷ sections) = omega (
  arith,
  length-append (section_lines s) (sections_lines sections),
  length-sections_lines sections,
)

length-export_lines : (d : UciData) → length d ≤ length (export_lines d)
length-export_lines [] = omega arith
length-export_lines ((name, sections) ∷ d) =
    omega (arith, length-append (sections_lines sections) (export_lines d), length-export_lines d)

parse_packages-package :
    (rounds : ℕ) (name : String) (sections : List UciSection) (d result : UciData)
    → IsName name
    → All IsSection sections
    → parse_packages (suc rounds) (export_lines ((name, sections) ∷ d)) result
      ≡ parse_packages rounds (export_lines d) (insert name sections result)
unfolding parse_packages after
parse_packages-package rounds name sections d result n h =
    let lines : List Line = [] ∷ (sections_lines sections ++ export_lines d) in
    let title = package_line-header name n in
    let many = length-sections_lines sections in
    let total = length-append (sections_lines sections) (export_lines d) in
    let body =
      parse_package-blank (length lines) (sections_lines sections ++ export_lines d)
      ∙ parse_package-sections (length lines) sections d h (omega (arith, many, total)) in
    let name' = of_list-chars name in cc

parse_packages-export :
    (rounds : ℕ) (d result : UciData)
    → ArePackages d
    → Distinct (result ++ d)
    → length d < rounds
    → parse_packages rounds (export_lines d) result ≡ some (ok (result ++ d))
parse_packages-export zero d result h k r = absurd (omega arith)
parse_packages-export (suc rounds) [] result h k r =
    unfold parse_packages in ap (λ x. some (ok x)) (sym (append-nil result))
parse_packages-export (suc rounds) ((name, sections) ∷ d) result h k r =
    let same = append_assoc result ((name, sections) ∷ []) d in
    parse_packages-package rounds name sections d result h.0.0 h.0.1
    ∙ ap (parse_packages rounds (export_lines d))
        (insert-new name sections result (lookup-prefix name sections result d k))
    ∙ parse_packages-export rounds d (result ++ ((name, sections) ∷ [])) h.1
        (subst Distinct (sym same) k) (omega (arith, r))
    ∙ ap (λ x. some (ok x)) same

chars-of_list : (s : Line) → chars (of_list s) ≡ s
chars-of_list [] = refl
chars-of_list (c ∷ s) = ap (λ t. c ∷ t) (chars-of_list s)

-- The configuration is read back from the text in which it is exported, if its packages have
-- different names, names and values can be shown, and none of the printed lines has a line break.
pub read-export_lines :
    (d : UciData)
    → ArePackages d
    → Distinct d
    → All IsLine (export_lines d)
    → read (of_list (unlines (export_lines d))) ≡ some (ok d)
unfolding read
read-export_lines d h k l =
    ap (λ s. parse_packages (suc (length (splitlines false s))) (splitlines false s) [])
      (chars-of_list (unlines (export_lines d)))
    ∙ ap (λ ls. parse_packages (suc (length ls)) ls []) (splitlines-unlines (export_lines d) l)
    ∙ parse_packages-export (suc (length (export_lines d))) d [] h k
        (omega (arith, length-export_lines d))
