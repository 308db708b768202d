-- ===== src/Uci/Export/Parser/Total.antt =====
-- How many rounds the loops of the parser take.
use package.text.Mathlib.TextBridge.{of_list}
use foris_controller.Prelude.{
  ℕ, zero, suc, ◌≤◌, ◌<◌, String, ◌≡◌, refl, true, false, ◌||◌, Option, none, some, List, [], ◌∷◌,
  length, arith, insert,
}
use foris_controller.Exceptions.{Result, ok, err}
use foris_controller.Uci.{UciSection, UciData}
use foris_controller.Uci.Export.{Line, chars, splitlines}
use foris_controller.Uci.Export.Matching.{startswith, config_line, package_line}
use foris_controller.Uci.Export.Parser.{
  Options, with_line, parse_section, section_of, and_section, no_match, parse_package,
  parse_packages, read,
}

-- Lines are only taken away.
abbrev SectionLeaves : ℕ → Result (Options × List Line) → Type 0
SectionLeaves n (ok (options, rest)) = length rest ≤ n
SectionLeaves n (err e) = Unit

abbrev PackageLeaves : ℕ → Option (Result (List UciSection × List Line)) → Type 0
PackageLeaves n none = ⊥
PackageLeaves n (some (ok (sections, rest))) = length rest ≤ n
PackageLeaves n (some (err e)) = Unit

SectionLeaves-le :
    (m n : ℕ) (r : Result (Options × List Line)) → m ≤ n → SectionLeaves m r → SectionLeaves n r
SectionLeaves-le m n (ok (options, rest)) le h = omega arith
SectionLeaves-le m n (err e) le h = tt

PackageLeaves-le :
    (m n : ℕ) (r : Option (Result (List UciSection × List Line)))
    → m ≤ n
    → PackageLeaves m r
    → PackageLeaves n r
PackageLeaves-le m n none le h = h
PackageLeaves-le m n (some (ok (sections, rest))) le h = omega arith
PackageLeaves-le m n (some (err e)) le h = tt

parse_section-SectionLeaves :
    (lines : List Line) (result : Options)
    → SectionLeaves (length lines) (parse_section lines result)
unfolding parse_section
parse_section-SectionLeaves [] result = omega arith
parse_section-SectionLeaves (line ∷ lines) result =
    elim (startswith line "package" || startswith line "config")
      as (λ b. SectionLeaves (suc (length lines)) (elim b [
        | true ↦ ok (result, line ∷ lines)
        | false ↦ elim (with_line line result) [
          | err e ↦ err e
          | ok result' ↦ parse_section lines result'
        ]
      ])) [
        | true ↦ omega arith
        | false ↦
            elim (with_line line result)
              as (λ r.
                SectionLeaves (suc (length lines))
                  (elim r [ err e ↦ err e | ok result' ↦ parse_section lines result' ])) [
                    | err e ↦ tt
                    | ok result' ↦
                        SectionLeaves-le (length lines) (suc (length lines))
                          (parse_section lines result') (omega arith)
                          (parse_section-SectionLeaves lines result')
                  ]
      ]

and_section-PackageLeaves :
    (s : UciSection) (n : ℕ) (r : Option (Result (List UciSection × List Line)))
    → PackageLeaves n r
    → PackageLeaves n (and_section s r)
and_section-PackageLeaves s n none h = h
and_section-PackageLeaves s n (some (ok (sections, rest))) h = h
and_section-PackageLeaves s n (some (err e)) h = tt

-- After the options of a section, the rest of the package.
and_rest :
    (rounds n : ℕ) (names : Line × Line) (r : Result (Options × List Line))
    → SectionLeaves n r
    → ((rest : List Line) → length rest ≤ n → PackageLeaves n (parse_package rounds rest))
    → PackageLeaves n (elim r [
      | err e ↦ some (err e)
      | ok (options, rest) ↦
          and_section (section_of names.0 names.1 options) (parse_package rounds rest)
    ])
and_rest rounds n names (err e) h later = tt
and_rest rounds n names (ok (options, rest)) h later =
    and_section-PackageLeaves (section_of names.0 names.1 options) n (parse_package rounds rest)
      (later rest h)

and_config :
    (rounds n : ℕ) (o : Option (Line × Line)) (r : Result (Options × List Line))
    → SectionLeaves n r
    → ((rest : List Line) → length rest ≤ n → PackageLeaves n (parse_package rounds rest))
    → PackageLeaves (suc n) (elim o [
      | none ↦ some (err no_match)
      | some names ↦ elim r [
        | err e ↦ some (err e)
        | ok (options, rest) ↦
            and_section (section_of names.0 names.1 options) (parse_package rounds rest)
      ]
    ])
and_config rounds n none r h later = tt
and_config rounds n (some names) r h later =
    PackageLeaves-le n (suc n) _ (omega arith) (and_rest rounds n names r h later)

parse_package-PackageLeaves :
    (rounds : ℕ) (lines : List Line)
    → length lines < rounds
    → PackageLeaves (length lines) (parse_package rounds lines)
unfolding parse_package
parse_package-PackageLeaves zero lines h = absurd (omega arith)
parse_package-PackageLeaves (suc rounds) [] h = omega arith
parse_package-PackageLeaves (suc rounds) (line ∷ lines) h =
    let n : ℕ = length lines in
    let later : (rest : List Line) → length rest ≤ n → PackageLeaves n (parse_package rounds rest) =
      λ rest le.
        PackageLeaves-le (length rest) n (parse_package rounds rest) le
          (parse_package-PackageLeaves rounds rest (omega arith)) in
    elim (startswith line "config")
      as (λ b. PackageLeaves (suc n) (elim b [
        | true ↦ elim (config_line line) [
          | none ↦ some (err no_match)
          | some names ↦ elim (parse_section lines []) [
            | err e ↦ some (err e)
            | ok (options, rest) ↦
                and_section (section_of names.0 names.1 options) (parse_package rounds rest)
          ]
        ]
        | false ↦ elim (startswith line "package") [
          | true ↦ some (ok ([], line ∷ lines))
          | false ↦ parse_package rounds lines
        ]
      ])) [
        | true ↦
            and_config rounds n (config_line line) (parse_section lines [])
              (parse_section-SectionLeaves lines []) later
        | false ↦
            elim (startswith line "package")
              as (λ b. PackageLeaves (suc n) (elim b [
                | true ↦ some (ok ([], line ∷ lines))
                | false ↦ parse_package rounds lines
              ])) [
                | true ↦ omega arith
                | false ↦
                    PackageLeaves-le n (suc n) (parse_package rounds lines) (omega arith)
                      (later lines (omega arith))
              ]
      ]

-- After the sections of a package, the rest of the packages.
and_packages :
    (rounds n : ℕ) (line : Line) (result : UciData)
    (r : Option (Result (List UciSection × List Line)))
    → PackageLeaves n r
    → ((rest : List Line) (result' : UciData)
        → length rest ≤ n
        → (out : Result UciData) × (parse_packages rounds rest result' ≡ some out))
    → (out : Result UciData) × (elim r as (λ x. Option (Result UciData)) [
      | none ↦ none
      | some (err e) ↦ some (err e)
      | some (ok (sections, rest)) ↦ elim (package_line line) [
        | none ↦ some (err no_match)
        | some name ↦ parse_packages rounds rest (insert (of_list name) sections result)
      ]
    ]
        ≡ some out)
and_packages rounds n line result none h later = absurd h
and_packages rounds n line result (some (err e)) h later = (err e, refl)
and_packages rounds n line result (some (ok (sections, rest))) h later =
    elim (package_line line)
      as (λ o.
        (out : Result UciData) × (elim o as (λ x. Option (Result UciData)) [
          | none ↦ some (err no_match)
          | some name ↦ parse_packages rounds rest (insert (of_list name) sections result)
        ]
          ≡ some out)) [
            | none ↦ (err no_match, refl)
            | some name ↦ later rest (insert (of_list name) sections result) h
          ]

parse_packages_total :
    (rounds : ℕ) (lines : List Line) (result : UciData)
    → length lines < rounds
    → (out : Result UciData) × (parse_packages rounds lines result ≡ some out)
unfolding parse_packages
parse_packages_total zero lines result h = absurd (omega arith)
parse_packages_total (suc rounds) [] result h = (ok result, refl)
parse_packages_total (suc rounds) (line ∷ lines) result h =
    elim (startswith line "package")
      as (λ b.
        (out : Result UciData) × (elim b as (λ x. Option (Result UciData)) [
          | false ↦ parse_packages rounds lines result
          | true ↦ elim (parse_package (suc (length lines)) lines) [
            | none ↦ none
            | some (err e) ↦ some (err e)
            | some (ok (sections, rest)) ↦ elim (package_line line) [
              | none ↦ some (err no_match)
              | some name ↦ parse_packages rounds rest (insert (of_list name) sections result)
            ]
          ]
        ]
          ≡ some out)) [
            | false ↦ parse_packages_total rounds lines result (omega arith)
            | true ↦
                and_packages rounds (length lines) line result
                  (parse_package (suc (length lines)) lines)
                  (parse_package-PackageLeaves (suc (length lines)) lines (omega arith))
                  (λ rest result' le. parse_packages_total rounds rest result' (omega (arith, le)))
          ]

-- Whatever the text is, read returns or raises: its rounds are enough.
pub read_total : (output : String) → (out : Result UciData) × (read output ≡ some out)
unfolding read
read_total output =
    let lines = splitlines false (chars output) in
    parse_packages_total (suc (length lines)) lines [] (omega arith)
