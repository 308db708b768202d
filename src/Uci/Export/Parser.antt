-- ===== src/Uci/Export/Parser.antt =====
-- _parse_section, _parse_package, _parse_packages and read of foris_controller_backends/uci. A
-- section's lines are the list until one that begins a section or a package; what is not read is
-- returned. A regular expression that does not match gives None, and `group` on it raises.
pub mod Lines
pub mod Options
pub mod Total
pub mod RoundTrip
use Prim.Native.Char.{Char, code}
use package.text.Mathlib.TextBridge.{of_list}
use foris_controller.Prelude.{
  ℕ, zero, suc, String, Bool, true, false, not, ◌&&◌, ◌||◌, Option, none, some, List, [], ◌∷◌, ◌++◌,
  Dict, lookup, insert, any, leb, length, if◌then◌else◌,
}
use foris_controller.Exceptions.{Raised, attribute_error, Result, ok, err, ◌>>=◌}
use foris_controller.Uci.{OptionValue, text, items, num, UciSection, UciData}
use foris_controller.Uci.Export.{Line, chars, eqb, is_space, is_quote, convert_value, splitlines}
use foris_controller.Uci.Export.Matching.{
  after, present, startswith, skip_spaces, word, blank, ends_quoted, quoted_value, assignment,
  keyword_line, drop_quote, nonblank, closed_name, config_line, whole, package_line, hex,
  anonymous_name,
}

abbrev pub Options : Type 0
Options = Dict OptionValue

-- result.get(list_name, []) and append: a text has no append
unfoldable pub append_to : Option OptionValue → String → Result OptionValue
append_to none value = ok (items (value ∷ []))
append_to (some (items values)) value = ok (items (values ++ value ∷ []))
append_to (some (text s)) value = err (attribute_error "'str' object has no attribute 'append'")
append_to (some (num n)) value = err (attribute_error "'int' object has no attribute 'append'")

unfoldable pub with_line : Line → Options → Result Options
with_line line result = elim (keyword_line "option " line) [
  | some (name, value) ↦ ok (insert (of_list name) (text (of_list (convert_value value))) result)
  | none ↦ elim (keyword_line "list " line) [
    | some (name, value) ↦
        append_to (lookup (of_list name) result) (of_list (convert_value value)) >>= λ v.
        ok (insert (of_list name) v result)
    | none ↦ ok result
  ]
]

unfoldable pub parse_section : List Line → Options → Result (Options × List Line)
parse_section [] result = ok (result, [])
parse_section (line ∷ lines) result = elim (startswith line "package" || startswith line "config") [
  | true ↦ ok (result, line ∷ lines)
  | false ↦ elim (with_line line result) [
    | err e ↦ err e
    | ok result' ↦ parse_section lines result'
  ]
]

abbrev pub no_match : Raised
no_match = attribute_error "'NoneType' object has no attribute 'group'"

abbrev pub section_of : Line → Line → Options → UciSection
section_of section_type section_name options = record {
  type = of_list section_type;
  name = of_list section_name;
  options = options;
  anonymous = anonymous_name section_name;
}

abbrev pub and_section :
    UciSection
    → Option (Result (List UciSection × List Line))
    → Option (Result (List UciSection × List Line))
and_section s none = none
and_section s (some (err e)) = some (err e)
and_section s (some (ok (result, lines))) = some (ok (s ∷ result, lines))

-- The rounds of the loop; `none` is that they are used up.
unfoldable pub parse_package : ℕ → List Line → Option (Result (List UciSection × List Line))
parse_package zero lines = none
parse_package (suc rounds) [] = some (ok ([], []))
parse_package (suc rounds) (line ∷ lines) = elim (startswith line "config") [
  | true ↦ elim (config_line line) [
    | none ↦ some (err no_match)
    | some (section_type, section_name) ↦ elim (parse_section lines []) [
      | err e ↦ some (err e)
      | ok (options, rest) ↦
          and_section (section_of section_type section_name options) (parse_package rounds rest)
    ]
  ]
  | false ↦ elim (startswith line "package") [
    | true ↦ some (ok ([], line ∷ lines))
    | false ↦ parse_package rounds lines
  ]
]

unfoldable pub parse_packages : ℕ → List Line → UciData → Option (Result UciData)
parse_packages zero lines result = none
parse_packages (suc rounds) [] result = some (ok result)
parse_packages (suc rounds) (line ∷ lines) result = elim (startswith line "package") [
  | false ↦ parse_packages rounds lines result
  | true ↦ elim (parse_package (suc (length lines)) lines) [
    | none ↦ none
    | some (err e) ↦ some (err e)
    | some (ok (sections, rest)) ↦ elim (package_line line) [
      | none ↦ some (err no_match)
      | some name ↦ parse_packages rounds rest (insert (of_list name) sections result)
    ]
  ]
]

-- read, of what export_data has given
unfoldable pub read : String → Option (Result UciData)
read output =
    let lines = splitlines false (chars output) in parse_packages (suc (length lines)) lines []
