-- ===== src/Uci.antt =====
-- foris_controller_backends/uci/__init__.py, the functions above the class UciBackend: reading the
-- data of an export. A section is a record for the dict with the keys type, name, data, anonymous.
pub mod Laws
pub mod Export
pub mod Backend
mod Tests
use foris_controller.Prelude.{
  ℕ, zero, suc, String, ◌==◌, ◌||◌, Bool, true, false, Option, none, some, List, [], ◌∷◌, Dict,
  lookup, any, filter, if◌then◌else◌,
}
use foris_controller.Exceptions.{
  Raised, uci_type_exception, uci_record_not_found, key_error, Result, ok, err, ◌>>=◌, ◌>>◌,
}

-- The value of an option: a text or a list of texts; defaults may be numbers too.
pub data OptionValue : Type 0 where
  text : String → OptionValue
  items : List String → OptionValue
  num : ℕ → OptionValue

pub record UciSection : Type 0 where
  pub type : String
  pub name : String
  pub options : Dict OptionValue
  pub anonymous : Bool

abbrev pub UciData : Type 0
UciData = Dict (List UciSection)

abbrev pub true_words : List String
true_words = "1" ∷ "on" ∷ "true" ∷ "yes" ∷ "enabled" ∷ []

abbrev pub false_words : List String
false_words = "0" ∷ "off" ∷ "false" ∷ "no" ∷ "disabled" ∷ []

unfoldable pub parse_bool : String → Result Bool
parse_bool value =
    if any (λ w. value == w) true_words
    then ok true
    else if any (λ w. value == w) false_words
    then ok false
    else err (uci_type_exception value ("bool" ∷ []))

-- The argument of store_bool: a bool, or a text that is checked.
pub data BoolOrText : Type 0 where
  flag : Bool → BoolOrText
  word : String → BoolOrText

unfoldable pub store_bool : BoolOrText → Result String
unfolding parse_bool
store_bool (flag b) = ok (if b then "1" else "0")
store_bool (word value) = do parse_bool value; ok value

unfoldable pub get_config : UciData → String → Result (List UciSection)
unfolding lookup
get_config d config = elim (lookup config d) [
  | none ↦ err (uci_record_not_found config none none none none)
  | some res ↦ ok res
]

abbrev pub first : Raised → List UciSection → Result UciSection
first e [] = err e
first e (s ∷ rest) = ok s

unfoldable pub get_section : UciData → String → String → Result UciSection
unfolding get_config
get_section d config section = do
  res ← get_config d config
  first (uci_record_not_found config (some section) none none none)
      (filter (λ e. e.name == section) res)

-- try: ... return True; except UciRecordNotFound: return False
unfoldable pub section_exists : UciData → String → String → Result Bool
unfolding get_section
section_exists d config section = elim (get_section d config section) [
  | ok s ↦ ok true
  | err (uci_record_not_found _ _ _ _ _) ↦ ok false
  | err e ↦ err e
]

abbrev pub or_default : Raised → Option OptionValue → Result OptionValue
or_default e none = err e
or_default e (some v) = ok v

unfoldable pub get_option_named :
    UciData → String → String → String → Option OptionValue → Result OptionValue
unfolding get_section lookup
get_option_named d config section option default =
    let missing =
      or_default (uci_record_not_found config (some section) none none (some option)) default in
    elim (get_section d config section) [
      | ok s ↦ elim (lookup option s.options) [ none ↦ missing | some v ↦ ok v ]
      | err (uci_record_not_found _ _ _ _ _) ↦ missing
      | err e ↦ err e
    ]

unfoldable pub get_sections_by_type : UciData → String → String → Result (List UciSection)
unfolding get_config
get_sections_by_type d config section_type = do
  res ← get_config d config
  ok (filter (λ e. e.type == section_type) res)

abbrev pub nth : Raised → List UciSection → ℕ → Result UciSection
nth e [] i = err e
nth e (s ∷ rest) zero = ok s
nth e (s ∷ rest) (suc i) = nth e rest i

unfoldable pub get_section_idx : UciData → String → String → ℕ → Result UciSection
unfolding get_sections_by_type
get_section_idx d config section_type idx = do
  res ← get_sections_by_type d config section_type
  nth (uci_record_not_found config none (some section_type) (some idx) none) res idx

-- Only the KeyError of a missing option is caught: a missing section is raised past the default.
unfoldable pub get_option_anonymous :
    UciData → String → String → ℕ → String → Option OptionValue → Result OptionValue
unfolding get_section_idx lookup
get_option_anonymous d config section_type idx option default = do
  s ← get_section_idx d config section_type idx
  elim (lookup option s.options) [
    | none ↦
        or_default (uci_record_not_found config none (some section_type) (some idx) (some option))
          default
    | some v ↦ ok v
  ]
