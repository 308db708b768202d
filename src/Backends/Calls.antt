-- ===== src/Backends/Calls.antt =====
-- What calls set, and what a configuration shows of it.
use foris_controller.Prelude.{
  String, ◌==◌, ◌&&◌, ◌≡◌, Option, none, some, List, [], ◌∷◌, All, Bool-cases, inl, inr, arith,
  eq_iff, ◌∙◌, ap, if◌then◌else◌,
}
use foris_controller.Exceptions.{ok, err}
use foris_controller.Uci.{OptionValue, text, UciData, get_option_named}
use foris_controller.Uci.Laws.{get_option_named-default}
use foris_controller.Backends.{Call, section, option, replaced}

-- The value that the first call for an option sets.
unfoldable pub value_of : List Call → String → String → String → Option String
value_of [] c s o = none
value_of (section _ _ _ ∷ calls) c s o = value_of calls c s o
value_of (replaced _ _ _ _ ∷ calls) c s o = value_of calls c s o
value_of (option config section_name option_name value ∷ calls) c s o =
    let rest = value_of calls c s o in
    if config == c && section_name == s && option_name == o then some value else rest

-- The data that are read of each configuration have the value that a call has set.
abbrev pub Shows : (String → UciData) → Call → Type 0
Shows read_of (section _ _ _) = Unit
Shows read_of (replaced _ _ _ _) = Unit
Shows read_of (option config section_name option_name value) =
    get_option_named (read_of config) config section_name option_name none ≡ ok (text value)

pub shown :
    (read_of : String → UciData) (calls : List Call) (c s o v : String)
    → All (Shows read_of) calls
    → value_of calls c s o ≡ some v
    → get_option_named (read_of c) c s o none ≡ ok (text v)
unfolding value_of
shown read_of [] c s o v h e = absurd cc
shown read_of (section _ _ _ ∷ calls) c s o v h e = shown read_of calls c s o v h.1 e
shown read_of (replaced _ _ _ _ ∷ calls) c s o v h e = shown read_of calls c s o v h.1 e
shown read_of (option config section_name option_name value ∷ calls) c s o v h e =
    let found = config == c && section_name == s && option_name == o in
    elim (Bool-cases found) [
      | inl t ↦
          let same_config : config ≡ c = ground (arith, eq_iff config c, t) in
          let same_section : section_name ≡ s = ground (arith, eq_iff section_name s, t) in
          let same_option : option_name ≡ o = ground (arith, eq_iff option_name o, t) in
          let same_value : value ≡ v = ground (arith, t, e) in let there = h.0 in cc
      | inr t ↦ shown read_of calls c s o v h.1 (ground (arith, t, e))
    ]

pub shown_default :
    (read_of : String → UciData) (calls : List Call) (c s o v : String) (default : OptionValue)
    → All (Shows read_of) calls
    → value_of calls c s o ≡ some v
    → get_option_named (read_of c) c s o (some default) ≡ ok (text v)
shown_default read_of calls c s o v default h e =
    get_option_named-default (read_of c) c s o default
    ∙ ap (λ r. ok (elim r [ ok x ↦ x | err _ ↦ default ])) (shown read_of calls c s o v h e)
