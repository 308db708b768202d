-- ===== src/Uci/Export/Matching.antt =====
-- The regular expressions of the parser in foris_controller_backends/uci/__init__.py, as functions on
-- the characters of a line.
use Prim.Native.Char.{Char, code}
use foris_controller.Prelude.{
  ℕ, zero, suc, String, Bool, true, false, not, ◌&&◌, ◌||◌, Option, none, some, [], ◌∷◌, leb,
  length, if◌then◌else◌,
}
use foris_controller.Uci.Export.{Line, chars, eqb, is_space, is_quote}

-- What follows after a prefix.
unfoldable pub after : Line → Line → Option Line
after [] line = some line
after (p ∷ prefix) [] = none
after (p ∷ prefix) (c ∷ line) =
    let rest = after prefix line in if eqb (code p) (code c) then rest else none

abbrev pub present {ℓ} : {A : Type ℓ} → Option A → Bool
present none = false
present (some _) = true

abbrev pub startswith : Line → String → Bool
startswith line prefix = present (after (chars prefix) line)

-- \s*
unfoldable pub skip_spaces : Line → Line
skip_spaces [] = []
skip_spaces (c ∷ line) = let rest = skip_spaces line in if is_space c then rest else c ∷ line

-- [^\s]*, and what follows
unfoldable pub word : Line → Line × Line
word [] = ([], [])
word (c ∷ line) =
    let (name, rest) = word line in if is_space c then ([], c ∷ line) else (c ∷ name, rest)

abbrev pub blank : Line → Bool
blank [] = true
blank (_ ∷ _) = false

-- ends with a quote
unfoldable pub ends_quoted : Line → Bool
ends_quoted [] = false
ends_quoted (c ∷ []) = is_quote c
ends_quoted (c ∷ d ∷ line) = ends_quoted (d ∷ line)

-- ('.+')$
abbrev pub quoted_value : Line → Bool
quoted_value [] = false
quoted_value (c ∷ line) = is_quote c && leb 2 (length line) && ends_quoted line

-- ([^\s]+) ('.+')$
unfoldable pub assignment : Line → Option (Line × Line)
assignment line =
    let (name, rest) = word line in
    elim (after (chars " ") rest) [
      | none ↦ none
      | some value ↦ if not (blank name) && quoted_value value then some (name, value) else none
    ]

-- ^\s*option ..., ^\s*list ...
abbrev pub keyword_line : String → Line → Option (Line × Line)
keyword_line keyword line = elim (after (chars keyword) (skip_spaces line)) [
  | none ↦ none
  | some rest ↦ assignment rest
]

-- ([^\s]+)'$
unfoldable pub drop_quote : Line → Option Line
drop_quote [] = none
drop_quote (c ∷ []) = if is_quote c then some [] else none
drop_quote (c ∷ d ∷ line) = elim (drop_quote (d ∷ line)) [
  | none ↦ none
  | some name ↦ some (c ∷ name)
]

abbrev pub nonblank : Line → Option Line
nonblank [] = none
nonblank (c ∷ name) = some (c ∷ name)

abbrev pub closed_name : Line × Line → Option Line
closed_name (name, []) = elim (drop_quote name) [ none ↦ none | some n ↦ nonblank n ]
closed_name (name, _ ∷ _) = none

-- ^config ([^\s]+) '([^\s]+)'$
unfoldable pub config_line : Line → Option (Line × Line)
config_line line = elim (after (chars "config ") line) [
  | none ↦ none
  | some rest ↦
      let (section_type, more) = word rest in
      elim (after (chars " '") more) [
        | none ↦ none
        | some quoted ↦ elim (closed_name (word quoted)) [
          | none ↦ none
          | some name ↦ if blank section_type then none else some (section_type, name)
        ]
      ]
]

-- ^package ([^\s]+)$
abbrev pub whole : Line × Line → Option Line
whole (name, []) = nonblank name
whole (name, _ ∷ _) = none

unfoldable pub package_line : Line → Option Line
package_line line = elim (after (chars "package ") line) [
  | none ↦ none
  | some rest ↦ whole (word rest)
]

abbrev hex_digit : Char → Bool
hex_digit c = leb 48 (code c) && leb (code c) 57 || leb 97 (code c) && leb (code c) 102

unfoldable pub hex : ℕ → Line → Bool
hex zero [] = true
hex zero (_ ∷ _) = false
hex (suc n) [] = false
hex (suc n) (c ∷ line) = hex_digit c && hex n line

-- ^cfg[0-9a-f]{6}$
unfoldable pub anonymous_name : Line → Bool
anonymous_name name = elim (after (chars "cfg") name) [ none ↦ false | some digits ↦ hex 6 digits ]
