-- ===== src/Uci/Export.antt =====
-- UciBackend.read of foris_controller_backends/uci/__init__.py: the parser of what `uci export`
-- prints. A line is a list of characters; the regular expressions are written out.
pub mod Quoting
pub mod Splitting
pub mod Matching
pub mod Parser
mod Tests
use Prim.Native.Char.{Char, code}
use Prim.Native.Nat.{compare, Ordering}
use package.text.Mathlib.TextBridge.{of_list}
use foris_controller.Prelude.{
  ℕ, zero, suc, String, Bool, true, false, not, ◌&&◌, ◌||◌, Option, none, some, List, [], ◌∷◌, ◌++◌,
  Dict, lookup, insert, any, leb, length, if◌then◌else◌,
}
use foris_controller.Exceptions.{Raised, attribute_error, Result, ok, err}
use foris_controller.Uci.{OptionValue, text, items, num, UciSection, UciData}

abbrev pub Line : Type 0
Line = List Char

abbrev pub chars : String → Line
chars String.[] = []
chars (String.◌∷◌ c s) = c ∷ chars s

abbrev pub eqb : ℕ → ℕ → Bool
eqb a b = elim (compare a b) [ Ordering.eq ↦ true | _ ↦ false ]

abbrev pub is : ℕ → Char → Bool
is n c = eqb (code c) n

abbrev between : ℕ → ℕ → ℕ → Bool
between a b n = leb a n && leb n b

-- \s and str.isspace
unfoldable pub is_space : Char → Bool
is_space c =
    let n = code c in
    between 9 13 n
    || between 28 32 n
    || eqb n 133
    || eqb n 160
    || eqb n 5760
    || between 8192 8202 n
    || between 8232 8233 n
    || eqb n 8239
    || eqb n 8287
    || eqb n 12288

-- str.splitlines; the flag is that the last character was a carriage return.
unfoldable pub is_break : Char → Bool
is_break c =
    let n = code c in between 10 13 n || between 28 30 n || eqb n 133 || between 8232 8233 n

abbrev pub with_char : Char → List Line → List Line
with_char c [] = (c ∷ []) ∷ []
with_char c (line ∷ rest) = (c ∷ line) ∷ rest

unfoldable pub splitlines : Bool → Line → List Line
splitlines after_return [] = []
splitlines after_return (c ∷ s) = elim (is 10 c && after_return) [
  | true ↦ splitlines false s
  | false ↦ elim (is_break c) [
    | true ↦ [] ∷ splitlines (is 13 c) s
    | false ↦ with_char c (splitlines false s)
  ]
]

abbrev pub is_quote : Char → Bool
is_quote c = is 39 c

-- str.strip of one character, by its number
unfoldable pub lstrip : ℕ → Line → Line
lstrip n [] = []
lstrip n (c ∷ s) = let rest = lstrip n s in if is n c then rest else c ∷ s

abbrev pub without_last : ℕ → Char → Line → Line
without_last n c [] = if is n c then [] else c ∷ []
without_last n c (d ∷ s) = c ∷ d ∷ s

unfoldable pub rstrip : ℕ → Line → Line
rstrip n [] = []
rstrip n (c ∷ s) = without_last n c (rstrip n s)

unfoldable pub strip : ℕ → Line → Line
strip n s = rstrip n (lstrip n s)

-- re.split(r"('[^']*'|\\')", value): what was read of a piece between the matches, of a quoted one,
-- or the backslash of an escaped quote.
pub data Mode : Type 0 where
  outside : Line → Mode
  inside : Line → Mode
  escaped : Mode

abbrev pub quote_next : Line → Bool
quote_next [] = false
quote_next (c ∷ s) = is_quote c

abbrev pub has_quote : Line → Bool
has_quote s = any is_quote s

unfoldable pub split : Mode → Line → List Line
split (outside piece) [] = piece ∷ []
split (inside piece) [] = piece ∷ []
split escaped [] = []
split (outside piece) (c ∷ s) = elim (is_quote c && has_quote s) [
  | true ↦ piece ∷ split (inside (c ∷ [])) s
  | false ↦ elim (is 92 c && quote_next s) [
    | true ↦ piece ∷ split escaped s
    | false ↦ split (outside (piece ++ c ∷ [])) s
  ]
]
split (inside piece) (c ∷ s) = elim (is_quote c) [
  | true ↦ (piece ++ c ∷ []) ∷ split (outside []) s
  | false ↦ split (inside (piece ++ c ∷ [])) s
]
split escaped (c ∷ s) = chars "\\'" ∷ split (outside []) s

-- "'" if e == "\\'" else e.strip("'"); the empty pieces are left out and would add nothing
abbrev pub converted : Line → Line
converted (c ∷ d ∷ []) = if is 92 c && is_quote d then d ∷ [] else strip 39 (c ∷ d ∷ [])
converted e = strip 39 e

unfoldable pub join : List Line → Line
join [] = []
join (piece ∷ rest) = converted piece ++ join rest

unfoldable pub convert_value : Line → Line
convert_value value = join (split (outside []) value)
