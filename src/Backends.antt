-- ===== src/Backends.antt =====
-- What the backends of foris_controller_backends share: a run of calls of the methods of UciBackend
-- without a branch between them, and the reading of one configuration.
pub mod Calls
pub mod Strokes
pub mod Staging
pub mod Guest
pub mod Dns
pub mod Lan
pub mod Wan
pub mod Web
mod Tests
use Prim.Native.Char.{Char}
use package.text.Mathlib.TextBridge.{of_list}
use foris_controller.Prelude.{
  ℕ, zero, suc, ◌*◌, String, ◌==◌, ◌≡◌, refl, ◌&&◌, ◌||◌, Bool, true, false, Option, none, some,
  List, [], ◌∷◌, if◌then◌else◌,
}
use foris_controller.Exceptions.{
  Raised, uci_exception, uci_record_not_found, value_error, type_error, Result, ok, err,
}
use foris_controller.Uci.{OptionValue, text, items, num, UciData, UciSection}
use foris_controller.Uci.Export.{Line, chars, is}
use foris_controller.Uci.Export.Parser.{read}
use foris_controller.Uci.Backend.{
  Oracle, Backend, Uci, ◌>>=◌, ◌>>◌, pure, add_section, set_option, replace_list, export_data,
}

-- A call, of a section with a name, with the arguments as texts.
pub data Call : Type 0 where
  section : (config section_type section_name : String) → Call
  option : (config section_name option_name value : String) → Call
  replaced : (config section_name list_name : String) (values : List String) → Call

module _ (strip : String → String) (oracle : Oracle) where
  unfoldable pub run_call : Call → Uci (Unit {0})
  run_call (section config section_type section_name) = do
    add_section strip oracle config section_type (some section_name)
    pure tt
  run_call (option config section_name option_name value) =
      set_option strip oracle config section_name option_name value
  run_call (replaced config section_name list_name values) =
      replace_list strip oracle config section_name list_name values

  -- The calls in order; one that raises ends the run.
  unfoldable pub run_calls : List Call → Uci (Unit {0})
  run_calls [] = pure tt
  run_calls (call ∷ calls) = do run_call call; run_calls calls

  -- The parser has rounds enough, so that the first case does not occur.
  abbrev pub parsed : Option (Result UciData) → Uci UciData
  parsed none b = (err (value_error "no rounds"), b)
  parsed (some r) b = (r, b)

  -- backend.read(config)
  unfoldable pub read_config : String → Uci UciData
  read_config config = do output ← export_data strip oracle (some config); parsed (read output)

-- try: ... except UciException: pass, with a value for each outcome
abbrev pub except_uci {ℓ} : {A : Type ℓ} → A → Result A × Backend → Result A × Backend
except_uci a (ok x, b) = (ok x, b)
except_uci a (err (uci_exception args stderr), b) = (ok a, b)
except_uci a (err e, b) = (err e, b)

-- ... except (UciException, UciRecordNotFound)
abbrev pub except_missing {ℓ} : {A : Type ℓ} → A → Result A × Backend → Result A × Backend
except_missing a (ok x, b) = (ok x, b)
except_missing a (err (uci_exception args stderr), b) = (ok a, b)
except_missing a (err (uci_record_not_found _ _ _ _ _), b) = (ok a, b)
except_missing a (err e, b) = (err e, b)

unfoldable pub split_last : Line → Option (Line × Char)
split_last [] = none
split_last (c ∷ []) = some ([], c)
split_last (c ∷ d ∷ s) = elim (split_last (d ∷ s)) [
  | none ↦ none
  | some (rest, e) ↦ some (c ∷ rest, e)
]

-- endswith("m"), ("h") and ("d"): the text without the letter, and the seconds of the unit
unfoldable pub with_unit : String → Option (String × ℕ)
unfolding split_last
with_unit s = elim (split_last (chars s)) [
  | none ↦ none
  | some (rest, c) ↦
      if is 109 c
      then some (of_list rest, 60)
      else if is 104 c
      then some (of_list rest, 60 * 60)
      else if is 100 c
      then some (of_list rest, 60 * 60 * 24)
      else none
]

-- str(n), str of a list and int(s) of Python. A number is written with digits only.
pub record Numerals : Type 0 where
  pub show : ℕ → String
  pub int : String → Result ℕ
  pub show_items : List String → String
  pub int-show : (n : ℕ) → int (show n) ≡ ok n
  pub show_plain : (n : ℕ) → with_unit (show n) ≡ none
  pub show_finite : (n : ℕ) → (show n == "infinite") ≡ false

module _ (numerals : Numerals) where
  abbrev pub str_of : OptionValue → String
  str_of (text s) = s
  str_of (items values) = numerals.show_items values
  str_of (num n) = numerals.show n

  -- int(value): a number stays what it is, a list raises
  unfoldable pub int_of : OptionValue → Result ℕ
  int_of (text s) = numerals.int s
  int_of (items values) = err type_error
  int_of (num n) = ok n

  -- LanUci._normalize_lease
  unfoldable pub normalize_lease : OptionValue → Result ℕ
  unfolding with_unit
  normalize_lease value =
      let leasetime = str_of value in
      if leasetime == "infinite" then ok 0 else elim (with_unit leasetime) [
        | none ↦ numerals.int leasetime
        | some (number, seconds) ↦ elim (numerals.int number) [
          | err e ↦ err e
          | ok n ↦ ok (n * seconds)
        ]
      ]

  -- "infinite" if lease_time == 0 else lease_time
  unfoldable pub lease_option : ℕ → String
  lease_option zero = "infinite"
  lease_option (suc n) = numerals.show (suc n)

  pub normalize_lease-lease_option : (n : ℕ) → normalize_lease (text (lease_option n)) ≡ ok n
  unfolding normalize_lease lease_option
  normalize_lease-lease_option zero = refl
  normalize_lease-lease_option (suc n) =
      let plain = numerals.show_plain (suc n) in
      let finite = numerals.show_finite (suc n) in let back = numerals.int-show (suc n) in cc
