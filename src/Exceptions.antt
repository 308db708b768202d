-- ===== src/Exceptions.antt =====
-- foris_controller/exceptions.py, and the built-in exceptions that the modelled code raises or
-- catches. An exception is a value; `text` is the message that its constructor builds. The
-- renderings of a number and of an argument list are Python's, and parameters.
use Prim.Native.String.{◌++◌}
use foris_controller.Prelude.{
  ◌≡◌, ◌⊎◌, refl, inl, inr, ℕ, String, ◌==◌, Option, none, some, List, if◌then◌else◌,
}

pub data Raised : Type 0 where
  generic_error : String → Raised
  backend_command_failed : (retval : ℕ) (args : List String) (strerr : String) → Raised
  failed_to_parse_command_output : (args : List String) (output : String) → Raised
  failed_to_parse_file_content : (path content : String) → Raised
  uci_exception : (cmdline_args : List String) (stderr : String) → Raised
  uci_type_exception : (value : String) (required_types : List String) → Raised
  uci_record_not_found :
      (config : String) (section section_type : Option String) (section_idx : Option ℕ)
      (option : Option String)
      → Raised
  service_cmd_failed : (service cmd : String) (explanation : Option String) → Raised
  os_error : (errno : ℕ) (strerror : String) → Raised
  key_error : String → Raised
  attribute_error : String → Raised
  index_error : Raised
  value_error : String → Raised
  type_error : Raised

pub data Result {ℓ} (A : Type ℓ) : Type ℓ where
  ok : A → Result A
  err : Raised → Result A

-- To split on a result and keep the equation.
pub Result-cases {ℓ} :
    {A : Type ℓ} (r : Result A) → ((a : A) × (r ≡ ok a)) ⊎ ((e : Raised) × (r ≡ err e))
Result-cases (ok a) = inl (a, refl)
Result-cases (err e) = inr (e, refl)

infixl 5 ◌>>=◌ ◌>>◌
abbrev pub ◌>>=◌ {ℓ κ} : {A : Type ℓ} {B : Type κ} → Result A → (A → Result B) → Result B
ok a >>= f = f a
err e >>= f = err e

abbrev pub ◌>>◌ {ℓ κ} : {A : Type ℓ} {B : Type κ} → Result A → Result B → Result B
m >> k = m >>= λ _. k

-- `if text:` for a text that may be None
abbrev pub when_text : Option String → (String → String) → String → String
when_text none f other = other
when_text (some s) f other = if s == "" then other else f s

module _ (show_num : ℕ → String) (show_args : List String → String) where
  index_part : Option ℕ → String
  index_part none = ""
  index_part (some i) = "[" ++ show_num i ++ "]"

  unfoldable pub uci_path :
      String → Option String → Option String → Option ℕ → Option String → String
  unfolding index_part
  uci_path config section section_type section_idx option =
      config
      ++ when_text section (λ s. "." ++ s)
          (when_text section_type (λ t. ".@" ++ t ++ index_part section_idx) "")
      ++ when_text option (λ o. "." ++ o) ""

  unfoldable pub text : Raised → String
  unfolding uci_path
  text (generic_error s) = s
  text (backend_command_failed retval args strerr) =
      if strerr == ""
      then "Retval=" ++ show_num retval ++ " for " ++ show_args args
      else "Retval=" ++ show_num retval ++ "(" ++ strerr ++ ") for " ++ show_args args
  text (failed_to_parse_command_output args output) = show_args args ++ ": " ++ output
  text (failed_to_parse_file_content path content) = path ++ ": " ++ content
  text (uci_exception args stderr) = show_args args ++ ": command failed (" ++ stderr ++ ")"
  text (uci_type_exception value required) =
      "'" ++ value ++ "' doesn't match any of required types " ++ show_args required
  text (uci_record_not_found config section section_type section_idx option) =
      "Uci record was not found '"
      ++ uci_path config section section_type section_idx option
      ++ "'."
  text (service_cmd_failed service cmd explanation) =
      "Calling '"
      ++ cmd
      ++ "' for service '"
      ++ service
      ++ "' failed."
      ++ when_text explanation (λ e. " (" ++ e ++ ")") ""
  text (os_error errno strerror) = strerror
  text (key_error key) = key
  text (attribute_error s) = s
  text index_error = "list index out of range"
  text (value_error s) = s
  text type_error = ""

-- What a chain has gone through when it returns.
pub from_bind {ℓ κ} :
    {A : Type ℓ} {B : Type κ} (r : Result A) (f : A → Result B) (b : B)
    → (r >>= f) ≡ ok b
    → (a : A) × (r ≡ ok a) × (f a ≡ ok b)
from_bind (ok a) f b h = (a, refl, h)
from_bind (err e) f b h = absurd cc
