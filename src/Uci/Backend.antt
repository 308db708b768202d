-- ===== src/Uci/Backend.antt =====
-- The class UciBackend of foris_controller_backends/uci/__init__.py. The `uci` program, the lock's
-- other users and the file system are outside: what a command prints is a parameter, any function
-- of the command and of all that has happened before. A method appends what it does to the trace.
-- The removal of what an earlier transaction left in the change directory (_cleanup) is one event:
-- `enter` and `with_backend` are for one that does not fail, and `transaction` takes what it raises.
-- The set of affected configs is a list without repetition; its order is that of the insertion.
pub mod Quiet
pub mod Transaction
pub mod Locking
mod Tests
use Prim.Native.String.{◌++◌}
use mathlib.Core.List.{◌++◌ as append}
use foris_controller.Prelude.{
  ℕ, zero, suc, String, ◌==◌, Bool, true, false, Option, none, some, List, [], ◌∷◌, any,
  if◌then◌else◌,
}
use foris_controller.Exceptions.{Raised, uci_exception, os_error, Result, ok, err}

pub data Event : Type 0 where
  acquired released cleaned : Event
  -- a command line, and what is written to its input
  ran : List String → Option String → Event

-- The program's exit code, output and error output, or what subprocess raises.
pub data Outcome : Type 0 where
  exited : (retval : ℕ) (stdout stderr : String) → Outcome
  not_started : (errno : ℕ) (strerror : String) → Outcome

-- The newest event first.
abbrev pub Trace : Type 0
Trace = List Event

abbrev pub Oracle : Type 0
Oracle = Trace → List String → Option String → Outcome

pub record Backend : Type 0 where
  pub config_dir : String
  pub affected_configs : List String
  pub trace : Trace

abbrev pub Uci {ℓ} : Type ℓ → Type ℓ
Uci A = Backend → Result A × Backend

-- What is left of a block after a statement that returned or raised.
abbrev pub go_on {ℓ κ} :
    {A : Type ℓ} {B : Type κ} → Result A × Backend → (A → Uci B) → Result B × Backend
go_on (ok a, c) f = f a c
go_on (err e, c) f = (err e, c)

infixl 5 ◌>>=◌ ◌>>◌
abbrev pub ◌>>=◌ {ℓ κ} : {A : Type ℓ} {B : Type κ} → Uci A → (A → Uci B) → Uci B
◌>>=◌ m f b = go_on (m b) f

abbrev pub ◌>>◌ {ℓ κ} : {A : Type ℓ} {B : Type κ} → Uci A → Uci B → Uci B
m >> n = m >>= λ _. n

abbrev pub pure {ℓ} : {A : Type ℓ} → A → Uci A
pure a b = (ok a, b)

abbrev pub changes_dir : String
changes_dir = "/tmp/.uci-foris-controller"

abbrev pub first_word : List String → String
first_word [] = ""
first_word (a ∷ rest) = a

unfoldable pub cmdline_args : String → List String → List String
cmdline_args config_dir args = append ("uci" ∷ []) (
    append (if first_word args == "export" then "-n" ∷ [] else []) (
      append
        ("-c"
          ∷ config_dir
          ∷ (if first_word args == "commit" then "-p" else "-P")
          ∷ changes_dir
          ∷ [])
        args))

abbrev pub emit : Event → Backend → Backend
emit e b = record b { trace = e ∷ b.trace }

-- str.strip of the output that names an anonymous section is a parameter beside the oracle.
module _ (strip : String → String) (oracle : Oracle) where
  -- handle_command: the process runs, and its outcome comes back
  unfoldable pub handle_command : List String → Option String → Uci (ℕ × String × String)
  handle_command args input b = elim (oracle b.trace args input) [
    | exited retval stdout stderr ↦ (ok (retval, stdout, stderr), emit (ran args input) b)
    | not_started errno strerror ↦ (err (os_error errno strerror), emit (ran args input) b)
  ]

  unfoldable pub check_retval : List String → Bool → ℕ × String × String → Uci String
  check_retval args fail_on_error (zero, stdout, stderr) b = (ok stdout, b)
  check_retval args fail_on_error (suc n, stdout, stderr) b =
      if fail_on_error then (err (uci_exception args stderr), b) else (ok stdout, b)

  unfoldable pub run_uci_command : List String → Bool → Option String → Uci String
  unfolding handle_command check_retval cmdline_args
  run_uci_command args fail_on_error input b =
      (do
        res ← handle_command (cmdline_args b.config_dir args) input
        check_retval (cmdline_args b.config_dir args) fail_on_error res)
        b

  -- self.affected_configs.add(config)
  unfoldable pub affect : String → Uci (Unit {0})
  affect config b = (
    ok tt,
    if any (λ c. c == config) b.affected_configs
        then b
        else record b { affected_configs = append b.affected_configs (config ∷ []) },
  )

  abbrev pub ignore_os_error {ℓ} : {A : Type ℓ} → Result A × Backend → Result (Unit {0}) × Backend
  ignore_os_error (ok a, c) = (ok tt, c)
  ignore_os_error (err (os_error errno strerror), c) = (ok tt, c)
  ignore_os_error (err e, c) = (err e, c)

  unfoldable pub run_reload_config : Uci (Unit {0})
  unfolding handle_command
  run_reload_config b = ignore_os_error (handle_command ("reload_config" ∷ []) none b)

  -- `none` for a section with a name
  unfoldable pub add_section : String → String → Option String → Uci (Option String)
  add_section config section_type none = do
    retval ← run_uci_command ("add" ∷ config ∷ section_type ∷ []) false none
    affect config
    pure (some (strip retval))
  add_section config section_type (some section_name) = do
    run_uci_command ("set" ∷ (config ++ "." ++ section_name ++ "=" ++ section_type) ∷ []) true none
    affect config
    pure none

  unfoldable pub del_section : String → String → Uci (Unit {0})
  del_section config section_name = do
    run_uci_command ("delete" ∷ (config ++ "." ++ section_name) ∷ []) true none
    affect config

  unfoldable pub set_option : String → String → String → String → Uci (Unit {0})
  set_option config section_name option_name value = do
    run_uci_command
        ("set" ∷ (config ++ "." ++ section_name ++ "." ++ option_name ++ "=" ++ value) ∷ []) true
        none
    affect config

  unfoldable pub del_option : String → String → String → Bool → Uci (Unit {0})
  del_option config section_name option_name fail_on_error = do
    run_uci_command ("delete" ∷ (config ++ "." ++ section_name ++ "." ++ option_name) ∷ [])
        fail_on_error none
    affect config

  -- for value in values: self._run_uci_command(verb, ...)
  unfoldable pub each_value : String → String → List String → Uci (Unit {0})
  each_value verb path [] = pure tt
  each_value verb path (value ∷ values) = do
    run_uci_command (verb ∷ (path ++ "=" ++ value) ∷ []) true none
    each_value verb path values

  abbrev pub list_path : String → String → String → String
  list_path config section_name list_name = config ++ "." ++ section_name ++ "." ++ list_name

  unfoldable pub add_to_list : String → String → String → List String → Uci (Unit {0})
  add_to_list config section_name list_name values = do
    each_value "add_list" (list_path config section_name list_name) values
    affect config

  -- values=None is the empty list here: `if values` is false for both
  unfoldable pub del_from_list : String → String → String → List String → Uci (Unit {0})
  del_from_list config section_name list_name [] = do
    run_uci_command ("delete" ∷ list_path config section_name list_name ∷ []) true none
    affect config
  del_from_list config section_name list_name (value ∷ values) = do
    each_value "del_list" (list_path config section_name list_name) (value ∷ values)
    affect config

  -- try: ... except UciException: pass
  abbrev pub ignore_uci_exception {ℓ} :
      {A : Type ℓ} → Result A × Backend → Result (Unit {0}) × Backend
  ignore_uci_exception (ok a, c) = (ok tt, c)
  ignore_uci_exception (err (uci_exception args stderr), c) = (ok tt, c)
  ignore_uci_exception (err e, c) = (err e, c)

  unfoldable pub delete_list : String → String → String → Uci (Unit {0})
  delete_list config section_name list_name b =
      ignore_uci_exception
        (run_uci_command ("delete" ∷ list_path config section_name list_name ∷ []) true none b)

  unfoldable pub replace_list : String → String → String → List String → Uci (Unit {0})
  replace_list config section_name list_name values = do
    delete_list config section_name list_name
    add_to_list config section_name list_name values
    affect config

  unfoldable pub export_data : Option String → Uci String
  export_data none = run_uci_command ("export" ∷ []) true none
  export_data (some config) =
      if config == ""
      then run_uci_command ("export" ∷ []) true none
      else run_uci_command ("export" ∷ config ∷ []) true none

  unfoldable pub import_data : String → String → Uci (Unit {0})
  import_data content config = do
    run_uci_command ("import" ∷ config ∷ []) true (some content)
    pure tt

  -- for config in self.affected_configs: commit, then revert
  unfoldable pub commit_all : List String → Uci (Unit {0})
  commit_all [] = pure tt
  commit_all (config ∷ configs) = do
    run_uci_command ("commit" ∷ config ∷ []) true none
    run_uci_command ("revert" ∷ config ∷ []) true none
    commit_all configs

  unfoldable pub commit : Uci (Unit {0})
  commit b =
      (do
        commit_all b.affected_configs
        elim b.affected_configs [ [] ↦ pure tt | _ ∷ _ ↦ run_reload_config ])
        b

  -- __enter__ and _cleanup
  unfoldable pub enter : Backend → Backend
  enter b = emit cleaned (emit acquired b)

  -- __exit__ by the body's outcome: an exception of `commit` leaves the method before the release
  abbrev pub leave {ℓ} : {A : Type ℓ} → A → Result (Unit {0}) × Backend → Result A × Backend
  leave a (ok _, c) = (ok a, emit released c)
  leave a (err e, c) = (err e, c)

  unfoldable pub exit {ℓ} : {A : Type ℓ} → Result A → Uci A
  exit (ok a) b = elim b.affected_configs [
    | [] ↦ (ok a, emit released b)
    | _ ∷ _ ↦ leave a (commit b)
  ]
  exit (err e) b = (err e, emit released b)

  -- with UciBackend() as backend: body
  unfoldable pub with_backend {ℓ} : {A : Type ℓ} → String → Uci A → Trace → Result A × Trace
  with_backend config_dir body trace =
      let start : Backend = record {
        config_dir = config_dir;
        affected_configs = [];
        trace = trace;
      } in
      let (r, b) = body (enter start) in let (r', c) = exit r b in (r', c.trace)

  -- The same by what _cleanup raises, if it does: __exit__ is not called for an exception of __enter__.
  unfoldable pub transaction {ℓ} :
      {A : Type ℓ} → Option Raised → String → Uci A → Trace → Result A × Trace
  transaction none config_dir body trace = with_backend config_dir body trace
  transaction (some e) config_dir body trace = (err e, acquired ∷ trace)
