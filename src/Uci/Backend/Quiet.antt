-- ===== src/Uci/Backend/Quiet.antt =====
-- Methods of UciBackend that stage changes: they only run `uci` commands other than commit.
use mathlib.Core.List.{append_assoc}
use foris_controller.Prelude.{
  ℕ, zero, suc, String, ◌==◌, ◌≡◌, refl, Bool, true, false, not, Option, none, some, List, [], ◌∷◌,
  ◌++◌, All, All-append, Bool-cases, ◌⊎◌, inl, inr, arith, sym, ap, ◌∙◌,
}
use foris_controller.Exceptions.{Result, ok, err}
use foris_controller.Uci.Backend.{
  Event, ran, Outcome, exited, not_started, Trace, Oracle, Backend, Uci, go_on, ◌>>=◌, pure,
  handle_command, check_retval, cmdline_args, run_uci_command, affect, add_section, del_section,
  set_option, del_option, each_value, add_to_list, del_from_list, ignore_uci_exception, list_path,
  delete_list, replace_list, export_data, import_data,
}

-- The verb of a command line that `cmdline_args` builds stands behind five words.
abbrev pub is_commit : Event → Bool
is_commit (ran (a ∷ b ∷ c ∷ d ∷ e ∷ verb ∷ rest) input) = verb == "commit"
is_commit _ = false

abbrev pub is_staging : Event → Bool
is_staging (ran (a ∷ b ∷ c ∷ d ∷ e ∷ verb ∷ rest) input) = not (verb == "commit")
is_staging (ran _ input) = true
is_staging _ = false

abbrev pub AllStaging : Trace → Type 0
AllStaging = All (λ e. is_staging e ≡ true)

pub Outcome-cases :
    (o : Outcome)
    → ((n : ℕ) × (out : String) × (e : String) × (o ≡ exited n out e))
      ⊎ ((n : ℕ) × (e : String) × (o ≡ not_started n e))
Outcome-cases (exited n out e) = inl (n, out, e, refl)
Outcome-cases (not_started n e) = inr (n, e, refl)

-- Whether it returns or raises, `m` adds staging commands to the trace and nothing else.
pub record Stages {ℓ} {A : Type ℓ} (m : Uci A) : Type 0 where
  pub at :
      (b : Backend)
      → (new : Trace) × ((m b).1.trace ≡ new ++ b.trace)
        × AllStaging new
        × ((m b).1.config_dir ≡ b.config_dir)

module _ {ℓ} {A : Type ℓ} where
  pub Stages-pure : (a : A) → Stages (pure a)
  Stages-pure a = record { at = λ b. ([], refl, tt, refl) }

module _ {ℓ κ} {A : Type ℓ} {B : Type κ} where
  go_on-Stages :
      (r : Result A) (c b : Backend) (f : A → Uci B) (new : Trace)
      → ((a : A) → Stages (f a))
      → c.trace ≡ new ++ b.trace
      → AllStaging new
      → c.config_dir ≡ b.config_dir
      → (new' : Trace) × ((go_on (r, c) f).1.trace ≡ new' ++ b.trace)
        × AllStaging new'
        × ((go_on (r, c) f).1.config_dir ≡ b.config_dir)
  go_on-Stages (ok a) c b f new h e q d =
      let (more, e', q', d') = (h a).at c in
      (
        more ++ new,
        e' ∙ ap (λ t. more ++ t) e ∙ sym (append_assoc more new b.trace),
        All-append _ more new q' q,
        d' ∙ d,
      )
  go_on-Stages (err x) c b f new h e q d = (new, e, q, d)

  pub Stages-bind :
      (m : Uci A) (f : A → Uci B) → Stages m → ((a : A) → Stages (f a)) → Stages (m >>= f)
  Stages-bind m f hm hf = record {
    at = λ b. let (new, e, q, d) = hm.at b in go_on-Stages (m b).0 (m b).1 b f new hf e q d;
  }

-- For each configuration directory, the command line is no commit.
abbrev pub IsStagingLine : List String → Option String → Type 0
IsStagingLine args input = (dir : String) → is_staging (ran (cmdline_args dir args) input) ≡ true

module _ (strip : String → String) (oracle : Oracle) where
  check_retval-state :
      (args : List String) (fail : Bool) (r : ℕ × String × String) (b : Backend)
      → (check_retval strip oracle args fail r b).1 ≡ b
  unfolding check_retval
  check_retval-state args fail (zero, out, e) b = refl
  check_retval-state args true (suc n, out, e) b = refl
  check_retval-state args false (suc n, out, e) b = refl

  pub go_on-state {ℓ κ} :
      {A : Type ℓ} {B : Type κ} (r : Result A) (c : Backend) (f : A → Uci B)
      → ((a : A) → (f a c).1 ≡ c)
      → (go_on (r, c) f).1 ≡ c
  go_on-state (ok a) c f h = h a
  go_on-state (err e) c f h = refl

  handle_command-state :
      (args : List String) (input : Option String) (b : Backend)
      → (handle_command strip oracle args input b).1 ≡ record b { trace = ran args input ∷ b.trace }
  unfolding handle_command
  handle_command-state args input b = ground arith

  -- A command adds itself to the trace, and changes nothing else of the backend.
  pub run_uci_command-state :
      (args : List String) (fail : Bool) (input : Option String) (b : Backend)
      → (run_uci_command strip oracle args fail input b).1
        ≡ record b { trace = ran (cmdline_args b.config_dir args) input ∷ b.trace }
  run_uci_command-state args fail input b =
      unfold run_uci_command in
      go_on-state (handle_command strip oracle (cmdline_args b.config_dir args) input b).0
        (handle_command strip oracle (cmdline_args b.config_dir args) input b).1 _
        (λ a. check_retval-state (cmdline_args b.config_dir args) fail a _)
      ∙ handle_command-state (cmdline_args b.config_dir args) input b

  Stages-run :
      (args : List String) (fail : Bool) (input : Option String)
      → IsStagingLine args input
      → Stages (run_uci_command strip oracle args fail input)
  Stages-run args fail input h = record {
    at = λ b.
        rw (run_uci_command-state args fail input b)
          (ran (cmdline_args b.config_dir args) input ∷ [], refl, (h b.config_dir, tt), refl);
  }

  Stages-affect : (config : String) → Stages (affect strip oracle config)
  unfolding affect
  Stages-affect config = record { at = λ b. ([], ground arith, tt, ground arith) }

  Stages-each_value :
      (verb path : String) (values : List String)
      → ((v : String) → IsStagingLine (verb ∷ v ∷ []) none)
      → Stages (each_value strip oracle verb path values)
  unfolding each_value
  Stages-each_value verb path [] h = Stages-pure tt
  Stages-each_value verb path (v ∷ vs) h =
      Stages-bind _ _ (Stages-run _ true none (h _)) (λ _. Stages-each_value verb path vs h)

  -- The command lines of the methods below.
  Stages-set_line : (x : String) → Stages (run_uci_command strip oracle ("set" ∷ x ∷ []) true none)
  unfolding cmdline_args
  Stages-set_line x = Stages-run ("set" ∷ x ∷ []) true none (λ dir. refl)

  Stages-delete_line :
      (x : String) (fail : Bool)
      → Stages (run_uci_command strip oracle ("delete" ∷ x ∷ []) fail none)
  unfolding cmdline_args
  Stages-delete_line x fail = Stages-run ("delete" ∷ x ∷ []) fail none (λ dir. refl)

  Stages-add_line :
      (config section_type : String)
      → Stages (run_uci_command strip oracle ("add" ∷ config ∷ section_type ∷ []) false none)
  unfolding cmdline_args
  Stages-add_line config section_type =
      Stages-run ("add" ∷ config ∷ section_type ∷ []) false none (λ dir. refl)

  Stages-export_line :
      (configs : List String) → Stages (run_uci_command strip oracle ("export" ∷ configs) true none)
  unfolding cmdline_args
  Stages-export_line configs = Stages-run ("export" ∷ configs) true none (λ dir. refl)

  Stages-import_line :
      (content config : String)
      → Stages (run_uci_command strip oracle ("import" ∷ config ∷ []) true (some content))
  unfolding cmdline_args
  Stages-import_line content config =
      Stages-run ("import" ∷ config ∷ []) true (some content) (λ dir. refl)

  pub Stages-add_section :
      (config section_type : String) (section_name : Option String)
      → Stages (add_section strip oracle config section_type section_name)
  unfolding add_section
  Stages-add_section config section_type none =
      Stages-bind _ _ (Stages-add_line _ _)
        (λ r. Stages-bind _ _ (Stages-affect config) (λ _. Stages-pure _))
  Stages-add_section config section_type (some name) =
      Stages-bind _ _ (Stages-set_line _)
        (λ r. Stages-bind _ _ (Stages-affect config) (λ _. Stages-pure _))

  pub Stages-del_section :
      (config section_name : String) → Stages (del_section strip oracle config section_name)
  unfolding del_section
  Stages-del_section config section_name =
      Stages-bind _ _ (Stages-delete_line _ true) (λ _. Stages-affect config)

  pub Stages-set_option :
      (config section_name option_name value : String)
      → Stages (set_option strip oracle config section_name option_name value)
  unfolding set_option
  Stages-set_option config section_name option_name value =
      Stages-bind _ _ (Stages-set_line _) (λ _. Stages-affect config)

  pub Stages-del_option :
      (config section_name option_name : String) (fail : Bool)
      → Stages (del_option strip oracle config section_name option_name fail)
  unfolding del_option
  Stages-del_option config section_name option_name fail =
      Stages-bind _ _ (Stages-delete_line _ fail) (λ _. Stages-affect config)

  pub Stages-add_to_list :
      (config section_name list_name : String) (values : List String)
      → Stages (add_to_list strip oracle config section_name list_name values)
  unfolding add_to_list cmdline_args
  Stages-add_to_list config section_name list_name values =
      Stages-bind _ _ (Stages-each_value "add_list" _ values (λ v dir. refl))
        (λ _. Stages-affect config)

  pub Stages-del_from_list :
      (config section_name list_name : String) (values : List String)
      → Stages (del_from_list strip oracle config section_name list_name values)
  unfolding del_from_list cmdline_args
  Stages-del_from_list config section_name list_name [] =
      Stages-bind _ _ (Stages-delete_line _ true) (λ _. Stages-affect config)
  Stages-del_from_list config section_name list_name (v ∷ vs) =
      Stages-bind _ _ (Stages-each_value "del_list" _ (v ∷ vs) (λ v dir. refl))
        (λ _. Stages-affect config)

  ignored-state {ℓ} :
      {A : Type ℓ} (r : Result A) (c : Backend) → (ignore_uci_exception strip oracle (r, c)).1 ≡ c
  ignored-state r c = ground arith

  Stages-delete_list :
      (config section_name list_name : String)
      → Stages (delete_list strip oracle config section_name list_name)
  unfolding delete_list
  Stages-delete_list config section_name list_name = record {
    at = λ b.
        rw
          (ignored-state
            (run_uci_command strip oracle
              ("delete" ∷ list_path strip oracle config section_name list_name ∷ []) true none b).0
            (run_uci_command strip oracle
              ("delete" ∷ list_path strip oracle config section_name list_name ∷ []) true none b).1)
          ((Stages-delete_line (list_path strip oracle config section_name list_name) true).at b);
  }

  pub Stages-replace_list :
      (config section_name list_name : String) (values : List String)
      → Stages (replace_list strip oracle config section_name list_name values)
  unfolding replace_list
  Stages-replace_list config section_name list_name values =
      Stages-bind _ _ (Stages-delete_list config section_name list_name) (λ _.
        Stages-bind _ _ (Stages-add_to_list config section_name list_name values)
          (λ _. Stages-affect config))

  pub Stages-export_data : (config : Option String) → Stages (export_data strip oracle config)
  unfolding export_data
  Stages-export_data none = (Stages-export_line _)
  Stages-export_data (some config) = elim (Bool-cases (config == "")) [
    | inl e ↦ rw e (Stages-export_line _)
    | inr e ↦ rw e (Stages-export_line _)
  ]

  pub Stages-import_data :
      (content config : String) → Stages (import_data strip oracle content config)
  unfolding import_data
  Stages-import_data content config =
      Stages-bind _ _ (Stages-import_line content config) (λ _. Stages-pure tt)
