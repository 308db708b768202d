-- ===== src/Backends/Web.antt =====
-- foris_controller_backends/web/__init__.py, the class WebUciCommands: the wizard, its workflows and
-- the language. What is read of the system's files and of the hardware is a parameter.
mod Workflows
mod Tests
use foris_controller.Prelude.{
  ℕ, String, ◌==◌, Bool, true, false, not, ◌&&◌, ◌||◌, Option, none, some, List, [], ◌∷◌, ◌++◌, any,
  ltb, leb, split_on, if◌then◌else◌,
}
use foris_controller.Exceptions.{type_error, Result, ok, err, ◌>>=◌}
use foris_controller.Uci.{OptionValue, text, items, num, UciData, get_option_named}
use foris_controller.Uci.Export.{chars}
use foris_controller.Uci.Backend.{
  Trace, Oracle, Uci, ◌>>=◌ as ◌>>>=◌, ◌>>◌, pure, add_section, set_option, del_option,
  replace_list, with_backend,
}
use foris_controller.Backends.{
  Call, section, option, replaced, run_calls, read_config, except_uci, Numerals, int_of, str_of,
}
use foris_controller.Backends.Guest.Reading.{parse_value}
use foris_controller.Backends.Guest.Transaction.{lift}
use foris_controller.Backends.Lan.Leases.{occurs}
use foris_controller.Profiles.{workflow_steps, next_step, is_subset}

-- The version of the system, its model and its contract, and the number of interfaces that are not
-- wireless.
pub record System : Type 0 where
  pub os_version : String
  pub model : String
  pub contract : String
  pub interfaces : ℕ

abbrev first_part : List String → String
first_part [] = ""
first_part (part ∷ parts) = part

-- step in passed: in a text it is a part
abbrev pub is_in : String → OptionValue → Bool
is_in step (items passed) = any (λ e. e == step) passed
is_in step (text passed) = occurs (chars step) (chars passed)
is_in step (num n) = false

-- passed += [step]
abbrev pub with_step : String → OptionValue → Result OptionValue
with_step step (items passed) = ok (items (passed ++ step ∷ []))
with_step step _ = err type_error

-- The characters of a text are no steps.
abbrev pub covers : OptionValue → List String → Bool
covers (items passed) steps = is_subset steps passed
covers _ steps = is_subset steps []

-- WORKFLOWS[workflow]: a list is no key
abbrev pub steps_of : OptionValue → Result (List String)
steps_of (text workflow) = workflow_steps workflow
steps_of _ = err type_error

abbrev first_outside : OptionValue → List String → Option String
first_outside passed [] = none
first_outside passed (step ∷ steps) =
    let rest = first_outside passed steps in if is_in step passed then rest else some step

abbrev pub next_of : (passed workflow : OptionValue) → Result (Option String)
next_of (items passed) (text workflow) = next_step passed workflow
next_of passed workflow = steps_of workflow >>= λ steps. ok (first_outside passed steps)

pub record Guide : Type 0 where
  pub enabled : Bool
  pub workflow : OptionValue
  pub passed : OptionValue
  pub next_step : Option String

abbrev pub recommended : System → ℕ → String
recommended system version =
    if ltb 3 version
    then (if system.model == "turris"
        then "old"
        else if ltb 1 system.interfaces
        then "router"
        else "bridge")
    else "old"

abbrev pub available : System → ℕ → List String
available system version =
    if leb 4 version
    then (if system.model == "turris"
        then "old" ∷ []
        else if ltb 1 system.interfaces
        then "router" ∷ "min" ∷ "bridge" ∷ []
        else "min" ∷ "bridge" ∷ [])
    else if system.model == "turris" || system.model == "omnia"
    then "old" ∷ []
    else []

module _ (numerals : Numerals) (system : System) where
  -- int(version.split(".", 1)[0])
  abbrev pub major : Result ℕ
  major = numerals.int (first_part (split_on b'.' system.os_version))

  unfoldable pub detect_basic_workflow : Result String
  detect_basic_workflow = major >>= λ n. ok (
      if ltb n 4
      then "old"
      else if system.model == "turris"
      then "old"
      else if system.contract == "shield"
      then "shield"
      else "unset")

  unfoldable pub detect_recommended_workflow : Result String
  detect_recommended_workflow = major >>= λ n. ok (recommended system n)

  unfoldable pub detect_available_workflows : Result (List String)
  detect_available_workflows = major >>= λ n. ok (available system n)

  abbrev pub wizard_option : UciData → String → OptionValue → Result OptionValue
  wizard_option foris_data name default =
      get_option_named foris_data "foris" "wizard" name (some default)

  unfoldable pub get_guide_data : UciData → Result Guide
  get_guide_data foris_data = do
    finished_text ← wizard_option foris_data "finished" (text "0")
    finished ← parse_value numerals finished_text
    step_text ← wizard_option foris_data "allowed_step_max" (text "0")
    step ← int_of numerals step_text
    basic ← detect_basic_workflow
    workflow ← wizard_option foris_data "workflow" (text basic)
    passed ← wizard_option foris_data "passed" (items [])
    next ← next_of passed workflow
    ok record {
      enabled = not finished && ltb step 7;
      workflow = workflow;
      passed = passed;
      next_step = if not finished && ltb step 7 then next else none;
    }

  module _ (strip : String → String) (oracle : Oracle) where
    abbrev pub set_passed : OptionValue → Uci (Unit {0})
    set_passed (items passed) =
        run_calls strip oracle
          (section "foris" "config" "wizard" ∷ replaced "foris" "wizard" "passed" passed ∷ [])
    set_passed _ = pure tt

    -- The steps that are passed, with this one.
    abbrev pub add_step : String → OptionValue → Uci OptionValue
    add_step step passed =
        if is_in step passed
        then pure passed
        else lift (with_step step passed) >>>= λ more. set_passed more >> pure more

    -- The wizard ends with the last step of its workflow.
    unfoldable pub update_passed : String → Uci (Unit {0})
    update_passed step = read_config strip oracle "foris" >>>= λ foris_data.
        lift (wizard_option foris_data "passed" (items [])) >>>= λ passed.
        add_step step passed >>>= λ more.
        lift (
          detect_basic_workflow >>= λ basic.
          wizard_option foris_data "workflow" (text basic) >>= steps_of)
        >>>= λ steps.
            if covers more steps
            then run_calls strip oracle
                (section "foris" "config" "wizard" ∷ option "foris" "wizard" "finished" "1" ∷ [])
            else pure tt

    -- The block of update_guide that starts a workflow; `none` for one that is not available.
    unfoldable pub start_guide : String → Uci (Option (Unit {0}))
    start_guide workflow = lift detect_available_workflows >>>= λ offered.
        if any (λ e. e == workflow) offered
        then run_calls strip oracle (
            section "foris" "config" "wizard"
            ∷ option "foris" "wizard" "finished" "0"
            ∷ option "foris" "wizard" "workflow" workflow
            ∷ [])
          >> pure (some tt)
        else pure none

    -- The block of reset_guide.
    unfoldable pub reset_guide : Option String → Uci (Unit {0})
    reset_guide new_workflow =
        del_option strip oracle "foris" "wizard" "passed" false
        >> del_option strip oracle "foris" "wizard" "finished" false
        >> run_calls strip oracle (section "foris" "config" "wizard" ∷ [])
        >> (lift (chosen new_workflow) >>>= set_option strip oracle "foris" "wizard" "workflow")
      where
        chosen : Option String → Result String
        chosen none = detect_basic_workflow
        chosen (some workflow) = if workflow == "" then detect_basic_workflow else ok workflow

-- set_language, over the languages that are installed. The attempt on LuCI may fail.
unfoldable pub set_language :
    (strip : String → String) → Oracle → (languages : List String) → String → Uci Bool
set_language strip oracle languages language =
    if any (λ e. e == language) languages
    then run_calls strip oracle
        (section "foris" "config" "settings" ∷ option "foris" "settings" "lang" language ∷ [])
      >> (λ b. except_uci tt (
          run_calls strip oracle
            (section "luci" "core" "main" ∷ option "luci" "main" "lang" language ∷ []) b))
      >> pure true
    else pure false
