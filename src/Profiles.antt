-- ===== src/Profiles.antt =====
-- foris_controller/profiles.py: the workflows of the wizard.
pub mod Progress
mod Tests
use foris_controller.Prelude.{
  ℕ, zero, suc, String, ◌==◌, Bool, true, false, ◌&&◌, Option, none, some, List, [], ◌∷◌, ◌++◌, any,
  if◌then◌else◌,
}
use foris_controller.Exceptions.{key_error, Result, ok, err}

-- WORKFLOWS[workflow], in the order of the dict
unfoldable pub workflow_steps : String → Result (List String)
workflow_steps workflow =
    if workflow == "old"
    then ok ("password" ∷ "wan" ∷ "time" ∷ "dns" ∷ "updater" ∷ "finished" ∷ [])
    else if workflow == "router"
    then ok
        ("password" ∷ "profile" ∷ "networks" ∷ "wan" ∷ "time" ∷ "dns" ∷ "updater" ∷ "finished" ∷ [])
    else if workflow == "min"
    then ok ("password" ∷ "profile" ∷ "finished" ∷ [])
    else if workflow == "shield"
    then ok ("password" ∷ "finished" ∷ [])
    else if workflow == "bridge"
    then ok
        ("password" ∷ "profile" ∷ "networks" ∷ "lan" ∷ "time" ∷ "dns" ∷ "updater" ∷ "finished" ∷ [])
    else if workflow == "unset"
    then ok ("password" ∷ "profile" ∷ [])
    else err (key_error workflow)

abbrev pub workflows : List String
workflows = "old" ∷ "router" ∷ "min" ∷ "shield" ∷ "bridge" ∷ "unset" ∷ []

abbrev pub is_passed : List String → String → Bool
is_passed passed step = any (λ e. e == step) passed

-- The loop of next_step.
unfoldable pub first_missing : List String → List String → Option String
first_missing passed [] = none
first_missing passed (step ∷ steps) =
    let rest = first_missing passed steps in if is_passed passed step then rest else some step

abbrev pub missing_of : List String → Result (List String) → Result (Option String)
missing_of passed (err e) = err e
missing_of passed (ok steps) = ok (first_missing passed steps)

unfoldable pub next_step : (passed : List String) (workflow : String) → Result (Option String)
next_step passed workflow = missing_of passed (workflow_steps workflow)

-- set(steps).issubset(set(passed))
unfoldable pub is_subset : (steps passed : List String) → Bool
is_subset [] passed = true
is_subset (step ∷ steps) passed = is_passed passed step && is_subset steps passed
