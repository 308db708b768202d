-- ===== src/Profiles/Progress.antt =====
-- How the wizard goes on.
use native.Mathlib.Omega.{arith}
use foris_controller.Prelude.{
  ℕ, zero, suc, ◌≤◌, String, ◌==◌, ◌≡◌, refl, ap, ◌∙◌, Bool, true, false, ◌||◌, Option, none, some,
  List, [], ◌∷◌, ◌++◌, length, Bool-cases, Option-cases, inl, inr, eq_iff, if◌then◌else◌,
}
use foris_controller.Exceptions.{ok}
use foris_controller.Profiles.{
  workflow_steps, is_passed, first_missing, missing_of, next_step, is_subset,
}

abbrev pub is_none : Option String → Bool
is_none none = true
is_none (some step) = false

first_missing-is_subset :
    (passed steps : List String) → is_none (first_missing passed steps) ≡ is_subset steps passed
unfolding first_missing is_subset
first_missing-is_subset passed [] = refl
first_missing-is_subset passed (step ∷ steps) = elim (Bool-cases (is_passed passed step)) [
  | inl t ↦ rw t (first_missing-is_subset passed steps)
  | inr f ↦ rw f refl
]

abbrev with_step : List String → Option String → List String
with_step passed none = passed
with_step passed (some step) = passed ++ step ∷ []

-- The step that is passed next, when there is one.
abbrev pub pass_next : List String → List String → List String
pass_next steps passed = with_step passed (first_missing passed steps)

-- So many steps are passed, one after the other.
unfoldable pub pass_steps : ℕ → List String → List String → List String
pass_steps zero steps passed = passed
pass_steps (suc n) steps passed = pass_steps n steps (pass_next steps passed)

any-append :
    (step last : String) (passed : List String)
    → is_passed (passed ++ last ∷ []) step ≡ is_passed passed step || (last == step)
any-append step last [] = ground arith
any-append step last (e ∷ passed) = ground (arith, any-append step last passed)

-- The steps that are not passed.
abbrev missing : List String → List String → ℕ
missing passed [] = 0
missing passed (step ∷ steps) =
    let rest = missing passed steps in if is_passed passed step then rest else suc rest

missing-append :
    (passed steps : List String) (last : String)
    → missing (passed ++ last ∷ []) steps ≤ missing passed steps
missing-append passed [] last = omega arith
missing-append passed (step ∷ steps) last =
    ground (arith, any-append step last passed, missing-append passed steps last)

missing-next :
    (passed steps : List String) (step : String)
    → first_missing passed steps ≡ some step
    → suc (missing (passed ++ step ∷ []) steps) ≤ missing passed steps
unfolding first_missing
missing-next passed [] step h = absurd cc
missing-next passed (s ∷ steps) step h = elim (Bool-cases (is_passed passed s)) [
  | inl t ↦
      let rest = missing-next passed steps step (ground (arith, h, t)) in
      ground (arith, t, rest, any-append s step passed)
  | inr f ↦
      let same : s ≡ step = ground (arith, h, f) in
      let rest = missing-append passed steps step in
      ground (arith, f, rest, any-append s step passed, same, eq_iff step s)
]

missing-none :
    (passed steps : List String) → missing passed steps ≡ 0 → first_missing passed steps ≡ none
unfolding first_missing
missing-none passed [] h = refl
missing-none passed (step ∷ steps) h = elim (Bool-cases (is_passed passed step)) [
  | inl t ↦ rw t (missing-none passed steps (ground (arith, h, t)))
  | inr f ↦ absurd (ground (arith, h, f))
]

missing-length : (passed steps : List String) → missing passed steps ≤ length steps
missing-length passed [] = omega arith
missing-length passed (step ∷ steps) = ground (arith, missing-length passed steps)

stays_finished :
    (n : ℕ) (steps passed : List String)
    → first_missing passed steps ≡ none
    → first_missing (pass_steps n steps passed) steps ≡ none
unfolding pass_steps
stays_finished zero steps passed h = h
stays_finished (suc n) steps passed h =
    ap (λ later. first_missing (pass_steps n steps later) steps) (ap (with_step passed) h)
    ∙ stays_finished n steps passed h

pass_steps-finishes :
    (n : ℕ) (steps passed : List String)
    → missing passed steps ≤ n
    → first_missing (pass_steps n steps passed) steps ≡ none
unfolding pass_steps
pass_steps-finishes zero steps passed h = missing-none passed steps (omega (arith, h))
pass_steps-finishes (suc n) steps passed h = elim (Option-cases (first_missing passed steps)) [
  | inl e ↦ stays_finished (suc n) steps passed e
  | inr (step, e) ↦
      let less = missing-next passed steps step e in
      ap (λ later. first_missing (pass_steps n steps later) steps) (ap (with_step passed) e)
      ∙ pass_steps-finishes n steps (passed ++ step ∷ []) (omega (arith, h, less))
]

-- In a known workflow, whatever steps are passed already, no step is left when the next step has been
-- passed as many times as the workflow has steps.
pub next_step-ends :
    (workflow : String) (steps passed : List String)
    → workflow_steps workflow ≡ ok steps
    → next_step (pass_steps (length steps) steps passed) workflow ≡ ok none
unfolding next_step
next_step-ends workflow steps passed known =
    ap (missing_of (pass_steps (length steps) steps passed)) known
    ∙ ap ok (pass_steps-finishes (length steps) steps passed (missing-length passed steps))

-- In a known workflow there is no next step exactly when its steps are among those that are passed,
-- which is the test under which update_passed finishes the wizard.
pub next_step-is_subset :
    (workflow : String) (steps passed : List String)
    → workflow_steps workflow ≡ ok steps
    → (next : Option String) × (next_step passed workflow ≡ ok next)
      × (is_none next ≡ is_subset steps passed)
unfolding next_step
next_step-is_subset workflow steps passed known =
    (first_missing passed steps, ap (missing_of passed) known, first_missing-is_subset passed steps)
