-- ===== src/Profiles/Tests.antt =====
-- A router whose password is set and whose network is configured.
use foris_controller.Prelude.{◌≡◌, refl, Option, none, some, List, [], ◌∷◌, length, String}
use foris_controller.Exceptions.{ok}
use foris_controller.Profiles.{workflow_steps, first_missing, next_step, is_subset}
use foris_controller.Profiles.Progress.{is_none, pass_steps, next_step-ends, next_step-is_subset}

abbrev steps : List String
steps = "password" ∷ "profile" ∷ "finished" ∷ []

known : workflow_steps "min" ≡ ok steps
unfolding workflow_steps
known = refl

profile_next : next_step ("wan" ∷ "password" ∷ []) "min" ≡ ok (some "profile")
unfolding next_step workflow_steps first_missing
profile_next = refl

next_step-ends_example :
    next_step (pass_steps (length steps) steps ("wan" ∷ "password" ∷ [])) "min" ≡ ok none
next_step-ends_example = next_step-ends "min" steps ("wan" ∷ "password" ∷ []) known

next_step-is_subset_example :
    (next : Option String) × (next_step ("wan" ∷ "password" ∷ []) "min" ≡ ok next)
    × (is_none next ≡ is_subset steps ("wan" ∷ "password" ∷ []))
next_step-is_subset_example = next_step-is_subset "min" steps ("wan" ∷ "password" ∷ []) known
