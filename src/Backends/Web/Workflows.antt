-- ===== src/Backends/Web/Workflows.antt =====
-- The workflows that the wizard offers.
use foris_controller.Prelude.{
  ℕ, ◌≤◌, String, ◌==◌, ◌≡◌, refl, true, false, ◌||◌, ◌⊎◌, inl, inr, List, any, ltb, leb, arith,
  Bool-cases,
}
use foris_controller.Exceptions.{ok}
use foris_controller.Backends.{Numerals}
use foris_controller.Backends.Web.{
  System, major, recommended, available, detect_recommended_workflow, detect_available_workflows,
}

is_offered :
    (system : System) (version : ℕ)
    → (4 ≤ version) ⊎ ((system.model == "turris" || system.model == "omnia") ≡ true)
    → any (λ e. e == recommended system version) (available system version) ≡ true
is_offered system version given = elim (Bool-cases (leb 4 version)) [
  | inl t ↦
      let late : ltb 3 version ≡ true = ground (arith, t) in
      rw (t, late)
        (elim (Bool-cases (system.model == "turris")) [
          | inl m ↦ rw m refl
          | inr m ↦ rw m (elim (Bool-cases (ltb 1 system.interfaces)) [
            | inl i ↦ rw i refl
            | inr i ↦ rw i refl
          ])
        ])
  | inr f ↦
      let early : ltb 3 version ≡ false = ground (arith, f) in
      let known : (system.model == "turris" || system.model == "omnia") ≡ true = elim given [
        | inl h ↦ absurd (ground (arith, f, h))
        | inr h ↦ h
      ] in
      rw (f, early, known) refl
]

-- The recommended workflow is one of the available ones, on a system of version 4 or later, and on an
-- earlier one of the models turris and omnia.
pub recommended_available :
    (numerals : Numerals) (system : System) (version : ℕ)
    → major numerals system ≡ ok version
    → (4 ≤ version) ⊎ ((system.model == "turris" || system.model == "omnia") ≡ true)
    → (workflow : String) × (offered : List String) × (detect_recommended_workflow numerals system
        ≡ ok workflow)
      × (detect_available_workflows numerals system ≡ ok offered)
      × (any (λ e. e == workflow) offered ≡ true)
recommended_available numerals system version known given = (
  recommended system version,
  available system version,
  unfold detect_recommended_workflow in rw known refl,
  unfold detect_available_workflows in rw known refl,
  is_offered system version given,
)
